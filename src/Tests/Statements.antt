-- ===== src/Tests/Statements.antt =====
-- `Check` of internal/database/postgres/sqlguard/guard.go on WITH a AS (SELECT FROM s.t) SELECT FROM a.
use data_mate.Base.{
  ℕ, ◌<◌, ◌≡◌, ◌↔◌, refl, Bool, true, false, not, ◌&&◌, ◌==◌, any, some, Option, List, [], ◌∷◌,
  Text, bytes, arith,
}
use data_mate.Sqlguard.{
  Message, relation, query, other, nil, field, no_with, with_clause, end, cte, accepted, no_maps,
  visit, run, Tree, select, one_read, check,
}
use data_mate.Sqlguard.Walk.{cost}
use data_mate.Sqlguard.Scopes.{judge, run-judge}
use data_mate.Sqlguard.Reads.{allowed, check-accepts}

abbrev body : Message
body = query false false no_with (field (relation (bytes "s") (bytes "t")) nil)

abbrev statement : Message
statement = other (
    field
      (query false false (with_clause false (cte (bytes "a") true body end))
        (field (relation [] (bytes "a")) nil))
      nil)

abbrev tree : Tree
tree = record { statements = select ∷ []; message = statement }

enough : cost statement < 10
unfolding cost
enough = omega arith

run-judge_example : run 10 no_maps (visit statement 0 ∷ []) ≡ some (judge statement [])
run-judge_example = run-judge statement 10 enough

check-accepts_example : (check (λ s. true) (λ s. some tree) 10 (bytes "with") ≡ some accepted) ↔ (
    ((true && not (any (λ c. c == 0) (bytes "with"))) ≡ true)
    × (one_read (select ∷ []) ≡ true)
    × (allowed statement [] ≡ true))
check-accepts_example =
    check-accepts (λ s. true) (λ s. some tree) 10 (bytes "with") tree refl enough

is_accepted_here : judge statement [] ≡ accepted
unfolding judge data_mate.Sqlguard.query_fault data_mate.Base.contains data_mate.Base.text_eq
is_accepted_here = refl
