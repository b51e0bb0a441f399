-- ===== src/Sqlguard/Reads.antt =====
-- Which statements `Check` of internal/database/postgres/sqlguard/guard.go accepts.
use data_mate.Base.{
  ℕ, ◌<◌, ◌≡◌, ◌↔◌, refl, ◌∙◌, Bool, true, false, not, ◌&&◌, ◌||◌, Option, some, List, [], ◌∷◌,
  ◌++◌, Text, contains, any, ◌==◌, Bool-cases, inl, inr, arith, is_empty,
}
use data_mate.Sqlguard.{
  Message, unknown, write, relation, query, other, Messages, nil, field, With, no_with, with_clause,
  Ctes, end, stranger, cte, Verdict, accepted, refused, has_stranger, all_select, with_fault,
  query_fault, group_names, Tree, one_read, check_tree, check,
}
use data_mate.Sqlguard.Walk.{cost}
use data_mate.Sqlguard.Scopes.{
  both, judged, judge, judge_with, judge_fields, judge_members, run-judge,
}

abbrev pub is_accepted : Verdict → Bool
is_accepted accepted = true
is_accepted (refused f) = false

abbrev pub all_queries : With → Bool
all_queries no_with = true
all_queries (with_clause r cs) = all_select cs

-- What may stand in a statement, in no particular order: no message of an unknown form and no write;
-- queries with no INTO, no locking and none but queries in their WITH; and relations that name
-- their schema, or that their scope declares.
unfoldable mutual
  pub allowed : Message → List Text → Bool
  allowed unknown scope = false
  allowed write scope = false
  allowed (relation schema name) scope = not (is_empty schema) || contains name scope
  allowed (query into locking w ms) scope =
      not into
      && not locking
      && all_queries w
      && allowed_with w (allowed_fields ms) (group_names w ++ scope)
  allowed (other ms) scope = allowed_fields ms scope

  pub allowed_with : With → (List Text → Bool) → List Text → Bool
  allowed_with no_with k scope = k scope
  allowed_with (with_clause r cs) k scope = allowed_members cs k scope

  pub allowed_fields : Messages → List Text → Bool
  allowed_fields nil scope = true
  allowed_fields (field m ms) scope = allowed m scope && allowed_fields ms scope

  pub allowed_members : Ctes → (List Text → Bool) → List Text → Bool
  allowed_members end k scope = k scope
  allowed_members (stranger cs) k scope = allowed_members cs k scope
  allowed_members (cte n s b cs) k scope = allowed b scope && allowed_members cs k (n ∷ scope)

both-accepted :
    (v w : Verdict) (a b : Bool)
    → is_accepted v ≡ a
    → is_accepted w ≡ b
    → is_accepted (both v w) ≡ (a && b)
both-accepted v w a b h k = ground arith

&&-comm : (a b : Bool) → (a && b) ≡ (b && a)
&&-comm a b = ground arith

all_select-has_stranger : (cs : Ctes) → all_select cs ≡ true → has_stranger cs ≡ false
unfolding all_select has_stranger
all_select-has_stranger end h = refl
all_select-has_stranger (stranger cs) h = cc
all_select-has_stranger (cte n s b cs) h = all_select-has_stranger cs (ground arith)

judged-accepted :
    (into locking : Bool) (w : With) (v : Verdict) (b : Bool)
    → is_accepted v ≡ b
    → is_accepted (judged (query_fault into locking w) v)
      ≡ (not into && not locking && all_queries w && b)
unfolding query_fault with_fault
judged-accepted into locking no_with v b h = ground arith
judged-accepted into locking (with_clause r cs) v b h = ground (arith, all_select-has_stranger cs)

mutual
  unfolding judge allowed

  judge-allowed : (m : Message) (scope : List Text) → is_accepted (judge m scope) ≡ allowed m scope
  judge-allowed unknown scope = refl
  judge-allowed write scope = refl
  judge-allowed (relation schema name) scope = ground arith
  judge-allowed (query into locking w ms) scope =
      judged-accepted into locking w (judge_with w (judge_fields ms) (group_names w ++ scope))
        (allowed_with w (allowed_fields ms) (group_names w ++ scope))
        (with-allowed w (judge_fields ms) (allowed_fields ms) (fields-allowed ms)
          (group_names w ++ scope))
  judge-allowed (other ms) scope = fields-allowed ms scope

  with-allowed :
      (w : With) (k : List Text → Verdict) (p : List Text → Bool)
      → ((s : List Text) → is_accepted (k s) ≡ p s)
      → (scope : List Text) → is_accepted (judge_with w k scope) ≡ allowed_with w p scope
  with-allowed no_with k p h scope = h scope
  with-allowed (with_clause r cs) k p h scope = members-allowed cs k p h scope

  fields-allowed :
      (ms : Messages) (scope : List Text)
      → is_accepted (judge_fields ms scope) ≡ allowed_fields ms scope
  fields-allowed nil scope = refl
  fields-allowed (field m ms) scope =
      both-accepted (judge_fields ms scope) (judge m scope) (allowed_fields ms scope)
        (allowed m scope) (fields-allowed ms scope) (judge-allowed m scope)
      ∙ &&-comm (allowed_fields ms scope) (allowed m scope)

  members-allowed :
      (cs : Ctes) (k : List Text → Verdict) (p : List Text → Bool)
      → ((s : List Text) → is_accepted (k s) ≡ p s)
      → (scope : List Text) → is_accepted (judge_members cs k scope) ≡ allowed_members cs p scope
  members-allowed end k p h scope = h scope
  members-allowed (stranger cs) k p h scope = members-allowed cs k p h scope
  members-allowed (cte n s b cs) k p h scope =
      both-accepted (judge b scope) (judge_members cs k (n ∷ scope)) (allowed b scope)
        (allowed_members cs p (n ∷ scope)) (judge-allowed b scope)
        (members-allowed cs k p h (n ∷ scope))

some-accepted : (v : Verdict) (b : Bool) → is_accepted v ≡ b → (some v ≡ some accepted) ↔ (b ≡ true)
some-accepted v b h = ground arith

check_tree-reads :
    (t : Tree) (fuel : ℕ)
    → cost t.message < fuel
    → (check_tree fuel (some t) ≡ some accepted)
      ↔ ((one_read t.statements ≡ true) × (allowed t.message [] ≡ true))
unfolding check_tree
check_tree-reads t fuel enough = ground (
  arith,
  run-judge t.message fuel enough,
  some-accepted (judge t.message []) (allowed t.message []) (judge-allowed t.message []),
)

-- Of a text that parses, and with more fuel than its messages need, `Check` accepts exactly the texts that
-- are valid without a NUL, hold one statement of a kind that reads, and whose messages are all allowed
-- in the scopes of SQL.
pub check-accepts :
    (text_ok : Text → Bool) (parse : Text → Option Tree) (fuel : ℕ) (sql : Text) (t : Tree)
    → parse sql ≡ some t
    → cost t.message < fuel
    → (check text_ok parse fuel sql ≡ some accepted) ↔ (
        ((text_ok sql && not (any (λ c. c == 0) sql)) ≡ true)
        × (one_read t.statements ≡ true)
        × (allowed t.message [] ≡ true))
unfolding check
check-accepts text_ok parse fuel sql t parses enough =
    elim (Bool-cases (text_ok sql && not (any (λ c. c == 0) sql))) [
      | inl valid ↦ rw (valid, parses) (ground (arith, check_tree-reads t fuel enough))
      | inr bad ↦ rw bad (ground arith)
    ]
