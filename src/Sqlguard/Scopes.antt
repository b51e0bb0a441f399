-- ===== src/Sqlguard/Scopes.antt =====
-- The maps that `Check` of internal/database/postgres/sqlguard/guard.go shares and copies give each relation the
-- names of SQL's scopes.
use data_mate.Base.{
  ℕ, zero, suc, ◌-◌, ◌≤◌, ◌<◌, ◌≡◌, refl, ap, ◌∙◌, subst, true, false, not, ◌&&◌, Option, none,
  some, List, [], ◌∷◌, ◌++◌, Text, contains, ◌==◌, if◌then◌else◌, Option-cases, inl, inr, arith,
  is_empty,
}
use data_mate.Sqlguard.{
  Message, unknown, write, relation, query, other, Messages, nil, field, With, no_with, with_clause,
  Ctes, end, stranger, cte, Fault, invalid, read_only, unqualified, Verdict, accepted, refused,
  Maps, copy, bind_name, bind_names, visit, query_fault, group_names, run, no_maps,
}
use data_mate.Sqlguard.Walk.{
  and_then, walk, walk_with, walk_fields, walk_members, cost, resume, run-walk,
}

-- The second verdict counts where the first one accepts.
abbrev pub both : Verdict → Verdict → Verdict
both accepted w = w
both (refused f) w = refused f

abbrev pub judged : Option Fault → Verdict → Verdict
judged (some f) v = refused f
judged none v = v

-- The verdict on a message in a scope, the list of the names that are visible there. A name that a WITH
-- declares is visible to the later members and to the query, and in a recursive WITH to all; a
-- query's names are not visible outside it.
unfoldable mutual
  pub judge : Message → List Text → Verdict
  judge unknown scope = refused invalid
  judge write scope = refused read_only
  judge (relation schema name) scope =
      if is_empty schema && not (contains name scope) then refused unqualified else accepted
  judge (query into locking w ms) scope =
      judged (query_fault into locking w) (judge_with w (judge_fields ms) (group_names w ++ scope))
  judge (other ms) scope = judge_fields ms scope

  pub judge_with : With → (List Text → Verdict) → List Text → Verdict
  judge_with no_with k scope = k scope
  judge_with (with_clause r cs) k scope = judge_members cs k scope

  pub judge_fields : Messages → List Text → Verdict
  judge_fields nil scope = accepted
  judge_fields (field m ms) scope = both (judge_fields ms scope) (judge m scope)

  pub judge_members : Ctes → (List Text → Verdict) → List Text → Verdict
  judge_members end k scope = k scope
  judge_members (stranger cs) k scope = judge_members cs k scope
  judge_members (cte n s b cs) k scope = both (judge b scope) (judge_members cs k (n ∷ scope))

-- Of the maps below `n`, none has changed.
record Keeps (n : ℕ) (h g : Maps) : Type 0 where
  grows : h.next ≤ g.next
  same : (j : ℕ) → j < n → g.get j ≡ h.get j

Keeps-refl : (n : ℕ) (h : Maps) → Keeps n h h
Keeps-refl n h = record { grows = omega arith; same = λ j l. refl }

Keeps-trans : {n m : ℕ} {h g f : Maps} → n ≤ m → Keeps n h g → Keeps m g f → Keeps n h f
Keeps-trans le a b = record {
  grows = omega (arith, a.grows, b.grows);
  same = λ j l. b.same j (omega (arith, l, le)) ∙ a.same j l;
}

-- A recursion that ended with a verdict, and kept the maps below `n`.
record Ends (n : ℕ) (h : Maps) (v : Verdict) (o : Verdict × Maps) : Type 0 where
  verdict : o.0 ≡ v
  keeps : Keeps n h o.1

Ends-and_then :
    (n m : ℕ) (h : Maps) (v w : Verdict) (o : Verdict × Maps) (k : Maps → Verdict × Maps)
    → n ≤ m
    → Ends m h v o
    → ((g : Maps) → Keeps m h g → Ends n g w (k g))
    → Ends n h (both v w) (and_then o k)
Ends-and_then n m h v w (accepted, g) k le a b =
    let next = b g a.keeps in
    record {
      verdict = subst (λ (x : Verdict). (k g).0 ≡ both x w) a.verdict next.verdict;
      keeps = record {
        grows = omega (arith, a.keeps.grows, next.keeps.grows);
        same = λ j l. next.keeps.same j l ∙ a.keeps.same j (omega (arith, l, le));
      };
    }
Ends-and_then n m h v w (refused f, g) k le a b = record {
  verdict = subst (λ (x : Verdict). refused f ≡ both x w) a.verdict refl;
  keeps = record { grows = a.keeps.grows; same = λ j l. a.keeps.same j (omega (arith, l, le)) };
}

Ends-after :
    {n m : ℕ} {h g : Maps} {v : Verdict} {o : Verdict × Maps}
    → n ≤ m
    → Keeps n h g
    → Ends m g v o
    → Ends n h v o
Ends-after le a e = record { verdict = e.verdict; keeps = Keeps-trans le a e.keeps }

self_eq : (k : ℕ) → (k == k) ≡ true
self_eq k = ground arith

below_ne : (j k : ℕ) → j < k → (j == k) ≡ false
below_ne j k l = ground arith

bind_name-get : (name : Text) (k : ℕ) (g : Maps) → (bind_name name k g).get k ≡ name ∷ g.get k
bind_name-get name k g = rw (self_eq k) refl

Keeps-bind_name : (name : Text) (k : ℕ) (g : Maps) → Keeps k g (bind_name name k g)
Keeps-bind_name name k g = record { grows = omega arith; same = λ j l. rw (below_ne j k l) refl }

-- What a query starts from.
entered : List Text → ℕ → Maps → Maps
entered names i h = bind_names names h.next (copy i h)

entered-get :
    (names : List Text) (i : ℕ) (h : Maps) → (entered names i h).get h.next ≡ names ++ h.get i
unfolding entered
entered-get names i h = rw (self_eq h.next) refl

Keeps-entered : (names : List Text) (i : ℕ) (h : Maps) → Keeps h.next h (entered names i h)
unfolding entered
Keeps-entered names i h = record {
  grows = omega arith;
  same = λ j l. rw (below_ne j h.next l) refl;
}

entered-next : (names : List Text) (i : ℕ) (h : Maps) → h.next < (entered names i h).next
unfolding entered
entered-next names i h = omega arith

-- A recursion over what follows, which judges what it sees in the map `k`.
abbrev Follows : ℕ → (List Text → Verdict) → (Maps → Verdict × Maps) → Type 0
Follows k spec rest = (g : Maps) → k < g.next → Ends k g (spec (g.get k)) (rest g)

mutual
  unfolding walk judge query_fault entered

  walk-Ends :
      (m : Message) (i : ℕ) (h : Maps) → i < h.next → Ends h.next h (judge m (h.get i)) (walk m i h)
  walk-Ends unknown i h l = record { verdict = refl; keeps = Keeps-refl h.next h }
  walk-Ends write i h l = record { verdict = refl; keeps = Keeps-refl h.next h }
  walk-Ends (relation schema name) i h l = record { verdict = refl; keeps = Keeps-refl h.next h }
  walk-Ends (query into locking w ms) i h l =
      let names = group_names w in
      let k = h.next in
      elim (Option-cases (query_fault into locking w)) [
        | inr (f, bad) ↦ rw bad (record { verdict = refl; keeps = Keeps-refl k h })
        | inl good ↦ rw good (
            Ends-after (omega arith) (Keeps-entered names i h) (
              subst
                (λ (s : List Text).
                  Ends k (entered names i h) (judge_with w (judge_fields ms) s)
                    (walk_with w k (walk_fields ms k) (entered names i h)))
                (entered-get names i h)
                (with-Ends w k (judge_fields ms) (walk_fields ms k) (entered names i h)
                  (λ g lg. Ends-after (omega (arith, lg)) (Keeps-refl k g) (fields-Ends ms k g lg))
                  (entered-next names i h))))
      ]
  walk-Ends (other ms) i h l = fields-Ends ms i h l

  with-Ends :
      (w : With) (k : ℕ) (spec : List Text → Verdict) (rest : Maps → Verdict × Maps) (h : Maps)
      → Follows k spec rest
      → k < h.next
      → Ends k h (judge_with w spec (h.get k)) (walk_with w k rest h)
  with-Ends no_with k spec rest h f l = f h l
  with-Ends (with_clause r cs) k spec rest h f l = members-Ends cs k spec rest h f l

  fields-Ends :
      (ms : Messages) (i : ℕ) (h : Maps)
      → i < h.next
      → Ends h.next h (judge_fields ms (h.get i)) (walk_fields ms i h)
  fields-Ends nil i h l = record { verdict = refl; keeps = Keeps-refl h.next h }
  fields-Ends (field m ms) i h l =
      Ends-and_then h.next h.next h (judge_fields ms (h.get i)) (judge m (h.get i))
        (walk_fields ms i h) (walk m i) (omega arith) (fields-Ends ms i h l)
        (λ g kept.
          let inside : i < g.next = omega (arith, l, kept.grows) in
          Ends-after kept.grows (Keeps-refl h.next g) (
            subst (λ (s : List Text). Ends g.next g (judge m s) (walk m i g)) (kept.same i l)
              (walk-Ends m i g inside)))

  members-Ends :
      (cs : Ctes) (k : ℕ) (spec : List Text → Verdict) (rest : Maps → Verdict × Maps) (h : Maps)
      → Follows k spec rest
      → k < h.next
      → Ends k h (judge_members cs spec (h.get k)) (walk_members cs k rest h)
  members-Ends end k spec rest h f l = f h l
  members-Ends (stranger cs) k spec rest h f l = members-Ends cs k spec rest h f l
  members-Ends (cte name s b cs) k spec rest h f l =
      Ends-and_then k h.next h (judge b (h.get k)) (judge_members cs spec (name ∷ h.get k))
        (walk b k h) (λ g. walk_members cs k rest (bind_name name k g)) (omega (arith, l))
        (walk-Ends b k h l)
        (λ g kept.
          let g' = bind_name name k g in
          let seen : g'.get k ≡ name ∷ h.get k =
            bind_name-get name k g ∙ ap (λ (t : List Text). name ∷ t) (kept.same k l) in
          Ends-after (omega arith) (Keeps-bind_name name k g) (
            subst
              (λ (t : List Text). Ends k g' (judge_members cs spec t) (walk_members cs k rest g'))
              seen (members-Ends cs k spec rest g' f (omega (arith, l, kept.grows)))))

-- With more fuel than the messages need, the loop ends, and its verdict is that of the scopes.
pub run-judge :
    (m : Message) (fuel : ℕ) → cost m < fuel → run fuel no_maps (visit m 0 ∷ []) ≡ some (judge m [])
unfolding run
run-judge m fuel enough =
    let left : ℕ = fuel - cost m in
    run-walk m fuel left 0 no_maps [] (omega (arith, enough))
    ∙ ended (walk m 0 no_maps) left (omega (arith, enough))
    ∙ ap some (walk-Ends m 0 no_maps (omega arith)).verdict
  where
    ended : (o : Verdict × Maps) (f : ℕ) → 0 < f → resume o f [] ≡ some o.0
    ended (accepted, h) zero l = absurd (omega arith)
    ended (accepted, h) (suc f) l = refl
    ended (refused x, h) f l = refl
