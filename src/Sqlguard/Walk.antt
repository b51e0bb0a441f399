-- ===== src/Sqlguard/Walk.antt =====
-- The loop of `Check` in internal/database/postgres/sqlguard/guard.go ends: with enough fuel it is the recursion
-- over the messages with the same maps.
use data_mate.Base.{
  ℕ, zero, suc, ◌+◌, ◌≡◌, refl, ◌∙◌, not, ◌&&◌, Option, none, some, List, ◌∷◌, contains,
  if◌then◌else◌, Bool-cases, Option-cases, inl, inr, arith, is_empty,
}
use data_mate.Sqlguard.{
  Message, unknown, write, relation, query, other, Messages, nil, field, With, no_with, with_clause,
  Ctes, end, stranger, cte, Fault, invalid, read_only, unqualified, Verdict, accepted, refused,
  Maps, copy, bind_name, bind_names, Task, visit, bind, query_fault, members, group_names,
  push_fields, push_members, round, run,
}

-- A verdict with the maps as they then are; a refusal ends it.
abbrev pub and_then : Verdict × Maps → (Maps → Verdict × Maps) → Verdict × Maps
and_then (accepted, h) k = k h
and_then (refused f, h) k = (refused f, h)

abbrev pub faulty : Option Fault → Maps → Verdict × Maps → Verdict × Maps
faulty (some f) h o = (refused f, h)
faulty none h o = o

-- The recursion, and the number of rounds that the loop takes for a message.
unfoldable mutual
  pub walk : Message → ℕ → Maps → Verdict × Maps
  walk unknown i h = (refused invalid, h)
  walk write i h = (refused read_only, h)
  walk (relation schema name) i h = (
    if is_empty schema && not (contains name (h.get i)) then refused unqualified else accepted,
    h,
  )
  walk (query into locking w ms) i h =
      faulty (query_fault into locking w) h
        (walk_with w h.next (walk_fields ms h.next) (bind_names (group_names w) h.next (copy i h)))
  walk (other ms) i h = walk_fields ms i h

  -- The members of a WITH, and then the rest of the query.
  pub walk_with : With → ℕ → (Maps → Verdict × Maps) → Maps → Verdict × Maps
  walk_with no_with i k h = k h
  walk_with (with_clause r cs) i k h = walk_members cs i k h

  pub walk_fields : Messages → ℕ → Maps → Verdict × Maps
  walk_fields nil i h = (accepted, h)
  walk_fields (field m ms) i h = and_then (walk_fields ms i h) (walk m i)

  pub walk_members : Ctes → ℕ → (Maps → Verdict × Maps) → Maps → Verdict × Maps
  walk_members end i k h = k h
  walk_members (stranger cs) i k h = walk_members cs i k h
  walk_members (cte n s b cs) i k h =
      and_then (walk b i h) (λ g. walk_members cs i k (bind_name n i g))

unfoldable mutual
  pub cost : Message → ℕ
  cost unknown = 1
  cost write = 1
  cost (relation schema name) = 1
  cost (query into locking w ms) = suc (cost_with w + cost_fields ms)
  cost (other ms) = suc (cost_fields ms)

  pub cost_with : With → ℕ
  cost_with no_with = 0
  cost_with (with_clause r cs) = cost_members cs

  pub cost_fields : Messages → ℕ
  cost_fields nil = 0
  cost_fields (field m ms) = cost m + cost_fields ms

  pub cost_members : Ctes → ℕ
  cost_members end = 0
  cost_members (stranger cs) = cost_members cs
  cost_members (cte n s b cs) = suc (cost b + cost_members cs)

-- The loop goes on with the maps that the recursion leaves.
abbrev pub resume : Verdict × Maps → ℕ → List Task → Option Verdict
resume (accepted, h) f ts = run f h ts
resume (refused x, h) f ts = some (refused x)

resume-and_then :
    (o : Verdict × Maps) (k : Maps → Verdict × Maps) (f g : ℕ) (ts us : List Task)
    → ((h : Maps) → run g h us ≡ resume (k h) f ts)
    → resume o g us ≡ resume (and_then o k) f ts
resume-and_then (accepted, h) k f g ts us e = e h
resume-and_then (refused x, h) k f g ts us e = refl

mutual
  unfolding run walk cost round push_fields push_members query_fault

  pub run-walk :
      (m : Message) (n f i : ℕ) (h : Maps) (ts : List Task)
      → n ≡ cost m + f
      → run n h (visit m i ∷ ts) ≡ resume (walk m i h) f ts
  run-walk unknown zero f i h ts e = absurd (omega arith)
  run-walk unknown (suc n) f i h ts e = refl
  run-walk write zero f i h ts e = absurd (omega arith)
  run-walk write (suc n) f i h ts e = refl
  run-walk (relation schema name) zero f i h ts e = absurd (omega arith)
  run-walk (relation schema name) (suc n) f i h ts e =
      let same : n ≡ f = omega (arith, e) in
      elim (Bool-cases (is_empty schema && not (contains name (h.get i)))) [
        | inl bad ↦ rw bad refl
        | inr good ↦ rw (good, same) refl
      ]
  run-walk (query into locking w ms) zero f i h ts e = absurd (omega arith)
  run-walk (query into locking w ms) (suc n) f i h ts e =
      elim (Option-cases (query_fault into locking w)) [
        | inr (x, bad) ↦ rw bad refl
        | inl good ↦
            let h' = bind_names (group_names w) h.next (copy i h) in
            rw good (
              run-with w n (cost_fields ms + f) h.next h' (push_fields ms h.next ts)
                (walk_fields ms h.next) f ts (omega (arith, e))
                (λ g. run-fields ms (cost_fields ms + f) f h.next g ts refl))
      ]
  run-walk (other ms) zero f i h ts e = absurd (omega arith)
  run-walk (other ms) (suc n) f i h ts e = run-fields ms n f i h ts (omega (arith, e))

  run-with :
      (w : With) (n r i : ℕ) (h : Maps) (us : List Task) (k : Maps → Verdict × Maps) (f : ℕ)
      (ts : List Task)
      → n ≡ cost_with w + r
      → ((g : Maps) → run r g us ≡ resume (k g) f ts)
      → run n h (push_members (members w) i us) ≡ resume (walk_with w i k h) f ts
  run-with no_with n r i h us k f ts e rest =
      let same : n ≡ r = omega (arith, e) in rw same (rest h)
  run-with (with_clause b cs) n r i h us k f ts e rest = run-members cs n r i h us k f ts e rest

  run-fields :
      (ms : Messages) (n f i : ℕ) (h : Maps) (ts : List Task)
      → n ≡ cost_fields ms + f
      → run n h (push_fields ms i ts) ≡ resume (walk_fields ms i h) f ts
  run-fields nil n f i h ts e = let same : n ≡ f = omega (arith, e) in rw same refl
  run-fields (field m ms) n f i h ts e =
      run-fields ms n (cost m + f) i h (visit m i ∷ ts) (omega (arith, e))
      ∙ resume-and_then (walk_fields ms i h) (walk m i) f (cost m + f) ts (visit m i ∷ ts)
          (λ g. run-walk m (cost m + f) f i g ts refl)

  run-members :
      (cs : Ctes) (n r i : ℕ) (h : Maps) (us : List Task) (k : Maps → Verdict × Maps) (f : ℕ)
      (ts : List Task)
      → n ≡ cost_members cs + r
      → ((g : Maps) → run r g us ≡ resume (k g) f ts)
      → run n h (push_members cs i us) ≡ resume (walk_members cs i k h) f ts
  run-members end n r i h us k f ts e rest = let same : n ≡ r = omega (arith, e) in rw same (rest h)
  run-members (stranger cs) n r i h us k f ts e rest = run-members cs n r i h us k f ts e rest
  run-members (cte name s b cs) n r i h us k f ts e rest =
      let later = cost_members cs + r in
      let vs = push_members cs i us in
      run-walk b n (suc later) i h (bind name i ∷ vs) (omega (arith, e))
      ∙ resume-and_then (walk b i h) (λ g. walk_members cs i k (bind_name name i g)) f (suc later)
          ts (bind name i ∷ vs)
          (λ g. run-members cs later r i (bind_name name i g) us k f ts refl rest)
