-- ===== src/Mcp/Waiting.antt =====
-- The pending calls of internal/mcp/session.go, counted: what a cancellation and an answer leave of them.
use data_mate.Base.{
  ℕ, suc, ◌+◌, ◌≤◌, ◌≡◌, refl, ap, Bool, not, none, some, List, [], ◌∷◌, Text, text_eq, text_eq_iff,
  length, total, find, keep, map, if◌then◌else◌, Bool-cases, inl, inr, arith,
}
use data_mate.Mcp.{Pending, is_pending, named, cancel_if}

-- A test as a number, and the number of the calls that pass it.
abbrev pub one : Bool → ℕ
one b = if b then 1 else 0

abbrev pub count : (Pending → Bool) → List Pending → ℕ
count p = total (λ o. one (p o))

abbrev pub others : Text → List Pending → List Pending
others k = keep (λ o. not (is_pending k o))

cancel_if-fields :
    (k : Text) (o : Pending)
    → ((cancel_if k o).key ≡ o.key)
      × ((cancel_if k o).method ≡ o.method)
      × ((cancel_if k o).wire ≡ o.wire)
cancel_if-fields k o = elim (Bool-cases (text_eq o.key k)) [
  | inl same ↦ rw same (refl, refl, refl)
  | inr other ↦ rw other (refl, refl, refl)
]

pub length-cancel : (k : Text) (ps : List Pending) → length (map (cancel_if k) ps) ≡ length ps
length-cancel k [] = refl
length-cancel k (o ∷ ps) = ap (λ n. suc n) (length-cancel k ps)

-- What cannot tell a cancelled call from another counts the same.
pub count-cancel :
    (p : Pending → Bool) (k : Text) (ps : List Pending)
    → ((o : Pending) → p (cancel_if k o) ≡ p o)
    → count p (map (cancel_if k) ps) ≡ count p ps
unfolding total
count-cancel p k [] h = refl
count-cancel p k (o ∷ ps) h = rw (h o, count-cancel p k ps h) refl

pub count_key-cancel :
    (j k : Text) (ps : List Pending)
    → count (is_pending j) (map (cancel_if k) ps) ≡ count (is_pending j) ps
count_key-cancel j k ps = count-cancel (is_pending j) k ps (λ o. rw (cancel_if-fields k o).0 refl)

pub count_method-cancel :
    (p : Text → Bool) (k : Text) (ps : List Pending)
    → count (λ o. p o.method) (map (cancel_if k) ps) ≡ count (λ o. p o.method) ps
count_method-cancel p k ps =
    count-cancel (λ o. p o.method) k ps (λ o. rw (cancel_if-fields k o).1 refl)

pub count_wire-cancel :
    (p : Text → Bool) (k : Text) (ps : List Pending)
    → count (λ o. p o.wire) (map (cancel_if k) ps) ≡ count (λ o. p o.wire) ps
count_wire-cancel p k ps = count-cancel (λ o. p o.wire) k ps (λ o. rw (cancel_if-fields k o).2 refl)

-- A key that `named` does not find counts nothing.
pub named-none : (k : Text) (ps : List Pending) → named k ps ≡ none → count (is_pending k) ps ≡ 0
unfolding find total
named-none k [] h = refl
named-none k (o ∷ ps) h = ground (arith, named-none k ps)

pub named-key : (k : Text) (ps : List Pending) (p : Pending) → named k ps ≡ some p → p.key ≡ k
unfolding find
named-key k [] p h = cc
named-key k (o ∷ ps) p h = ground (arith, named-key k ps p, text_eq_iff o.key k)

absent-others : (k : Text) (ps : List Pending) → count (is_pending k) ps ≡ 0 → others k ps ≡ ps
unfolding total keep
absent-others k [] h = refl
absent-others k (o ∷ ps) h = ground (arith, absent-others k ps)

-- Of calls with distinct keys, taking one away takes no other.
pub count-others :
    (q : Pending → Bool) (k : Text) (ps : List Pending) (p : Pending)
    → count (is_pending k) ps ≤ 1
    → named k ps ≡ some p
    → count q ps ≡ one (q p) + count q (others k ps)
unfolding find total keep
count-others q k [] p u h = cc
count-others q k (o ∷ ps) p u h = elim (Bool-cases (text_eq o.key k)) [
  | inl same ↦ let gone : others k ps ≡ ps = absent-others k ps (ground arith) in ground arith
  | inr other ↦ let rest = count-others q k ps p (ground arith) (ground arith) in ground arith
]

pub length-others : (k : Text) (ps : List Pending) → length (others k ps) ≤ length ps
unfolding keep
length-others k [] = omega arith
length-others k (o ∷ ps) = ground (arith, length-others k ps)

pub count-others_le :
    (q : Pending → Bool) (k : Text) (ps : List Pending) → count q (others k ps) ≤ count q ps
unfolding keep total
count-others_le q k [] = omega arith
count-others_le q k (o ∷ ps) = ground (arith, count-others_le q k ps)
