-- ===== src/Pools/Framing.antt =====
-- The text that the fingerprint of a pool is the hash of tells the values apart.
use data_mate.Base.{ℕ, ◌<◌, ◌≡◌, refl, List, [], ◌∷◌, ◌++◌, Text, length, All, arith}
use data_mate.Pools.{put_uint64, framed}

-- A Go string has fewer bytes than this.
abbrev pub IsShort : Text → Type 0
IsShort v = length v < 18446744073709551616

head-eq : {a b : ℕ} {s t : Text} → a ∷ s ≡ b ∷ t → a ≡ b
head-eq h = cc

tail-eq : {a b : ℕ} {s t : Text} → a ∷ s ≡ b ∷ t → s ≡ t
tail-eq h = cc

split_eq : (v w s t : Text) → length v ≡ length w → v ++ s ≡ w ++ t → (v ≡ w) × (s ≡ t)
split_eq [] [] s t l h = (refl, h)
split_eq [] (b ∷ w) s t l h = ground arith
split_eq (a ∷ v) [] s t l h = ground arith
split_eq (a ∷ v) (b ∷ w) s t l h =
    let rest = split_eq v w s t (omega arith) (tail-eq h) in (λ i. head-eq h i ∷ rest.0 i, rest.1)

put_uint64-eq :
    (m n : ℕ) (s t : Text)
    → m < 18446744073709551616
    → n < 18446744073709551616
    → put_uint64 m ++ s ≡ put_uint64 n ++ t
    → (m ≡ n) × (s ≡ t)
unfolding put_uint64
put_uint64-eq m n s t i j h =
    let h1 = tail-eq h in
    let h2 = tail-eq h1 in
    let h3 = tail-eq h2 in
    let h4 = tail-eq h3 in
    let h5 = tail-eq h4 in
    let h6 = tail-eq h5 in
    let h7 = tail-eq h6 in
    let e0 = head-eq h in
    let e1 = head-eq h1 in
    let e2 = head-eq h2 in
    let e3 = head-eq h3 in
    let e4 = head-eq h4 in
    let e5 = head-eq h5 in
    let e6 = head-eq h6 in
    let e7 = head-eq h7 in (omega (arith, e0, e1, e2, e3, e4, e5, e6, e7), tail-eq h7)

-- Two lists of values that are framed alike are the same: no value runs into the next one.
pub framed-injective :
    (vs ws : List Text) → All IsShort vs → All IsShort ws → framed vs ≡ framed ws → vs ≡ ws
unfolding framed
framed-injective [] [] i j h = refl
framed-injective [] (w ∷ ws) i j h = cc
framed-injective (v ∷ vs) [] i j h = cc
framed-injective (v ∷ vs) (w ∷ ws) i j h =
    let front = put_uint64-eq (length v) (length w) _ _ i.0 j.0 h in
    let body = split_eq v w (framed vs) (framed ws) front.0 front.1 in
    let rest = framed-injective vs ws i.1 j.1 body.1 in λ k. body.0 k ∷ rest k
