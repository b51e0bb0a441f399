-- ===== src/Cli/Plan/Distinct.antt =====
-- A document that is accepted holds each identity once.
use data_mate.Base.{
  ◌≡◌, refl, ap, subst, Bool, true, false, not, ◌&&◌, some, List, [], ◌∷◌, ◌++◌, Text, text_eq,
  text_eq_iff, text_eq_refl, to_lower, contains, length, leb, Result, ok, err, Bool-cases, inl, inr,
  arith, guard-ok, document, >>=-eq-ok, Error, ◌⊎◌,
}
use data_mate.Config.Profile.{Profile, Profiles}
use data_mate.Config.Profiles.{
  Codec, decode_profiles, parsed, canonical, normalise, nothing_seen, lowered, is_duplicate,
  has_bad_ca, mark, Seen,
}
use data_mate.Cli.Plan.{is_ok}

abbrev pub ids : List Profile → List Text
ids [] = []
ids (c ∷ cs) = c.id ∷ ids cs

-- No text stands twice.
abbrev pub distinct : List Text → Bool
distinct [] = true
distinct (k ∷ ks) = not (contains k ks) && distinct ks

to_lower-apart : (s t : Text) → text_eq (to_lower s) (to_lower t) ≡ false → text_eq s t ≡ false
to_lower-apart s t h = elim (Bool-cases (text_eq s t)) [
  | inr apart ↦ apart
  | inl same ↦
      let e : to_lower s ≡ to_lower t = ap to_lower ((text_eq_iff s t).0 same) in
      ground (arith, text_eq_iff (to_lower s) (to_lower t))
]

-- What the loop of `DecodeProfiles` has met it does not meet again.
normalise-new :
    (s : Seen) (cs : List Profile) (r : List Profile) (k : Text)
    → normalise s cs ≡ ok r
    → contains (to_lower k) s.ids ≡ true
    → contains k (ids cs) ≡ false
unfolding normalise contains lowered is_duplicate mark
normalise-new s [] r k h m = refl
normalise-new s (c ∷ cs) r k h m =
    let a = guard-ok (not (is_duplicate s (lowered c))) _ _ h in
    let b = guard-ok (not (has_bad_ca (lowered c))) _ _ a.1 in
    let d = >>=-eq-ok (normalise (mark s (lowered c)) cs) _ b.1 in
    let new : contains (to_lower c.id) s.ids ≡ false = ground (arith, a.0) in
    let rest = normalise-new (mark s (lowered c)) cs d.0 k d.1 (ground (arith, m)) in
    let apart : text_eq c.id k ≡ false = elim (Bool-cases (text_eq c.id k)) [
      | inr apart ↦ apart
      | inl same ↦
          let e : to_lower c.id ≡ to_lower k = ap to_lower ((text_eq_iff c.id k).0 same) in
          let f : contains (to_lower k) s.ids ≡ false = rw e at new in cc
    ] in
    ground (arith, apart, rest)

normalise-distinct :
    (s : Seen) (cs : List Profile) (r : List Profile)
    → normalise s cs ≡ ok r
    → distinct (ids cs) ≡ true
unfolding normalise contains lowered mark
normalise-distinct s [] r h = refl
normalise-distinct s (c ∷ cs) r h =
    let a = guard-ok (not (is_duplicate s (lowered c))) _ _ h in
    let b = guard-ok (not (has_bad_ca (lowered c))) _ _ a.1 in
    let d = >>=-eq-ok (normalise (mark s (lowered c)) cs) _ b.1 in
    let new =
      normalise-new (mark s (lowered c)) cs d.0 c.id d.1
        (ground (arith, text_eq_refl (to_lower c.id))) in
    ground (arith, new, normalise-distinct (mark s (lowered c)) cs d.0 d.1)

-- An accepted document holds each identity once.
pub accepted-distinct :
    (codec : Codec) (p : Profiles)
    → ((q : Profiles) → codec.parse (codec.print p) ≡ some q → q ≡ p)
    → is_ok (decode_profiles codec (codec.print p)) ≡ true
    → distinct (ids p.connections) ≡ true
unfolding decode_profiles parsed canonical
accepted-distinct codec p back h = elim (Result-cases (decode_profiles codec (codec.print p))) [
  | inr (e, bad) ↦ ground (arith, bad)
  | inl (x, good) ↦
      let a = guard-ok (leb (length (codec.print p)) _) document _ good in
      let b = >>=-eq-ok (parsed (codec.parse (codec.print p))) _ a.1 in
      let c = >>=-eq-ok (canonical b.0) _ b.2 in
      let d = >>=-eq-ok (normalise nothing_seen b.0.connections) _ c.1 in
      let e : b.0 ≡ p = back b.0 (ground (arith, b.1)) in
      subst (λ q. distinct (ids q.connections) ≡ true) e
        (normalise-distinct nothing_seen b.0.connections d.0 d.1)
]
  where
    Result-cases :
        {A : Type 0} (r : Result A) → ((a : A) × (r ≡ ok a)) ⊎ ((e : Error) × (r ≡ err e))
    Result-cases (ok a) = inl (a, refl)
    Result-cases (err e) = inr (e, refl)

contains-middle :
    (j : Text) (ks : List Text) (k : Text) (ls : List Text)
    → contains j (ks ++ (k ∷ ls)) ≡ false
    → text_eq k j ≡ false
unfolding contains
contains-middle j [] k ls h = ground arith
contains-middle j (i ∷ ks) k ls h = contains-middle j ks k ls (ground arith)

text_eq-flip : (s t : Text) → text_eq s t ≡ false → text_eq t s ≡ false
text_eq-flip s t h = ground (arith, text_eq_iff s t, text_eq_iff t s)

pub distinct-append :
    (ks : List Text) (k : Text) (ls : List Text)
    → distinct (ks ++ (k ∷ ls)) ≡ true
    → contains k ks ≡ false
unfolding contains
distinct-append [] k ls h = refl
distinct-append (j ∷ ks) k ls h =
    let rest = distinct-append ks k ls (ground arith) in
    let apart = text_eq-flip k j (contains-middle j ks k ls (ground arith)) in
    ground (arith, rest, apart)

pub ids-append : (cs ds : List Profile) → ids (cs ++ ds) ≡ ids cs ++ ids ds
ids-append [] ds = refl
ids-append (c ∷ cs) ds = ap (λ ks. c.id ∷ ks) (ids-append cs ds)
