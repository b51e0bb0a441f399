-- ===== src/Distribution/Versions.antt =====
-- What the expressions of internal/distribution/release.go match is printable.
use data_mate.Base.{
  ℕ, ◌≡◌, refl, true, false, List, [], ◌∷◌, Text, all, ◌==◌, Bool-cases, inl, inr, arith, is_empty,
}
use data_mate.Distribution.Metadata.{
  is_digit, attach, dotted, digits, numeral, stable, os_version, is_printable,
}

attach-digits :
    (c : ℕ) (ps : List Text)
    → all (all is_digit) (attach c ps) ≡ true
    → (is_digit c ≡ true) × (all (all is_digit) ps ≡ true)
unfolding all
attach-digits c [] h = (ground (arith, h), refl)
attach-digits c (p ∷ ps) h = (ground (arith, h), ground (arith, h))

is_digit-printable : (c : ℕ) → is_digit c ≡ true → is_printable c ≡ true
is_digit-printable c h = ground (arith, h)

dot-printable : (c : ℕ) → (c == b'.') ≡ true → is_printable c ≡ true
dot-printable c h = ground (arith, h)

-- Parts of digits come from a text of digits and dots.
digits-printable : (s : Text) → all (all is_digit) (dotted s) ≡ true → all is_printable s ≡ true
unfolding dotted all
digits-printable [] h = refl
digits-printable (c ∷ s) h = elim (Bool-cases (c == b'.')) [
  | inl dot ↦ ground (arith, h, dot, dot-printable c dot, digits-printable s)
  | inr other ↦
      let parts : all (all is_digit) (attach c (dotted s)) ≡ true = ground (arith, h, other) in
      let both = attach-digits c (dotted s) parts in
      ground (arith, is_digit-printable c both.0, digits-printable s both.1)
]

all-digits : (ps : List Text) → all digits ps ≡ true → all (all is_digit) ps ≡ true
unfolding all digits
all-digits [] h = refl
all-digits (p ∷ ps) h = ground (arith, h, all-digits ps)

all-numeral : (ps : List Text) → all numeral ps ≡ true → all digits ps ≡ true
unfolding all numeral
all-numeral [] h = refl
all-numeral (p ∷ ps) h = ground (arith, h, all-numeral ps)

pub stable-printable :
    (s : Text) → stable s ≡ true → (all is_printable s ≡ true) × (is_empty s ≡ false)
unfolding stable dotted
stable-printable [] h = ground (arith, h)
stable-printable (c ∷ s) h = (
  digits-printable (c ∷ s)
      (all-digits (dotted (c ∷ s)) (all-numeral (dotted (c ∷ s)) (ground (arith, h)))),
  refl,
)

pub os_version-printable :
    (s : Text) → os_version s ≡ true → (all is_printable s ≡ true) × (is_empty s ≡ false)
unfolding os_version dotted
os_version-printable [] h = ground (arith, h)
os_version-printable (c ∷ s) h =
    (digits-printable (c ∷ s) (all-digits (dotted (c ∷ s)) (ground (arith, h))), refl)
