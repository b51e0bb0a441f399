-- ===== src/Distribution/Lines.antt =====
-- The lines of the metadata of internal/distribution/release.go.
use data_mate.Base.{
  ℕ, ◌≡◌, refl, ap, Bool, true, false, not, ◌&&◌, ◌||◌, Option, none, some, List, [], ◌∷◌, ◌++◌,
  Text, text_eq_refl, all, ◌==◌, ℤ, arith, is_empty,
}
use data_mate.Distribution.Metadata.{
  Decimal, lines, cut, Fields, field, take_fields, is_printable, integer, line,
}

-- What is documented of the two functions: a number is written with printable characters, and read back.
pub record DecimalLaws (d : Decimal) : Type 0 where
  pub reads : (n : ℤ) → d.atoi (d.itoa n) ≡ some n
  pub printable : (n : ℤ) → all is_printable (d.itoa n) ≡ true
  pub nonempty : (n : ℤ) → is_empty (d.itoa n) ≡ false

abbrev pub allowed : ℕ → Bool
allowed c = (c == 10) || is_printable c

-- A line of printable characters, in front of other lines.
lines-line :
    (l rest : Text) (ls : List Text)
    → all is_printable l ≡ true
    → lines rest ≡ some ls
    → lines (l ++ (10 ∷ rest)) ≡ some (l ∷ ls)
unfolding lines all
lines-line [] rest [] p h = rw h refl
lines-line [] rest (l ∷ ls) p h = rw h refl
lines-line (c ∷ l) rest ls p h =
    let later = lines-line l rest ls (ground (arith, p)) h in
    let other : (c == 10) ≡ false = ground (arith, p) in ground (arith, later, other)

all-line :
    (l rest : Text)
    → all is_printable l ≡ true
    → all allowed rest ≡ true
    → all allowed (l ++ (10 ∷ rest)) ≡ true
unfolding all
all-line [] rest p h = ground (arith, h)
all-line (c ∷ l) rest p h = ground (arith, p, all-line l rest (ground (arith, p)) h)

pub take-none : (fs : Fields) → take_fields [] fs ≡ some fs
unfolding take_fields
take-none fs = refl

pub take-line :
    (l k v : Text) (ls : List Text) (fs : Fields)
    → cut l ≡ some (k, v)
    → is_empty v ≡ false
    → is_empty (field k fs) ≡ true
    → take_fields (l ∷ ls) fs ≡ take_fields ls ((k, v) ∷ fs)
unfolding take_fields
take-line l k v ls fs c n f = rw (take_fields, c, n, f) refl

abbrev pub entry : Text → Text → Text
entry key value = key ++ (b'=' ∷ value)

abbrev pub is_key : ℕ → Bool
is_key c = is_printable c && not (c == b'=')

entry-printable :
    (k v : Text)
    → all is_key k ≡ true
    → all is_printable v ≡ true
    → all is_printable (entry k v) ≡ true
unfolding all
entry-printable [] v h p = p
entry-printable (c ∷ k) v h p = ground (arith, h, entry-printable k v (ground (arith, h)) p)

pub cut-entry : (k v : Text) → all is_key k ≡ true → cut (entry k v) ≡ some (k, v)
unfolding cut all
cut-entry [] v h =
    elim (cut v)
      as (λ (o : Option (Text × Text)).
        elim o as (λ _. Option (Text × Text)) [ none ↦ some ([], v) | some p ↦ some ([], v) ]
        ≡ some ([], v)) [ none ↦ refl | some p ↦ refl ]
cut-entry (c ∷ k) v h =
    let later = cut-entry k v (ground (arith, h)) in
    let other : (c == b'=') ≡ false = ground (arith, h) in ground (arith, later, other)

module _ (d : Decimal) where
  entry-line : (k v rest : Text) → entry k v ++ (10 ∷ rest) ≡ line d k v rest
  entry-line [] v rest = refl
  entry-line (c ∷ k) v rest = ap (λ t. c ∷ t) (entry-line k v rest)

  pub lines-entry :
      (k v rest : Text) (ls : List Text)
      → all is_key k ≡ true
      → all is_printable v ≡ true
      → lines rest ≡ some ls
      → lines (line d k v rest) ≡ some (entry k v ∷ ls)
  lines-entry k v rest ls h p r =
      rw (← entry-line k v rest) (lines-line (entry k v) rest ls (entry-printable k v h p) r)

  pub all-entry :
      (k v rest : Text)
      → all is_key k ≡ true
      → all is_printable v ≡ true
      → all allowed rest ≡ true
      → all allowed (line d k v rest) ≡ true
  all-entry k v rest h p r =
      rw (← entry-line k v rest) (all-line (entry k v) rest (entry-printable k v h p) r)

  pub integer-itoa : (n : ℤ) → DecimalLaws d → integer d (d.itoa n) ≡ n
  unfolding integer
  integer-itoa n laws = rw (integer, laws.reads n, text_eq_refl (d.itoa n)) refl
