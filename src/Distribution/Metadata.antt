-- ===== src/Distribution/Metadata.antt =====
-- `Metadata`, `valid`, `ParseMetadata` and `Text` of internal/distribution/release.go. `strconv.Itoa` and
-- `strconv.Atoi` are those of Decimal.
use data_mate.Base.{
  ℕ, Bool, true, false, not, ◌&&◌, ◌||◌, Option, none, some, List, [], ◌∷◌, ◌++◌, Text, bytes,
  text_eq, all, length, leb, ltb, ◌==◌, if◌then◌else◌, ℤ, pos, negsuc, is_empty,
}

pub record Decimal : Type 0 where
  pub itoa : ℤ → Text
  pub atoi : Text → Option ℤ

pub record Release : Type 0 where
  pub format : ℤ
  pub version : Text
  pub platform : Text
  pub minimum_macos : Text
  pub minimum_glibc : Text
  pub store_schema : ℤ
  pub inventory_schema : ℤ

abbrev pub is_digit : ℕ → Bool
is_digit c = leb b'0' c && leb c b'9'

-- A character in front of the first part.
abbrev pub attach : ℕ → List Text → List Text
attach c [] = (c ∷ []) ∷ []
attach c (p ∷ ps) = (c ∷ p) ∷ ps

-- The parts of a text between its dots.
unfoldable pub dotted : Text → List Text
dotted [] = [] ∷ []
dotted (c ∷ s) = let ps = dotted s in if c == b'.' then [] ∷ ps else attach c ps

unfoldable pub digits : Text → Bool
digits s = not (is_empty s) && all is_digit s

-- `0|[1-9][0-9]*`.
unfoldable pub numeral : Text → Bool
unfolding digits
numeral s = digits s && not (has_zero s)
  where
    has_zero : Text → Bool
    has_zero [] = false
    has_zero (c ∷ []) = false
    has_zero (c ∷ d ∷ t) = c == b'0'

-- The number of parts of a version of the expression `stable`, and of `osVersion`.
abbrev pub is_three : List Text → Bool
is_three (a ∷ b ∷ c ∷ []) = true
is_three _ = false

abbrev pub two_or_three : List Text → Bool
two_or_three (a ∷ b ∷ []) = true
two_or_three (a ∷ b ∷ c ∷ []) = true
two_or_three _ = false

unfoldable pub stable : Text → Bool
unfolding numeral dotted
stable s = is_three (dotted s) && all numeral (dotted s)

unfoldable pub os_version : Text → Bool
unfolding digits dotted
os_version s = two_or_three (dotted s) && all digits (dotted s)

abbrev pub is_one : ℤ → Bool
is_one (pos n) = n == 1
is_one (negsuc n) = false

abbrev pub is_positive : ℤ → Bool
is_positive (pos n) = ltb 0 n
is_positive (negsuc n) = false

unfoldable pub darwin : Release → Bool
darwin m =
    text_eq m.platform (bytes "darwin_arm64")
    && os_version m.minimum_macos
    && is_empty m.minimum_glibc

unfoldable pub linux : Release → Bool
linux m =
    text_eq m.platform (bytes "linux_amd64")
    && os_version m.minimum_glibc
    && is_empty m.minimum_macos

-- `valid`.
unfoldable pub valid : Release → Bool
valid m =
    is_one m.format
    && stable m.version
    && (darwin m || linux m)
    && is_positive m.store_schema
    && is_positive m.inventory_schema

-- The lines of a text whose last line is ended.
unfoldable pub lines : Text → Option (List Text)
lines [] = some []
lines (c ∷ s) = elim (lines s) [
  | none ↦ none
  | some [] ↦ if c == 10 then some ([] ∷ []) else none
  | some (l ∷ ls) ↦ if c == 10 then some ([] ∷ l ∷ ls) else some ((c ∷ l) ∷ ls)
]

-- `strings.Cut` at `=`.
unfoldable pub cut : Text → Option (Text × Text)
cut [] = none
cut (c ∷ s) = elim (cut s) [
  | none ↦ if c == b'=' then some ([], s) else none
  | some p ↦ if c == b'=' then some ([], s) else some (c ∷ p.0, p.1)
]

abbrev pub Fields : Type 0
Fields = List (Text × Text)

-- A missing key has the empty text.
unfoldable pub field : Text → Fields → Text
field k [] = []
field k (f ∷ fs) = if text_eq f.0 k then f.1 else field k fs

-- The loop over the lines.
unfoldable pub take_fields : List Text → Fields → Option Fields
unfolding field
take_fields [] fs = some fs
take_fields (l ∷ ls) fs = elim (cut l) [
  | none ↦ none
  | some p ↦
      let rest = take_fields ls (p ∷ fs) in
      if is_empty p.1 || not (is_empty (field p.0 fs)) then none else rest
]

abbrev pub is_printable : ℕ → Bool
is_printable c = leb 32 c && leb c 126

module _ (d : Decimal) where
  -- `integer`.
  unfoldable pub integer : Text → ℤ
  integer value = elim (d.atoi value) [
    | none ↦ pos 0
    | some n ↦ if text_eq (d.itoa n) value then n else pos 0
  ]

  abbrev pub release_of : Fields → Release
  release_of fs = record {
    format = integer (field (bytes "format") fs);
    version = field (bytes "version") fs;
    platform = field (bytes "platform") fs;
    minimum_macos = field (bytes "minimum_macos") fs;
    minimum_glibc = field (bytes "minimum_glibc") fs;
    store_schema = integer (field (bytes "store_schema") fs);
    inventory_schema = integer (field (bytes "inventory_schema") fs);
  }

  abbrev pub checked : Fields → Option Release
  checked fs = if length fs == 6 && valid (release_of fs) then some (release_of fs) else none

  abbrev pub from_fields : Option Fields → Option Release
  from_fields none = none
  from_fields (some fs) = checked fs

  abbrev pub from_lines : Option (List Text) → Option Release
  from_lines none = none
  from_lines (some ls) = from_fields (take_fields ls [])

  -- `ParseMetadata`.
  unfoldable pub parse_metadata : Text → Option Release
  parse_metadata raw =
      if not (is_empty raw) && leb (length raw) 4096 && all (λ c. c == 10 || is_printable c) raw
      then from_lines (lines raw)
      else none

  abbrev pub line : Text → Text → Text → Text
  line key value rest = key ++ (b'=' ∷ (value ++ (10 ∷ rest)))

  abbrev pub minimum : Release → Text × Text
  minimum m =
      if text_eq m.platform (bytes "linux_amd64")
      then (bytes "minimum_glibc", m.minimum_glibc)
      else (bytes "minimum_macos", m.minimum_macos)

  -- `Text`.
  unfoldable pub text_of : Release → Text
  text_of m = line (bytes "format") (d.itoa m.format) (
      line (bytes "version") m.version (
        line (bytes "platform") m.platform (
          line (minimum m).0 (minimum m).1 (
            line (bytes "store_schema") (d.itoa m.store_schema)
              (line (bytes "inventory_schema") (d.itoa m.inventory_schema) [])))))
