-- ===== src/Tests/Releases.antt =====
-- The metadata of internal/distribution/release.go for version 1.2.3 on Linux, with numbers in strokes.
use data_mate.Base.{
  ℕ, zero, suc, ◌-◌, ◌≤◌, ◌≡◌, refl, Bool, true, false, Option, none, some, List, [], ◌∷◌, Text,
  bytes, all, length, ◌==◌, ℤ, pos, negsuc, if◌then◌else◌, arith, is_empty,
}
use data_mate.Distribution.Metadata.{Decimal, Release, is_printable, valid, parse_metadata, text_of}
use data_mate.Distribution.Lines.{DecimalLaws}
use data_mate.Distribution.RoundTrip.{parse_metadata-text_of}

strokes : ℕ → Text
strokes zero = b'1' ∷ []
strokes (suc n) = b'1' ∷ strokes n

in_strokes : ℤ → Text
unfolding strokes
in_strokes (pos n) = strokes n
in_strokes (negsuc n) = b'-' ∷ strokes n

from_strokes : Text → Option ℤ
from_strokes [] = none
from_strokes (c ∷ t) = if c == b'-' then some (negsuc (length t - 1)) else some (pos (length t))

abbrev decimal : Decimal
decimal = record { itoa = in_strokes; atoi = from_strokes }

length-strokes : (n : ℕ) → length (strokes n) ≡ suc n
unfolding strokes
length-strokes zero = refl
length-strokes (suc n) = ground (arith, length-strokes n)

strokes-printable : (n : ℕ) → all is_printable (strokes n) ≡ true
unfolding strokes all
strokes-printable zero = refl
strokes-printable (suc n) = strokes-printable n

strokes-reads : (n : ℕ) → from_strokes (strokes n) ≡ some (pos n)
unfolding strokes from_strokes
strokes-reads zero = refl
strokes-reads (suc n) = rw (length-strokes n) refl

strokes-nonempty : (n : ℕ) → is_empty (strokes n) ≡ false
unfolding strokes
strokes-nonempty zero = refl
strokes-nonempty (suc n) = refl

reads : (z : ℤ) → from_strokes (in_strokes z) ≡ some z
unfolding from_strokes in_strokes
reads (pos n) = strokes-reads n
reads (negsuc n) = ground (arith, length-strokes n)

printable : (z : ℤ) → all is_printable (in_strokes z) ≡ true
unfolding in_strokes all
printable (pos n) = strokes-printable n
printable (negsuc n) = strokes-printable n

nonempty : (z : ℤ) → is_empty (in_strokes z) ≡ false
unfolding in_strokes
nonempty (pos n) = strokes-nonempty n
nonempty (negsuc n) = refl

decimal-DecimalLaws : DecimalLaws decimal
decimal-DecimalLaws = record { reads = reads; printable = printable; nonempty = nonempty }

abbrev release : Release
release = record {
  format = pos 1;
  version = bytes "1.2.3";
  platform = bytes "linux_amd64";
  minimum_macos = [];
  minimum_glibc = bytes "2.39";
  store_schema = pos 1;
  inventory_schema = pos 1;
}

is_valid : valid release ≡ true
unfolding valid data_mate.Distribution.Metadata.stable all data_mate.Distribution.Metadata.darwin
    data_mate.Base.text_eq data_mate.Distribution.Metadata.linux
    data_mate.Distribution.Metadata.os_version
is_valid = refl

short : length (text_of decimal release) ≤ 4096
unfolding text_of in_strokes data_mate.Base.text_eq
short = omega arith

parse_metadata-text_of_example : parse_metadata decimal (text_of decimal release) ≡ some release
parse_metadata-text_of_example =
    parse_metadata-text_of decimal release decimal-DecimalLaws is_valid short
