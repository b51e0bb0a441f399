-- ===== src/Distribution/RoundTrip.antt =====
-- `ParseMetadata` of internal/distribution/release.go reads what `Text` writes.
use data_mate.Base.{
  ◌≤◌, ◌≡◌, refl, ◌∙◌, Bool, true, false, some, [], ◌∷◌, Text, bytes, text_eq, text_eq_iff, all,
  length, ◌==◌, ℤ, Bool-cases, inl, inr, arith, is_empty,
}
use data_mate.Distribution.Metadata.{
  Decimal, Release, stable, os_version, darwin, linux, valid, Fields, field, is_printable,
  release_of, checked, parse_metadata, minimum, text_of,
}
use data_mate.Distribution.Versions.{stable-printable, os_version-printable}
use data_mate.Distribution.Lines.{DecimalLaws, integer-itoa}
use data_mate.Distribution.SixLines.{six, found, parse-six}

empty : (t : Text) → is_empty t ≡ true → t ≡ []
empty [] h = refl
empty (c ∷ t) h = cc

checked-same :
    (d : Decimal) (fs : Fields) (m : Release)
    → release_of d fs ≡ m
    → (length fs == 6) ≡ true
    → valid m ≡ true
    → checked d fs ≡ some m
checked-same d fs m e l v = rw (checked, e, l, v) refl

module _ (d : Decimal) (laws : DecimalLaws d) (m : Release) where
  abbrev written : Text → Bool → Text
  written v =
      six d (d.itoa m.format) m.version m.platform v (d.itoa m.store_schema)
        (d.itoa m.inventory_schema)

  abbrev read : Text → Bool → Fields
  read v =
      found d (d.itoa m.format) m.version m.platform v (d.itoa m.store_schema)
        (d.itoa m.inventory_schema)

  text_of-macos :
      text_eq m.platform (bytes "linux_amd64") ≡ false → text_of d m ≡ written m.minimum_macos false
  unfolding text_of
  text_of-macos h = rw (minimum, h) refl

  text_of-glibc :
      text_eq m.platform (bytes "linux_amd64") ≡ true → text_of d m ≡ written m.minimum_glibc true
  unfolding text_of
  text_of-glibc h = rw (minimum, h) refl

  release_of-macos : m.minimum_glibc ≡ [] → release_of d (read m.minimum_macos false) ≡ m
  unfolding field text_eq
  release_of-macos h =
      rw
        (
          integer-itoa d m.format laws,
          integer-itoa d m.store_schema laws,
          integer-itoa d m.inventory_schema laws,
          h,
        )
        refl

  release_of-glibc : m.minimum_macos ≡ [] → release_of d (read m.minimum_glibc true) ≡ m
  unfolding field text_eq
  release_of-glibc h =
      rw
        (
          integer-itoa d m.format laws,
          integer-itoa d m.store_schema laws,
          integer-itoa d m.inventory_schema laws,
          h,
        )
        refl

  number-good : (n : ℤ) → (all is_printable (d.itoa n) ≡ true) × (is_empty (d.itoa n) ≡ false)
  number-good n = (laws.printable n, laws.nonempty n)

  parse-written :
      (v : Text) (glibc : Bool)
      → stable m.version ≡ true
      → os_version v ≡ true
      → (all is_printable m.platform ≡ true) × (is_empty m.platform ≡ false)
      → length (written v glibc) ≤ 4096
      → release_of d (read v glibc) ≡ m
      → valid m ≡ true
      → parse_metadata d (written v glibc) ≡ some m
  parse-written v glibc s o p l e good =
      parse-six d (d.itoa m.format) m.version m.platform v (d.itoa m.store_schema)
        (d.itoa m.inventory_schema) glibc (number-good m.format) (stable-printable m.version s) p
        (os_version-printable v o) (number-good m.store_schema) (number-good m.inventory_schema) l
      ∙ checked-same d (read v glibc) m e refl good

-- What `Text` writes for metadata that is valid, `ParseMetadata` reads back, as long as it has no more than the
-- 4,096 bytes that it takes.
pub parse_metadata-text_of :
    (d : Decimal) (m : Release)
    → DecimalLaws d
    → valid m ≡ true
    → length (text_of d m) ≤ 4096
    → parse_metadata d (text_of d m) ≡ some m
unfolding valid darwin linux text_eq all
parse_metadata-text_of d m laws good l = elim (Bool-cases (darwin m)) [
  | inl mac ↦
      let place : m.platform ≡ bytes "darwin_arm64" =
        (text_eq_iff m.platform (bytes "darwin_arm64")).0 (ground (arith, mac)) in
      let other : text_eq m.platform (bytes "linux_amd64") ≡ false = rw place refl in
      let e = text_of-macos d laws m other in
      rw e (
        parse-written d laws m m.minimum_macos false (ground (arith, good)) (ground (arith, mac))
          (rw place (refl, refl)) (rw e at l)
          (release_of-macos d laws m (empty m.minimum_glibc (ground (arith, mac)))) good)
  | inr other ↦
      let tux : linux m ≡ true = ground (arith, good, other) in
      let same : text_eq m.platform (bytes "linux_amd64") ≡ true = ground (arith, tux) in
      let place : m.platform ≡ bytes "linux_amd64" =
        (text_eq_iff m.platform (bytes "linux_amd64")).0 same in
      let e = text_of-glibc d laws m same in
      rw e (
        parse-written d laws m m.minimum_glibc true (ground (arith, good)) (ground (arith, tux))
          (rw place (refl, refl)) (rw e at l)
          (release_of-glibc d laws m (empty m.minimum_macos (ground (arith, tux)))) good)
]
