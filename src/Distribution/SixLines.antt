-- ===== src/Distribution/SixLines.antt =====
-- How `ParseMetadata` of internal/distribution/release.go reads a text of six lines.
use data_mate.Base.{
  ◌≤◌, ◌≡◌, refl, ◌∙◌, Bool, true, false, some, List, [], ◌∷◌, Text, bytes, text_eq, all, length,
  le→leb, is_empty,
}
use data_mate.Distribution.Metadata.{
  Decimal, lines, Fields, field, take_fields, is_printable, checked, parse_metadata, line,
}
use data_mate.Distribution.Lines.{
  allowed, entry, is_key, take-none, take-line, cut-entry, lines-entry, all-entry,
}

-- A text of the six lines; the Boolean says which minimum it has.
module _ (d : Decimal) (a b p v s i : Text) where
  abbrev pub key : Bool → Text
  key true = bytes "minimum_glibc"
  key false = bytes "minimum_macos"

  abbrev pub six : Bool → Text
  six glibc = line d (bytes "format") a (
      line d (bytes "version") b (
        line d (bytes "platform") p (
          line d (key glibc) v
            (line d (bytes "store_schema") s (line d (bytes "inventory_schema") i [])))))

  abbrev pub entries : Bool → List Text
  entries glibc =
      entry (bytes "format") a
      ∷ entry (bytes "version") b
      ∷ entry (bytes "platform") p
      ∷ entry (key glibc) v
      ∷ entry (bytes "store_schema") s
      ∷ entry (bytes "inventory_schema") i
      ∷ []

  abbrev pub found : Bool → Fields
  found glibc =
      (bytes "inventory_schema", i)
      ∷ (bytes "store_schema", s)
      ∷ (key glibc, v)
      ∷ (bytes "platform", p)
      ∷ (bytes "version", b)
      ∷ (bytes "format", a)
      ∷ []

  abbrev pub Good : Text → Type 0
  Good t = (all is_printable t ≡ true) × (is_empty t ≡ false)

  key-good : (glibc : Bool) → all is_key (key glibc) ≡ true
  unfolding all
  key-good true = refl
  key-good false = refl

  lines-six :
      (glibc : Bool)
      → Good a
      → Good b
      → Good p
      → Good v
      → Good s
      → Good i
      → lines (six glibc) ≡ some (entries glibc)
  unfolding all lines
  lines-six glibc ga gb gp gv gs gi = lines-entry d (bytes "format") a _ _ refl ga.0 (
      lines-entry d (bytes "version") b _ _ refl gb.0 (
        lines-entry d (bytes "platform") p _ _ refl gp.0 (
          lines-entry d (key glibc) v _ _ (key-good glibc) gv.0 (
            lines-entry d (bytes "store_schema") s _ _ refl gs.0
              (lines-entry d (bytes "inventory_schema") i [] [] refl gi.0 refl)))))

  all-six :
      (glibc : Bool)
      → Good a
      → Good b
      → Good p
      → Good v
      → Good s
      → Good i
      → all allowed (six glibc) ≡ true
  unfolding all
  all-six glibc ga gb gp gv gs gi = all-entry d (bytes "format") a _ refl ga.0 (
      all-entry d (bytes "version") b _ refl gb.0 (
        all-entry d (bytes "platform") p _ refl gp.0 (
          all-entry d (key glibc) v _ (key-good glibc) gv.0 (
            all-entry d (bytes "store_schema") s _ refl gs.0
              (all-entry d (bytes "inventory_schema") i [] refl gi.0 refl)))))

  key-fresh :
      (glibc : Bool)
      → is_empty (
          field
            (key glibc)
            ((bytes "platform", p) ∷ (bytes "version", b) ∷ (bytes "format", a) ∷ []))
        ≡ true
  unfolding field text_eq
  key-fresh true = refl
  key-fresh false = refl

  store-fresh :
      (glibc : Bool)
      → is_empty (
          field (bytes "store_schema") (
            (key glibc, v)
            ∷ (bytes "platform", p)
            ∷ (bytes "version", b)
            ∷ (bytes "format", a)
            ∷ []))
        ≡ true
  unfolding field text_eq
  store-fresh true = refl
  store-fresh false = refl

  inventory-fresh :
      (glibc : Bool)
      → is_empty (
          field (bytes "inventory_schema") (
            (bytes "store_schema", s)
            ∷ (key glibc, v)
            ∷ (bytes "platform", p)
            ∷ (bytes "version", b)
            ∷ (bytes "format", a)
            ∷ []))
        ≡ true
  unfolding field text_eq
  inventory-fresh true = refl
  inventory-fresh false = refl

  fields-six :
      (glibc : Bool)
      → Good a
      → Good b
      → Good p
      → Good v
      → Good s
      → Good i
      → take_fields (entries glibc) [] ≡ some (found glibc)
  unfolding all field text_eq
  fields-six glibc ga gb gp gv gs gi =
      let f1 : Fields = (bytes "format", a) ∷ [] in
      let f2 : Fields = (bytes "version", b) ∷ f1 in
      let f3 : Fields = (bytes "platform", p) ∷ f2 in
      let f4 : Fields = (key glibc, v) ∷ f3 in
      let f5 : Fields = (bytes "store_schema", s) ∷ f4 in
      let l5 : List Text = entry (bytes "inventory_schema") i ∷ [] in
      let l4 : List Text = entry (bytes "store_schema") s ∷ l5 in
      let l3 : List Text = entry (key glibc) v ∷ l4 in
      let l2 : List Text = entry (bytes "platform") p ∷ l3 in
      let l1 : List Text = entry (bytes "version") b ∷ l2 in
      take-line (entry (bytes "format") a) (bytes "format") a l1 []
        (cut-entry (bytes "format") a refl) ga.1 refl
      ∙ take-line (entry (bytes "version") b) (bytes "version") b l2 f1
          (cut-entry (bytes "version") b refl) gb.1 refl
      ∙ take-line (entry (bytes "platform") p) (bytes "platform") p l3 f2
          (cut-entry (bytes "platform") p refl) gp.1 refl
      ∙ take-line (entry (key glibc) v) (key glibc) v l4 f3
          (cut-entry (key glibc) v (key-good glibc)) gv.1 (key-fresh glibc)
      ∙ take-line (entry (bytes "store_schema") s) (bytes "store_schema") s l5 f4
          (cut-entry (bytes "store_schema") s refl) gs.1 (store-fresh glibc)
      ∙ take-line (entry (bytes "inventory_schema") i) (bytes "inventory_schema") i [] f5
          (cut-entry (bytes "inventory_schema") i refl) gi.1 (inventory-fresh glibc)
      ∙ take-none (found glibc)

  pub parse-six :
      (glibc : Bool)
      → Good a
      → Good b
      → Good p
      → Good v
      → Good s
      → Good i
      → length (six glibc) ≤ 4096
      → parse_metadata d (six glibc) ≡ checked d (found glibc)
  unfolding parse_metadata
  parse-six glibc ga gb gp gv gs gi l =
      rw
        (
          parse_metadata,
          le→leb (length (six glibc)) 4096 l,
          all-six glibc ga gb gp gv gs gi,
          lines-six glibc ga gb gp gv gs gi,
          fields-six glibc ga gb gp gv gs gi,
        )
        refl
