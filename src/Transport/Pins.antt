-- ===== src/Transport/Pins.antt =====
-- What `WithHostKey` and `SaveHostKey` of internal/transport/hosts.go do to the pins that are there.
use data_mate.Base.{
  ℕ, zero, suc, ◌+◌, ◌≤◌, ◌<◌, ◌≡◌, refl, sym, ◌∙◌, true, false, none, some, [], ◌∷◌, ◌++◌, Text,
  length, ltb, Bool-cases, Option-cases, inl, inr, arith,
}
use data_mate.Transport.Hosts.{
  Entry, Ssh, known_hosts, Answer, spent, refused, value, Hosts, entry_name, take_entry, scan,
  parse_hosts, close, max_known_hosts_bytes,
}

-- What is documented of the parser of lines: a text of white space has no entry and puts none before
-- another text, an entry is read from its own line, and the rest is shorter.
pub record SshLaws (s : Ssh) : Type 0 where
  pub blank_none : (x : Text) → s.blank x ≡ true → s.parse x ≡ none
  pub blank_empty : s.blank [] ≡ true
  pub skips : (x t : Text) → s.blank x ≡ true → s.parse (close s x ++ t) ≡ s.parse t
  pub extends :
      (x t : Text) (e : Entry)
      → s.parse x ≡ some e
      → s.parse (close s x ++ t) ≡ some (record e { rest = close s e.rest ++ t })
  pub shrinks : (x : Text) (e : Entry) → s.parse x ≡ some e → length e.rest < length x

pub value-injective : {Value : Type 0} {a b : Value} → value a ≡ value b → a ≡ b
value-injective h = cc

entry_name-rest :
    (e : Entry) (hs : Hosts) (r : Text) → entry_name (record e { rest = r }) hs ≡ entry_name e hs
unfolding entry_name
entry_name-rest e hs r = refl

module _ (s : Ssh) (laws : SshLaws s) where
  -- A text that has an entry is not blank.
  not_blank : (x : Text) (e : Entry) → s.parse x ≡ some e → s.blank x ≡ false
  not_blank x e h = elim (Bool-cases (s.blank x)) [
    | inl b ↦ let nothing = laws.blank_none x b in cc
    | inr n ↦ n
  ]

  pub take-bad :
      (f : Text → Hosts → Answer Hosts) (e : Entry) (hs : Hosts)
      → entry_name e hs ≡ none
      → take_entry s f (some e) hs ≡ refused known_hosts
  take-bad f e hs h = rw (take_entry, h) refl

  pub take-good :
      (f : Text → Hosts → Answer Hosts) (e : Entry) (hs : Hosts) (name : Text)
      → entry_name e hs ≡ some name
      → take_entry s f (some e) hs ≡ f e.rest ((name, e.key) ∷ hs)
  take-good f e hs name h = rw (take_entry, h) refl

  pub scan-blank :
      (fuel : ℕ) (x : Text) (hs : Hosts) → s.blank x ≡ true → scan s (suc fuel) x hs ≡ value hs
  unfolding scan
  scan-blank fuel x hs b = rw (scan, b) refl

  scan-broken :
      (fuel : ℕ) (x : Text) (hs : Hosts)
      → s.blank x ≡ false
      → s.parse x ≡ none
      → scan s (suc fuel) x hs ≡ refused known_hosts
  unfolding scan
  scan-broken fuel x hs b h = rw (scan, b, h) refl

  scan-step :
      (fuel : ℕ) (x : Text) (hs : Hosts) (e : Entry)
      → s.parse x ≡ some e
      → scan s (suc fuel) x hs ≡ take_entry s (scan s fuel) (some e) hs
  unfolding scan
  scan-step fuel x hs e h = rw (scan, not_blank x e h, h) refl

  -- The loop ends: a round takes one line at least.
  scan-ends : (fuel : ℕ) (x : Text) (hs : Hosts) → length x < fuel → ¬ (scan s fuel x hs ≡ spent)
  scan-ends zero x hs l = absurd (omega arith)
  scan-ends (suc fuel) x hs l = elim (Bool-cases (s.blank x)) [
    | inl b ↦ rw (scan-blank fuel x hs b) (λ d. cc)
    | inr n ↦ elim (Option-cases (s.parse x)) [
      | inl nothing ↦ rw (scan-broken fuel x hs n nothing) (λ d. cc)
      | inr (e, entry) ↦ elim (Option-cases (entry_name e hs)) [
        | inl bad ↦ rw (scan-step fuel x hs e entry, take-bad (scan s fuel) e hs bad) (λ d. cc)
        | inr (name, good) ↦
            let short = laws.shrinks x e entry in
            rw (scan-step fuel x hs e entry, take-good (scan s fuel) e hs name good)
              (scan-ends fuel e.rest ((name, e.key) ∷ hs) (omega (arith, short, l)))
      ]
    ]
  ]

  -- A text with another line is read like the text, and then the line.
  scan-extends :
      (fuel m : ℕ) (x t : Text) (hs end : Hosts) (last : Entry)
      → scan s fuel x hs ≡ value end
      → s.parse t ≡ some last
      → fuel ≤ m
      → (left : ℕ) × (scan s (suc m) (close s x ++ t) hs
          ≡ take_entry s (scan s (suc left)) (some last) end)
  unfolding scan
  scan-extends zero m x t hs end last h p l = cc
  scan-extends (suc fuel) zero x t hs end last h p l = absurd (omega arith)
  scan-extends (suc fuel) (suc m) x t hs end last h p l = elim (Bool-cases (s.blank x)) [
    | inl b ↦
        let same : hs ≡ end = value-injective (sym (scan-blank fuel x hs b) ∙ h) in
        (m, rw (← same) (scan-step (suc m) (close s x ++ t) hs last (laws.skips x t b ∙ p)))
    | inr n ↦ elim (Option-cases (s.parse x)) [
      | inl nothing ↦ let bad = sym (scan-broken fuel x hs n nothing) ∙ h in cc
      | inr (e, entry) ↦
          let longer = record e { rest = close s e.rest ++ t } in
          let here = sym (scan-step fuel x hs e entry) ∙ h in
          elim (Option-cases (entry_name e hs)) [
            | inl bad ↦ let wrong = sym (take-bad (scan s fuel) e hs bad) ∙ here in cc
            | inr (name, good) ↦
                let further = sym (take-good (scan s fuel) e hs name good) ∙ here in
                let o =
                  scan-extends fuel m e.rest t ((name, e.key) ∷ hs) end last further p
                    (omega (arith, l)) in
                (
                  o.0,
                  scan-step (suc m) (close s x ++ t) hs longer (laws.extends x t e entry)
                      ∙ take-good (scan s (suc m)) longer hs name
                          (entry_name-rest e hs (close s e.rest ++ t) ∙ good)
                      ∙ o.1,
                )
          ]
    ]
  ]

  pub length-close : (x t : Text) → length x + length t ≤ length (close s x ++ t)
  unfolding close
  length-close [] t = omega arith
  length-close (c ∷ []) t = ground arith
  length-close (c ∷ d ∷ x) t = omega (arith, length-close (d ∷ x) t)

  parse_hosts-scan :
      (x : Text) → length x ≤ max_known_hosts_bytes → parse_hosts s x ≡ scan s (suc (length x)) x []
  unfolding parse_hosts
  parse_hosts-scan x l = ground arith

  parse_hosts-bound :
      (x : Text) (hs : Hosts) → parse_hosts s x ≡ value hs → length x ≤ max_known_hosts_bytes
  unfolding parse_hosts
  parse_hosts-bound x hs h = ground arith

  -- The verdict on any text: never that the fuel is spent.
  pub parse_hosts-ends : (x : Text) → ¬ (parse_hosts s x ≡ spent)
  unfolding parse_hosts
  parse_hosts-ends x = elim (Bool-cases (ltb max_known_hosts_bytes (length x))) [
    | inl long ↦ rw long (λ e. cc)
    | inr short ↦ rw short (scan-ends (suc (length x)) x [] (omega arith))
  ]

  -- A text and one more line that ends it.
  pub parse_hosts-extends :
      (x t : Text) (hs : Hosts) (last : Entry)
      → parse_hosts s x ≡ value hs
      → s.parse t ≡ some last
      → 0 < length t
      → length (close s x ++ t) ≤ max_known_hosts_bytes
      → (left : ℕ) × (parse_hosts s (close s x ++ t)
          ≡ take_entry s (scan s (suc left)) (some last) hs)
  parse_hosts-extends x t hs last h p l b =
      let before = sym (parse_hosts-scan x (parse_hosts-bound x hs h)) ∙ h in
      let o =
        scan-extends (suc (length x)) (length (close s x ++ t)) x t [] hs last before p
          (omega (arith, l, length-close x t)) in
      (o.0, parse_hosts-scan (close s x ++ t) b ∙ o.1)
