-- ===== src/Cli/Submit/Enrolled.antt =====
-- The pins of `enrollImportHosts` of internal/cli/db_transfer.go.
use data_mate.Base.{
  ◌≡◌, refl, sym, ◌∙◌, subst, ℕ, Bool, true, false, not, ◌&&◌, none, some, List, [], ◌∷◌, Text,
  text_eq, text_eq_iff, text_eq_refl, contains, All, Bool-cases, Option-cases, inl, inr, arith,
  Option,
}
use data_mate.Cli.Rows.{Answer, refused, value, HostPin, Item}
use data_mate.Cli.Submit.{endpoint, pin_at, enrolled, enroll_rows}

abbrev pub endpoints : List (Text × HostPin) → List Text
endpoints [] = []
endpoints ((a, p) ∷ pins) = a ∷ endpoints pins

-- No endpoint is shown twice.
abbrev pub once : List Text → Bool
once [] = true
once (a ∷ more) = not (contains a more) && once more

-- The first pins are among the second, and are found there.
abbrev Grows : List (Text × HostPin) → List (Text × HostPin) → Type 0
Grows pins last = (a : Text) (p : HostPin) → pin_at a pins ≡ some p → pin_at a last ≡ some p

-- A submitted row with an SSH host has the pin of its endpoint.
abbrev pub PinFor : List (Text × HostPin) → Option HostPin → Option Text → Type 0
PinFor last pin none = Unit {0}
PinFor last pin (some a) = (p : HostPin) × (pin ≡ some p) × (pin_at a last ≡ some p)

abbrev pub HasPin : (Text → ℕ → Text) → List (Text × HostPin) → Item → Type 0
HasPin join last it = PinFor last it.pin (endpoint join it)

record IsEnrolled (join : Text → ℕ → Text) (pins : List (Text × HostPin))
    (o : List Item × List (Text × HostPin)) : Type 0 where
  grows : Grows pins o.1
  pinned : All (HasPin join o.1) o.0
  unique : once (endpoints o.1) ≡ true

abbrev Enrolment :
    (Text → ℕ → Text) → List (Text × HostPin) → Answer (List Item × List (Text × HostPin)) → Type 0
Enrolment join pins (refused e) = Unit {0}
Enrolment join pins (value o) = IsEnrolled join pins o

pin_at-missing :
    (a : Text) (pins : List (Text × HostPin))
    → pin_at a pins ≡ none
    → contains a (endpoints pins) ≡ false
unfolding contains
pin_at-missing a [] h = refl
pin_at-missing a ((b, p) ∷ pins) h = elim (Bool-cases (text_eq b a)) [
  | inl here ↦ let wrong : some p ≡ none = rw here at h in cc
  | inr apart ↦ ground (arith, apart, pin_at-missing a pins (rw apart at h))
]

Grows-push :
    (a : Text) (q : HostPin) (pins : List (Text × HostPin))
    → pin_at a pins ≡ none
    → Grows pins ((a, q) ∷ pins)
Grows-push a q pins new = λ b p h. elim (Bool-cases (text_eq a b)) [
  | inl same ↦
      let e : a ≡ b = (text_eq_iff a b).0 same in
      let wrong : none ≡ some p = sym (subst (λ k. pin_at k pins ≡ none) e new) ∙ h in cc
  | inr apart ↦ rw apart h
]

module _ (join : Text → ℕ → Text) where
  enrolled-Enrolment :
      (it : Item) (pins more : List (Text × HostPin))
      (r : Answer (List Item × List (Text × HostPin)))
      → Grows pins more
      → ((last : List (Text × HostPin)) → Grows more last → HasPin join last it)
      → Enrolment join more r
      → Enrolment join pins (enrolled it r)
  enrolled-Enrolment it pins more (refused e) g h v = tt
  enrolled-Enrolment it pins more (value (items, last)) g h v = record {
    grows = λ a p e. v.grows a p (g a p e);
    pinned = (h last v.grows, v.pinned);
    unique = v.unique;
  }

  has_pin :
      (it : Item) (a : Text) (p : HostPin) (more : List (Text × HostPin))
      → endpoint join it ≡ some a
      → pin_at a more ≡ some p
      → (last : List (Text × HostPin)) → Grows more last
      → HasPin join last (record it { pin = some p })
  has_pin it a p more at_a found last grows = rw at_a ((p, refl, grows a p found))

  enroll_rows-Enrolment :
      (rows : List (Answer HostPin × Item)) (pins : List (Text × HostPin))
      → once (endpoints pins) ≡ true
      → Enrolment join pins (enroll_rows join rows pins)
  unfolding enroll_rows
  enroll_rows-Enrolment [] pins u = record { grows = λ a p h. h; pinned = tt; unique = u }
  enroll_rows-Enrolment ((probe, it) ∷ rows) pins u = elim (Option-cases (endpoint join it)) [
    | inl free ↦
        rw (enroll_rows, free)
          (enrolled-Enrolment it pins pins _ (λ a p h. h) (λ last g. rw free tt)
            (enroll_rows-Enrolment rows pins u))
    | inr (a, at_a) ↦ elim (Option-cases (pin_at a pins)) [
      | inr (p, found) ↦
          rw (enroll_rows, at_a, found)
            (enrolled-Enrolment (record it { pin = some p }) pins pins _ (λ b q h. h)
              (has_pin it a p pins at_a found) (enroll_rows-Enrolment rows pins u))
      | inl new ↦
          rw (enroll_rows, at_a, new)
            (probed it a pins at_a new
              (λ q.
                enroll_rows-Enrolment rows ((a, q) ∷ pins)
                  (ground (arith, pin_at-missing a pins new, u)))
              probe)
    ]
  ]
    where
      probed :
          (it : Item) (a : Text) (pins : List (Text × HostPin))
          → endpoint join it ≡ some a
          → pin_at a pins ≡ none
          → ((q : HostPin) → Enrolment join ((a, q) ∷ pins) (enroll_rows join rows ((a, q) ∷ pins)))
          → (r : Answer HostPin)
          → Enrolment join pins (elim r as (λ _. Answer (List Item × List (Text × HostPin))) [
            | refused e ↦ refused e
            | value p ↦
                enrolled (record it { pin = some p }) (enroll_rows join rows ((a, p) ∷ pins))
          ])
      probed it a pins at_a new rest (refused e) = tt
      probed it a pins at_a new rest (value q) =
          enrolled-Enrolment (record it { pin = some q }) pins ((a, q) ∷ pins) _
            (Grows-push a q pins new)
            (has_pin it a q ((a, q) ∷ pins) at_a (rw (text_eq_refl a) refl)) (rest q)

  -- Where every SSH endpoint of an import was enrolled: no endpoint was shown to the user twice, and every row that
  -- is added or updated and has an SSH host is sent with the pin of its endpoint.
  pub enroll_rows-pinned :
      (rows : List (Answer HostPin × Item)) (items : List Item) (pins : List (Text × HostPin))
      → enroll_rows join rows [] ≡ value (items, pins)
      → (once (endpoints pins) ≡ true) × All (HasPin join pins) items
  enroll_rows-pinned rows items pins h =
      let v : IsEnrolled join [] (items, pins) =
        subst (Enrolment join []) h (enroll_rows-Enrolment rows [] refl) in
      (v.unique, v.pinned)
