-- ===== src/Cli/Plan/Single.antt =====
-- What one row of `planImport` of internal/cli/db_transfer.go does to the connections.
use data_mate.Base.{
  ◌≡◌, refl, sym, ap, ◌∙◌, Bool, true, false, Option, some, List, [], ◌∷◌, ◌++◌, Text, bytes,
  text_eq, text_eq_iff, text_eq_refl, contains, if◌then◌else◌, Bool-cases, Option-cases, inl, inr,
  arith, ◌⊎◌,
}
use data_mate.Config.Profile.{Profile}
use data_mate.Cli.Rows.{Trouble, Answer, refused, value, Row, Item, submitted, panic}
use data_mate.Cli.Plan.{
  saved_as, replaced, added_item, retained, is_unchanged, updated_item, plan_row,
}
use data_mate.Cli.Submit.{put_profile}
use data_mate.Cli.Plan.Distinct.{ids, distinct}

-- The submitted items, put into the connections one after the other.
abbrev pub put_items : List Item → List Profile → List Profile
put_items [] cs = cs
put_items (it ∷ items) cs = put_items items (if submitted it then put_profile it.profile cs else cs)

-- A new connection is put last.
pub put_profile-new :
    (p : Profile) (cs : List Profile)
    → contains p.id (ids cs) ≡ false
    → put_profile p cs ≡ cs ++ (p ∷ [])
unfolding put_profile contains
put_profile-new p [] h = refl
put_profile-new p (c ∷ cs) h =
    let rest = put_profile-new p cs (ground arith) in
    let apart : text_eq c.id p.id ≡ false = ground arith in rw (apart, rest) refl

-- One that is there is replaced where it stands.
replaced-put :
    (id : Text) (p : Profile) (cs : List Profile)
    → text_eq p.id id ≡ true
    → contains id (ids cs) ≡ true
    → replaced id p cs ≡ value (put_profile p cs)
unfolding replaced put_profile contains
replaced-put id p [] e h = cc
replaced-put id p (c ∷ cs) e h =
    let same : p.id ≡ id = (text_eq_iff p.id id).0 e in
    elim (Bool-cases (text_eq c.id id)) [
      | inl here ↦ rw (same, here) refl
      | inr apart ↦ rw (same, apart, replaced-put id p cs e (ground (arith, apart))) refl
    ]

ids-put :
    (p : Profile) (cs : List Profile)
    → contains p.id (ids cs) ≡ true
    → ids (put_profile p cs) ≡ ids cs
unfolding put_profile contains
ids-put p [] h = cc
ids-put p (c ∷ cs) h = elim (Bool-cases (text_eq c.id p.id)) [
  | inl here ↦ rw (put_profile, here) (ap (λ k. k ∷ ids cs) (sym ((text_eq_iff c.id p.id).0 here)))
  | inr apart ↦
      rw (put_profile, apart) (ap (λ ks. c.id ∷ ks) (ids-put p cs (ground (arith, apart))))
]

-- Every identity of the first list is one of the second.
abbrev pub Covers : List Profile → List Profile → Type 0
Covers saved projected =
    (k : Text) → contains k (ids saved) ≡ true → contains k (ids projected) ≡ true

saved_as-there :
    (a : Text) (cs : List Profile) (d : Profile)
    → saved_as a cs ≡ some d
    → contains d.id (ids cs) ≡ true
unfolding saved_as contains
saved_as-there a [] d h = cc
saved_as-there a (c ∷ cs) d h = elim (Option-cases (saved_as a cs)) [
  | inr (e, later) ↦
      let same : e ≡ d = ground (arith, later) in
      let there = saved_as-there a cs d (later ∙ ap some same) in ground (arith, there)
  | inl none_later ↦
      let same : c ≡ d = ground (arith, none_later) in
      rw (sym same) (ground (arith, text_eq_refl c.id))
]

abbrev pub is_panic : Trouble → Bool
is_panic panic = true
is_panic _ = false

-- What a row does to the connections.
abbrev pub Grown : Item → List Profile → List Profile → Type 0
Grown it before after =
    ((submitted it ≡ false) × (after ≡ before))
    ⊎ ((submitted it ≡ true) × (after ≡ before ++ (it.profile ∷ [])))
    ⊎ ((submitted it ≡ true) × (after ≡ put_profile it.profile before) × (ids after ≡ ids before))

abbrev pub RowEnds : List Profile → Answer (Item × List Profile) → Type 0
RowEnds before (refused e) = is_panic e ≡ false
RowEnds before (value (it, after)) = Grown it before after

abbrev pub RowsEnd : List Profile → Answer (List Item × List Profile) → Type 0
RowsEnd before (refused e) = is_panic e ≡ false
RowsEnd before (value (items, after)) =
    (extra : List Text) × (ids after ≡ ids before ++ extra)
    × (distinct (ids after) ≡ true → put_items items before ≡ after)

pub plan_row-RowEnds :
    (policy : Text) (saved : List Profile) (draw : Option Text) (row : Row) (before : List Profile)
    → Covers saved before
    → RowEnds before (plan_row policy saved draw row before)
unfolding plan_row added_item updated_item
plan_row-RowEnds policy saved draw row before covers =
    elim (Option-cases (saved_as row.profile.alias saved)) [
      | inl new ↦ elim (Option-cases draw) [
        | inl nothing ↦ rw (plan_row, new, nothing) refl
        | inr (id, drawn) ↦ rw (plan_row, new, drawn) (inr (inl (refl, refl)))
      ]
      | inr (original, known) ↦ elim (Bool-cases (text_eq policy (bytes "skip"))) [
        | inl skips ↦ rw (plan_row, known, skips) (inl (refl, refl))
        | inr other ↦ elim (Bool-cases (text_eq policy (bytes "update"))) [
          | inr stops ↦ rw (plan_row, known, other, stops) refl
          | inl updates ↦ elim (Bool-cases (is_unchanged row original)) [
            | inl same ↦ rw (plan_row, known, other, updates, same) (inl (refl, refl))
            | inr differs ↦
                let there =
                  covers original.id (saved_as-there row.profile.alias saved original known) in
                let put =
                  replaced-put original.id (retained row original) before (text_eq_refl original.id)
                    there in
                rw (plan_row, known, other, updates, differs, put)
                  (inr (inr (refl, refl, ids-put (retained row original) before there)))
          ]
        ]
      ]
    ]
