-- ===== src/Cli/Plan/Projected.antt =====
-- What `planImport` of internal/cli/db_transfer.go checks is what `submitImport` saves.
use data_mate.Base.{
  ◌≡◌, refl, sym, ap, ◌∙◌, true, false, Option, some, List, [], ◌∷◌, ◌++◌, Text, text_eq, contains,
  length, leb, ◌≤◌, leb→le, Bool-cases, inl, inr, arith,
}
use data_mate.Config.Profile.{Profile, Profiles}
use data_mate.Config.Profiles.{Codec, decode_profiles}
use data_mate.Cli.Rows.{Answer, refused, value, ◌>>=◌, ◌>>◌, allow, Row, Item, invalid}
use data_mate.Cli.Plan.{idle, plan_row, plan_rows, plan_import, is_ok, max_connections}
use mathlib.Core.List.{append-nil, append_assoc}
use data_mate.Cli.Plan.Distinct.{ids, distinct, accepted-distinct, distinct-append, ids-append}
use data_mate.Cli.Plan.Single.{
  put_items, put_profile-new, Covers, is_panic, Grown, RowEnds, RowsEnd, plan_row-RowEnds,
}

contains-left : (k : Text) (ks ls : List Text) → contains k ks ≡ true → contains k (ks ++ ls) ≡ true
unfolding contains
contains-left k [] ls h = cc
contains-left k (j ∷ ks) ls h = elim (Bool-cases (text_eq j k)) [
  | inl here ↦ ground (arith, here)
  | inr apart ↦ ground (arith, contains-left k ks ls (ground (arith, apart)))
]

module _ (saved : List Profile) where
  Grown-Covers :
      (it : Item) (before after : List Profile)
      → Grown it before after
      → Covers saved before
      → Covers saved after
  Grown-Covers it before after (inl (idle, same)) covers = rw same covers
  Grown-Covers it before after (inr (inl (live, more))) covers = λ k h.
      rw (more, ids-append before (it.profile ∷ []))
        (contains-left k (ids before) (it.profile.id ∷ []) (covers k h))
  Grown-Covers it before after (inr (inr (live, put, kept))) covers = λ k h. rw kept (covers k h)

  -- The identities after a row, and those that are added later.
  Grown-ids :
      (it : Item) (before after : List Profile)
      → Grown it before after
      → (new : List Text) × (ids after ≡ ids before ++ new)
  Grown-ids it before after (inl (idle, same)) = ([], ap ids same ∙ sym (append-nil (ids before)))
  Grown-ids it before after (inr (inl (live, more))) =
      (it.profile.id ∷ [], ap ids more ∙ ids-append before (it.profile ∷ []))
  Grown-ids it before after (inr (inr (live, put, kept))) =
      ([], kept ∙ sym (append-nil (ids before)))

  put_items-Grown :
      (it : Item) (items : List Item) (before after last : List Profile) (extra : List Text)
      → Grown it before after
      → ids last ≡ ids after ++ extra
      → distinct (ids last) ≡ true
      → put_items items after ≡ last
      → put_items (it ∷ items) before ≡ last
  put_items-Grown it items before after last extra (inl (idle, same)) e d h = rw idle (rw same at h)
  put_items-Grown it items before after last extra (inr (inr (live, put, kept))) e d h =
      rw live (rw put at h)
  put_items-Grown it items before after last extra (inr (inl (live, more))) e d h =
      let shape : ids last ≡ ids before ++ (it.profile.id ∷ extra) =
        e
        ∙ ap (λ ks. ks ++ extra) (ap ids more ∙ ids-append before (it.profile ∷ []))
        ∙ append_assoc (ids before) (it.profile.id ∷ []) extra in
      let new = distinct-append (ids before) it.profile.id extra (rw (sym shape) d) in
      rw (live, put_profile-new it.profile before new) (rw more at h)

  plan_rows-RowsEnd :
      (policy : Text) (rows : List (Option Text × Row)) (before : List Profile)
      → Covers saved before
      → RowsEnd before (plan_rows policy saved rows before)
  unfolding plan_rows
  plan_rows-RowsEnd policy [] before covers = ([], sym (append-nil (ids before)), λ d. refl)
  plan_rows-RowsEnd policy ((draw, row) ∷ rows) before covers =
      first (plan_row policy saved draw row before)
        (plan_row-RowEnds policy saved draw row before covers)
        (λ after c. plan_rows-RowsEnd policy rows after c)
    where
      one_more :
          (it : Item) (after : List Profile) (rest : Answer (List Item × List Profile))
          → Grown it before after
          → RowsEnd after rest
          → RowsEnd before (rest >>= λ r. value (it ∷ r.0, r.1))
      one_more it after (refused e) g h = h
      one_more it after (value (items, last)) g h =
          let n = Grown-ids it before after g in
          (
            n.0 ++ h.0,
            h.1 ∙ ap (λ ks. ks ++ h.0) n.1 ∙ append_assoc (ids before) n.0 h.0,
            λ d. put_items-Grown it items before after last h.0 g h.1 d (h.2 d),
          )

      first :
          (one : Answer (Item × List Profile))
          → RowEnds before one
          → ((after : List Profile)
              → Covers saved after
              → RowsEnd after (plan_rows policy saved rows after))
          → RowsEnd before
              (one >>= λ o. plan_rows policy saved rows o.1 >>= λ r. value (o.0 ∷ r.0, r.1))
      first (refused e) g rest = g
      first (value (it, after)) g rest =
          one_more it after (plan_rows policy saved rows after) g
            (rest after (Grown-Covers it before after g covers))

abbrev pub document_of : List Profile → Profiles
document_of cs = record { version = 1; connections = cs }

-- What `planImport` returns for the saved connections.
abbrev pub PlanEnds : Codec → List Profile → Answer (List Item) → Type 0
PlanEnds codec saved (refused e) = is_panic e ≡ false
PlanEnds codec saved (value items) =
    let projected = put_items items saved in
    (length projected ≤ max_connections)
    × (is_ok (decode_profiles codec (codec.print (document_of projected))) ≡ true)

-- Planning an import never indexes a connection that is not there, and what it checks is what the import
-- is to save: where it returns items, their connections, put one after the other into the saved ones as they are
-- submitted, are at most 128 and a document that is accepted. What encoding/json makes of the printed
-- planned connections, where it reads them, is those connections.
pub plan_import-PlanEnds :
    (codec : Codec) (policy : Text) (saved : List Profile) (rows : List (Option Text × Row))
    → ((items : List Item) (last : List Profile)
        → plan_rows policy saved rows saved ≡ value (items, last)
        → (q : Profiles) → codec.parse (codec.print (document_of last)) ≡ some q
        → q ≡ document_of last)
    → PlanEnds codec saved (plan_import codec policy saved rows)
unfolding plan_import
plan_import-PlanEnds codec policy saved rows back =
    by_end (plan_rows policy saved rows saved) refl
      (plan_rows-RowsEnd saved policy rows saved (λ k h. h))
  where
    checked :
        (items : List Item) (last : List Profile)
        → plan_rows policy saved rows saved ≡ value (items, last)
        → RowsEnd saved (value (items, last))
        → PlanEnds codec saved (
            allow (leb (length last) max_connections) invalid
            >> (allow (is_ok (decode_profiles codec (codec.print (document_of last)))) invalid
                >> value items))
    checked items last e h = elim (Bool-cases (leb (length last) max_connections)) [
      | inr many ↦ rw many refl
      | inl few ↦
          elim (Bool-cases (is_ok (decode_profiles codec (codec.print (document_of last))))) [
            | inr bad ↦ rw (few, bad) refl
            | inl good ↦
                let same =
                  h.2 (accepted-distinct codec (document_of last) (back items last e) good) in
                rw (few, good, same) ((leb→le (length last) max_connections few, good))
          ]
    ]

    by_end :
        (o : Answer (List Item × List Profile))
        → plan_rows policy saved rows saved ≡ o
        → RowsEnd saved o
        → PlanEnds codec saved (
            o >>= λ planned.
            allow (leb (length planned.1) max_connections) invalid
            >> (allow (is_ok (decode_profiles codec (codec.print (document_of planned.1)))) invalid
                >> value planned.0))
    by_end (refused x) e h = h
    by_end (value (items, last)) e h = checked items last e h
