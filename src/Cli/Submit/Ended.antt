-- ===== src/Cli/Submit/Ended.antt =====
-- One row of an import, and the loop over the rows.
use data_mate.Base.{
  ◌≡◌, refl, sym, ap, subst, Bool, true, false, not, ◌||◌, Option, none, some, List, [], ◌∷◌,
  if◌then◌else◌, Bool-cases, Option-cases, inl, inr, arith,
}
use data_mate.Config.Profile.{Profiles}
use data_mate.Config.Database.{Revision}
use data_mate.Config.Same.{revision_eq_sound}
use data_mate.Cli.Rows.{Trouble, failure, Answer, refused, value, Item, submitted}
use data_mate.Cli.Submit.{
  Reply, row_failed, Turn, Sent, Status, Progress, mutation_for, write_line, settle, is_last, send,
  submit_row, submit_rows,
}

-- The revision after a reply.
abbrev pub published : Reply → Option Revision → Option Revision
published r before = elim r.error [
  | some f ↦ before
  | none ↦ elim r.outcome [ none ↦ before | some o ↦ o.revision ]
]

-- The service said that it did as asked, or that the row changed nothing.
abbrev pub is_settled : Reply → Bool
is_settled r = elim r.error [
  | some f ↦ row_failed r f
  | none ↦ elim r.outcome [ none ↦ false | some o ↦ true ]
]

abbrev pub AllSettled : List Sent → Type 0
AllSettled [] = Unit {0}
AllSettled (s ∷ older) = (is_settled s.reply ≡ true) × AllSettled older

-- Each request is for the revision that the one before it left, at which the profiles are `shown`; it
-- changes the row's connection alone; and all replies but the newest were settled.
abbrev pub Chained : (Revision → Profiles) → Option Revision → List Sent → Option Revision → Type 0
Chained shown first [] last = last ≡ first
Chained shown first (s ∷ older) last =
    (r : Revision) × Chained shown first older (some r)
    × AllSettled older
    × (s.mutation ≡ mutation_for s.item (shown r) r)
    × (last ≡ published s.reply (some r))

-- Some reply was an error.
abbrev pub has_error : List Sent → Bool
has_error [] = false
has_error (s ∷ older) = elim s.reply.error [ some f ↦ true | none ↦ has_error older ]

abbrev pub items_of : List Sent → List Item
items_of [] = []
items_of (s ∷ older) = s.item ∷ items_of older

-- The submitted items before those that were sent before, the newest first.
abbrev pub enter : List (Turn × Item) → List Item → List Item
enter [] acc = acc
enter ((t, it) ∷ rows) acc = enter rows (if submitted it then it ∷ acc else acc)

-- What holds while the loop goes on.
pub record IsGoing (shown : Revision → Profiles) (first : Option Revision) (w : Progress)
    : Type 0 where
  pub chained : Chained shown first w.sent w.last
  pub settled : AllSettled w.sent
  pub failed : w.failed ≡ has_error w.sent

abbrev pub Ended :
    (Revision → Profiles) → Option Revision → List Item → Option Trouble × Progress → Type 0
Ended shown first items (none, w) = IsGoing shown first w × (items_of w.sent ≡ items)
Ended shown first items (some e, w) = Chained shown first w.sent w.last

-- Profiles that were read are those that their revision shows.
abbrev pub IsShown : (Revision → Profiles) → Answer (Profiles × Revision) → Type 0
IsShown shown (refused e) = Unit {0}
IsShown shown (value (p, r)) = p ≡ shown r

abbrev pub AllShown : (Revision → Profiles) → List (Turn × Item) → Type 0
AllShown shown [] = Unit {0}
AllShown shown ((t, it) ∷ rows) = IsShown shown t.preview × AllShown shown rows

is_last-eq : (l : Option Revision) (r : Revision) → is_last l r ≡ true → l ≡ some r
is_last-eq none r h = cc
is_last-eq (some l) r h = ap some (sym (revision_eq_sound r l h))

module _ (shown : Revision → Profiles) (first : Option Revision) where
  write_line-Ended :
      (t : Turn) (it : Item) (s : Status) (w : Progress) (items : List Item)
      → IsGoing shown first w
      → items_of w.sent ≡ items
      → Ended shown first items (write_line t it s w)
  unfolding write_line
  write_line-Ended t it s w items v e = elim (Bool-cases t.written) [
    | inl good ↦
        rw good ((record { chained = v.chained; settled = v.settled; failed = v.failed }, e))
    | inr bad ↦ rw bad v.chained
  ]

  module _ (t : Turn) (it : Item) (r : Revision) (w : Progress) where
    abbrev asked : Progress
    asked = send t it (shown r) r w

    settle-Ended :
        IsGoing shown first w
        → w.last ≡ some r
        → Ended shown first (it ∷ items_of w.sent) (settle t it asked)
    unfolding settle
    settle-Ended v e = elim (Option-cases t.reply.error) [
      | inl fine ↦ elim (Option-cases t.reply.outcome) [
        | inl lost ↦
            rw (settle, fine, lost)
              (
                r,
                subst (λ l. Chained shown first w.sent l) e v.chained,
                v.settled,
                refl,
                rw (fine, lost) e,
              )
        | inr (o, got) ↦
            rw (settle, fine, got)
              (write_line-Ended t it (Status.completed it.action)
                (record asked { last = o.revision }) (it ∷ items_of w.sent)
                (record {
                  chained = (
                    r,
                    subst (λ l. Chained shown first w.sent l) e v.chained,
                    v.settled,
                    refl,
                    rw (fine, got) refl,
                  );
                  settled = (rw (fine, got) refl, v.settled);
                  failed = rw fine v.failed;
                })
                refl)
      ]
      | inr (f, bad) ↦ elim (Bool-cases (row_failed t.reply f)) [
        | inl clean ↦
            rw (settle, bad, clean)
              (write_line-Ended t it Status.rejected (record asked { failed = true })
                (it ∷ items_of w.sent)
                (record {
                  chained = (
                    r,
                    subst (λ l. Chained shown first w.sent l) e v.chained,
                    v.settled,
                    refl,
                    rw bad e,
                  );
                  settled = (rw bad clean, v.settled);
                  failed = rw bad refl;
                })
                refl)
        | inr unclear ↦
            rw (settle, bad, unclear)
              (r, subst (λ l. Chained shown first w.sent l) e v.chained, v.settled, refl, rw bad e)
      ]
    ]

  read_row : Turn → Item → Progress → Answer (Profiles × Revision) → Option Trouble × Progress
  read_row t it w (refused e) = (some e, w)
  read_row t it w (value (p, r)) =
      if not (is_last w.last r)
      then (some failure, w)
      else if not (w.connected || t.service)
      then (some failure, w)
      else settle t it (send t it p r w)

  read_row-Ended :
      (t : Turn) (it : Item) (w : Progress) (a : Answer (Profiles × Revision))
      → IsShown shown a
      → IsGoing shown first w
      → Ended shown first (it ∷ items_of w.sent) (read_row t it w a)
  unfolding read_row
  read_row-Ended t it w (refused e) s v = v.chained
  read_row-Ended t it w (value (p, r)) s v = elim (Bool-cases (is_last w.last r)) [
    | inr other ↦ rw other v.chained
    | inl same ↦ elim (Bool-cases (w.connected || t.service)) [
      | inr alone ↦ rw (same, alone) v.chained
      | inl there ↦ rw (same, there, s) (settle-Ended t it r w v (is_last-eq w.last r same))
    ]
  ]

  submit_row-read :
      (t : Turn) (it : Item) (w : Progress)
      → submitted it ≡ true
      → t.context ≡ false
      → submit_row t it w ≡ read_row t it w t.preview
  unfolding submit_row read_row
  submit_row-read t it w live going = ground (arith, live, going)

  submit_row-Ended :
      (t : Turn) (it : Item) (w : Progress)
      → IsShown shown t.preview
      → IsGoing shown first w
      → Ended shown first
          (if submitted it then it ∷ items_of w.sent else items_of w.sent)
          (submit_row t it w)
  unfolding submit_row
  submit_row-Ended t it w s v = elim (Bool-cases (submitted it)) [
    | inr idle ↦
        rw (submit_row, idle) (write_line-Ended t it (Status.completed it.action) w _ v refl)
    | inl live ↦ elim (Bool-cases t.context) [
      | inl done ↦ rw (submit_row, live, done) v.chained
      | inr going ↦
          rw (submit_row-read t it w live going, live) (read_row-Ended t it w t.preview s v)
    ]
  ]

  pub submit_rows-Ended :
      (rows : List (Turn × Item)) (w : Progress)
      → AllShown shown rows
      → IsGoing shown first w
      → Ended shown first (enter rows (items_of w.sent)) (submit_rows rows w)
  unfolding submit_rows
  submit_rows-Ended [] w s v = (v, refl)
  submit_rows-Ended ((t, it) ∷ rows) w s v =
      next (λ u g. submit_rows-Ended rows u s.1 g) (submit_row t it w)
        (submit_row-Ended t it w s.0 v)
    where
      next :
          ((u : Progress)
            → IsGoing shown first u
            → Ended shown first (enter rows (items_of u.sent)) (submit_rows rows u))
          → (one : Option Trouble × Progress)
          → Ended shown first (if submitted it then it ∷ items_of w.sent else items_of w.sent) one
          → Ended shown first
              (enter rows (if submitted it then it ∷ items_of w.sent else items_of w.sent))
              (elim one.0 as (λ _. Option Trouble × Progress) [
                | some e ↦ (some e, one.1)
                | none ↦ submit_rows rows one.1
              ])
      next rest (some e, u) g = g
      next rest (none, u) g = rw (sym g.1) (rest u g.0)
