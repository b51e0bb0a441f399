-- ===== src/Cli/Secrets/Added.antt =====
-- What an import sends for a new connection is complete, as internal/vault asks.
use data_mate.Base.{
  ◌≡◌, refl, sym, ◌∙◌, subst, ap, Bool, true, not, ◌&&◌, ◌||◌, Option, List, [], ◌∷◌, Text, All,
  Bool-cases, inl, inr, leb, length, all, arith,
}
use data_mate.Config.Profile.{Profile, Profiles}
use data_mate.Config.Profiles.{Codec, decode_profiles}
use data_mate.Cli.Rows.{
  invalid, value, value-injective, >>=-value, allow-value, Row, Item, submitted, Action, add,
  update, skip, unchanged,
}
use data_mate.Cli.Plan.{added_item, plan_rows, plan_import, is_ok, max_connections}
use data_mate.Cli.Secrets.{Prompts, complete_item, complete_items, complete_secrets, all_supplied}
use data_mate.Vault.Secrets.{complete}
use data_mate.Cli.Secrets.Completed.{IsSupplied, complete_item-IsSupplied}
use data_mate.Cli.Secrets.Planned.{
  is_add, has_known_auth, IsServed, IsPlanned, added_item-IsServed, plan_rows-IsPlanned,
}

abbrev pub items_of : List (Prompts × Item) → List Item
items_of [] = []
items_of ((u, it) ∷ rows) = it ∷ items_of rows

complete_item-IsServed :
    (utf8 : Text → Bool) (interactive : Bool) (u : Prompts) (it after : Item)
    → complete_item utf8 interactive u it ≡ value after
    → IsPlanned it
    → IsServed after
unfolding complete_item
complete_item-IsServed utf8 interactive u it after h planned = elim (Bool-cases (submitted it)) [
  | inr idle_row ↦
      let same : it ≡ after = value-injective (rw (complete_item, idle_row) at h) in
      λ e known. let live : submitted it ≡ true = rw (ap (λ i. i.action) same ∙ e) refl in cc
  | inl live ↦
      let v = complete_item-IsSupplied utf8 interactive u it after live h in
      λ e known.
        let p = planned (ap (λ i. i.action) (sym v.same_row) ∙ e) in
        let same : after.profile ≡ (added_item p.0 p.1).profile =
          ap (λ i. i.profile) (v.same_row) ∙ ap (λ i. i.profile) p.2 in
        rw same (
          added_item-IsServed utf8 p.0 p.1 after (subst (λ i. IsSupplied utf8 i after) p.2 v)
            (subst (λ c. has_known_auth c ≡ true) same known))
]

complete_items-IsServed :
    (utf8 : Text → Bool) (interactive : Bool) (users : List (Prompts × Item)) (items : List Item)
    → complete_items utf8 interactive users ≡ value items
    → All IsPlanned (items_of users)
    → All IsServed items
unfolding complete_items
complete_items-IsServed utf8 interactive [] items h planned =
    subst (λ is. All IsServed is) (value-injective h) tt
complete_items-IsServed utf8 interactive ((u, it) ∷ users) items h planned =
    let a = >>=-value (complete_item utf8 interactive u it) _ h in
    let b = >>=-value (complete_items utf8 interactive users) _ a.2 in
    subst (λ is. All IsServed is) (value-injective b.2)
      ((
        complete_item-IsServed utf8 interactive u it a.0 a.1 planned.0,
        complete_items-IsServed utf8 interactive users b.0 b.1 planned.1,
      ))

-- The patch of an item for a new connection is complete.
abbrev pub is_served : Item → Bool
is_served it = not (is_add it.action) || complete it.secrets it.profile

all-is_served :
    (items : List Item)
    → all (λ it. has_known_auth it.profile) items ≡ true
    → All IsServed items
    → all is_served items ≡ true
unfolding all
all-is_served [] known v = refl
all-is_served (it ∷ items) known v =
    let rest = all-is_served items (ground (arith, known)) v.1 in
    elim (Bool-cases (is_add it.action)) [
      | inr other ↦ ground (arith, other, rest)
      | inl new ↦
          let whole = v.0 (is_add-eq it.action new) (ground (arith, known)) in
          ground (arith, whole, rest)
    ]
  where
    is_add-eq : (a : Action) → is_add a ≡ true → a ≡ add
    is_add-eq add h = refl
    is_add-eq update h = cc
    is_add-eq skip h = cc
    is_add-eq unchanged h = cc

-- Where an import was planned and its secrets were completed, each new connection's patch is complete: it sets all that the
-- vault asks of a connection that has no credentials yet. Every SSH host is logged in to in one of the two ways
-- that the schema has.
pub complete_secrets_complete :
    (codec : Codec) (policy : Text) (saved : List Profile) (rows : List (Option Text × Row))
    (utf8 : Text → Bool) (terminal yes_flag : Bool) (users : List (Prompts × Item))
    (items : List Item)
    → plan_import codec policy saved rows ≡ value (items_of users)
    → complete_secrets utf8 terminal yes_flag users ≡ value items
    → all (λ it. has_known_auth it.profile) items ≡ true
    → all is_served items ≡ true
unfolding plan_import complete_secrets
complete_secrets_complete codec policy saved rows utf8 terminal yes_flag users items h g known =
    let a = >>=-value (plan_rows policy saved rows saved) _ h in
    let doc : Profiles = record { version = 1; connections = a.0.1 } in
    let b = allow-value (leb (length a.0.1) max_connections) invalid _ a.2 in
    let c = allow-value (is_ok (decode_profiles codec (codec.print doc))) invalid _ b.1 in
    let same : a.0.0 ≡ items_of users = value-injective c.1 in
    let d = allow-value (terminal || all_supplied users) invalid _ g in
    all-is_served items known (
      complete_items-IsServed utf8 (terminal && not yes_flag) users items d.1
        (subst (λ is. All IsPlanned is) same (plan_rows-IsPlanned policy saved rows saved a.0 a.1)))
