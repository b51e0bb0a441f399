-- ===== src/Cli/Secrets/Planned.antt =====
-- What is required of a new connection, and which items are for new connections.
use data_mate.Base.{
  ◌≡◌, refl, sym, ◌∙◌, subst, Bool, true, false, not, ◌&&◌, ◌||◌, Option, none, some, List, [], ◌∷◌,
  ◌++◌, Text, bytes, text_eq, text_eq_iff, all, All, keep, Bool-cases, Option-cases, inl, inr,
  arith,
}
use data_mate.Config.Profile.{Profile, Ssh, Proxy}
use data_mate.Config.Profiles.{is_set}
use data_mate.Vault.Secrets.{
  Patch, Field, name, has, complete, ssh_complete, ssh_key, proxy_complete,
}
use data_mate.Cli.Rows.{
  Answer, refused, value, value-injective, ◌>>=◌, >>=-value, Row, Item, Action, add, update, skip,
  unchanged, no_profile,
}
use data_mate.Cli.Plan.{
  transition, required_secrets, added_item, uses_auth, uses_login, when, saved_as, plan_row,
  plan_rows, is_unchanged, retained, replaced, idle,
}
use data_mate.Cli.Secrets.Completed.{IsSupplied}

-- The schema has no other way to log in to an SSH host.
abbrev pub has_known_auth : Profile → Bool
has_known_auth p = elim p.transport.ssh [
  | none ↦ true
  | some s ↦ text_eq s.auth (bytes "password") || text_eq s.auth (bytes "key")
]

all-append :
    (q : Text → Bool) (ks ls : List Text)
    → all q (ks ++ ls) ≡ true
    → (all q ks ≡ true) × (all q ls ≡ true)
unfolding all
all-append q [] ls h = (refl, h)
all-append q (k ∷ ks) ls h =
    let rest = all-append q ks ls (ground arith) in (ground (arith, rest.0), rest.1)

all-keep :
    (q : Text → Bool) (x : Text) (ks : List Text)
    → q x ≡ true
    → all q (keep (λ k. not (text_eq k x)) ks) ≡ true
    → all q ks ≡ true
unfolding all keep
all-keep q x [] g h = refl
all-keep q x (k ∷ ks) g h = elim (Bool-cases (text_eq k x)) [
  | inl same ↦
      let e : k ≡ x = (text_eq_iff k x).0 same in
      let here : q k ≡ true = rw e g in
      ground (arith, here, all-keep q x ks g (rw (all, keep, same) at h))
  | inr other ↦
      let both : (q k && all q (keep (λ i. not (text_eq i x)) ks)) ≡ true =
        rw (all, keep, other) at h in
      ground (arith, both, all-keep q x ks g (ground (arith, both)))
]

when-all :
    (q : Text → Bool) (b : Bool) (k : Text) → all q (when b (k ∷ [])) ≡ true → b ≡ true → q k ≡ true
unfolding all
when-all q true k h e = ground arith
when-all q false k h e = cc

ssh_part :
    (patch : Patch) (o : Option Ssh)
    → (elim o as (λ _. Bool) [
      | none ↦ true
      | some s ↦ text_eq s.auth (bytes "password") || text_eq s.auth (bytes "key")
    ])
      ≡ true
    → (uses_auth (bytes "password") o ≡ true → has (name Field.ssh_password) patch ≡ true)
    → (uses_auth (bytes "key") o ≡ true → has (name Field.ssh_private_key) patch ≡ true)
    → ssh_complete patch o ≡ true
unfolding ssh_complete ssh_key
ssh_part patch none known pw key = refl
ssh_part patch (some s) known pw key = elim (Bool-cases (text_eq s.auth (bytes "key"))) [
  | inl keyed ↦ rw (ssh_complete, ssh_key, keyed) (key keyed)
  | inr plain ↦ rw (ssh_complete, ssh_key, plain) (pw (ground (arith, known, plain)))
]

proxy_part :
    (patch : Patch) (o : Option Proxy)
    → (uses_login o ≡ true → has (name Field.proxy_password) patch ≡ true)
    → proxy_complete patch o ≡ true
unfolding proxy_complete
proxy_part patch none h = refl
proxy_part patch (some x) h = elim (Bool-cases (is_set x.username)) [
  | inl named ↦ ground (arith, named, h named)
  | inr anonymous ↦ ground (arith, anonymous)
]

-- What is required of a new connection is what makes a patch complete.
required_secrets-complete :
    (p : Profile) (patch : Patch)
    → has_known_auth p ≡ true
    → all (λ k. has k patch) (required_secrets p.transport no_profile.transport true) ≡ true
    → complete patch p ≡ true
unfolding required_secrets complete
required_secrets-complete p patch known h =
    let pw : Bool =
      uses_auth (bytes "password") p.transport.ssh && not (uses_auth (bytes "password") none) in
    let key : Bool =
      uses_auth (bytes "key") p.transport.ssh && not (uses_auth (bytes "key") none) in
    let login : Bool = uses_login p.transport.proxy && not (uses_login none) in
    let q : Text → Bool = λ k. has k patch in
    let one : List Text = name Field.password ∷ [] in
    let two : List Text = one ++ when pw (name Field.ssh_password ∷ []) in
    let three : List Text = two ++ when key (name Field.ssh_private_key ∷ []) in
    let c = all-append q three (when login (name Field.proxy_password ∷ [])) h in
    let b = all-append q two (when key (name Field.ssh_private_key ∷ [])) c.0 in
    let a = all-append q one (when pw (name Field.ssh_password ∷ [])) b.0 in
    let base = when-all q true (name Field.password) a.0 refl in
    let ssh =
      ssh_part patch p.transport.ssh known
        (λ e. when-all q pw (name Field.ssh_password) a.1 (ground (arith, e)))
        (λ e. when-all q key (name Field.ssh_private_key) b.1 (ground (arith, e))) in
    let proxy =
      proxy_part patch p.transport.proxy
        (λ e. when-all q login (name Field.proxy_password) c.1 (ground (arith, e))) in
    ground (arith, base, ssh, proxy)

abbrev pub IsServed : Item → Type 0
IsServed it =
    it.action ≡ add → has_known_auth it.profile ≡ true → complete it.secrets it.profile ≡ true

-- An added item is made of a row and an identity.
abbrev pub IsPlanned : Item → Type 0
IsPlanned it = it.action ≡ add → (row : Row) × (id : Text) × (it ≡ added_item row id)

pub added_item-IsServed :
    (utf8 : Text → Bool) (row : Row) (id : Text) (after : Item)
    → IsSupplied utf8 (added_item row id) after
    → has_known_auth (added_item row id).profile ≡ true
    → complete after.secrets (added_item row id).profile ≡ true
unfolding added_item transition
added_item-IsServed utf8 row id after v known =
    let p : Profile = record row.profile { id = id } in
    let q : Text → Bool = λ k. has k after.secrets in
    let whole : all q (required_secrets p.transport no_profile.transport true) ≡ true =
      elim (Bool-cases (is_set row.key_file)) [
        | inl listed ↦
            all-keep q (name Field.ssh_private_key) _ (v.key listed) (rw listed at v.required)
        | inr plain ↦ rw plain at v.required
      ] in
    required_secrets-complete p after.secrets known whole

abbrev pub is_add : Action → Bool
is_add add = true
is_add _ = false

abbrev RowPlanned : Answer (Item × List Profile) → Type 0
RowPlanned (refused e) = Unit {0}
RowPlanned (value o) = IsPlanned o.0

not-added : (it : Item) (a : Action) → is_add a ≡ false → it.action ≡ a → IsPlanned it
not-added it a other e =
    λ g. let wrong : is_add add ≡ false = subst (λ b. is_add b ≡ false) (sym e ∙ g) other in cc

replaced-RowPlanned :
    (it : Item) (cs : Answer (List Profile))
    → IsPlanned it
    → RowPlanned (cs >>= λ ds. value (it, ds))
replaced-RowPlanned it (refused e) h = tt
replaced-RowPlanned it (value ds) h = h

added_item-IsPlanned : (row : Row) (id : Text) → IsPlanned (added_item row id)
added_item-IsPlanned row id = λ e. (row, id, refl)

plan_row-RowPlanned :
    (policy : Text) (saved : List Profile) (draw : Option Text) (row : Row) (before : List Profile)
    → RowPlanned (plan_row policy saved draw row before)
unfolding plan_row
plan_row-RowPlanned policy saved draw row before =
    elim (Option-cases (saved_as row.profile.alias saved)) [
      | inl new ↦ elim (Option-cases draw) [
        | inl nothing ↦ rw (plan_row, new, nothing) tt
        | inr (id, drawn) ↦ rw (plan_row, new, drawn) (added_item-IsPlanned row id)
      ]
      | inr (original, known) ↦ elim (Bool-cases (text_eq policy (bytes "skip"))) [
        | inl skips ↦ rw (plan_row, known, skips) (not-added (idle row) skip refl refl)
        | inr other ↦ elim (Bool-cases (text_eq policy (bytes "update"))) [
          | inr stops ↦ rw (plan_row, known, other, stops) tt
          | inl updates ↦ elim (Bool-cases (is_unchanged row original)) [
            | inl same ↦
                rw (plan_row, known, other, updates, same) (not-added _ unchanged refl refl)
            | inr differs ↦
                rw (plan_row, known, other, updates, differs)
                  (replaced-RowPlanned _ (replaced original.id (retained row original) before)
                    (not-added _ update refl refl))
          ]
        ]
      ]
    ]

plan_row-IsPlanned :
    (policy : Text) (saved : List Profile) (draw : Option Text) (row : Row) (before : List Profile)
    (o : Item × List Profile)
    → plan_row policy saved draw row before ≡ value o
    → IsPlanned o.0
plan_row-IsPlanned policy saved draw row before o h =
    subst RowPlanned h (plan_row-RowPlanned policy saved draw row before)

pub plan_rows-IsPlanned :
    (policy : Text) (saved : List Profile) (rows : List (Option Text × Row)) (before : List Profile)
    (o : List Item × List Profile)
    → plan_rows policy saved rows before ≡ value o
    → All IsPlanned o.0
unfolding plan_rows
plan_rows-IsPlanned policy saved [] before o h =
    subst (λ p. All IsPlanned p.0) (value-injective h) tt
plan_rows-IsPlanned policy saved ((draw, row) ∷ rows) before o h =
    let a = >>=-value (plan_row policy saved draw row before) _ h in
    let b = >>=-value (plan_rows policy saved rows a.0.1) _ a.2 in
    subst (λ p. All IsPlanned p.0) (value-injective b.2)
      ((
        plan_row-IsPlanned policy saved draw row before a.0 a.1,
        plan_rows-IsPlanned policy saved rows a.0.1 b.0 b.1,
      ))
