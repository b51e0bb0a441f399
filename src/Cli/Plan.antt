-- ===== src/Cli/Plan.antt =====
-- `existingAliases`, `planImport` and `credentialTransition` of internal/cli/db_transfer.go.
pub mod Distinct
pub mod Single
pub mod Projected
use data_mate.Base.{
  ℕ, Bool, true, false, not, ◌&&◌, ◌||◌, Option, none, some, List, [], ◌∷◌, ◌++◌, Text, bytes,
  text_eq, is_empty, any, length, leb, keep, if◌then◌else◌, Result, ok, err,
}
use data_mate.Config.Profile.{Profile, Profiles, Transport, Ssh, Proxy}
use data_mate.Config.Profiles.{Codec, is_set, decode_profiles}
use data_mate.Config.Same.{same_profile}
use data_mate.Vault.Secrets.{Patch, Field, name, has}
use data_mate.Cli.Rows.{
  Trouble, invalid, failure, panic, Answer, refused, value, ◌>>=◌, ◌>>◌, allow, Row, Item, add,
  update, skip, unchanged, submitted, no_profile,
}

abbrev pub max_connections : ℕ
max_connections = 128

-- `existingAliases`, in the order of the rows.
unfoldable pub existing_aliases : List Row → List Profile → List Text
existing_aliases [] saved = []
existing_aliases (row ∷ rows) saved =
    let rest = existing_aliases rows saved in
    if any (λ p. text_eq p.alias row.profile.alias) saved then row.profile.alias ∷ rest else rest

-- The map `saved`: a later connection replaces an earlier one with its alias.
unfoldable pub saved_as : Text → List Profile → Option Profile
saved_as a [] = none
saved_as a (c ∷ cs) = elim (saved_as a cs) [
  | some d ↦ some d
  | none ↦ if text_eq c.alias a then some c else none
]

abbrev pub uses_auth : Text → Option Ssh → Bool
uses_auth a none = false
uses_auth a (some s) = text_eq s.auth a

abbrev pub uses_ssh : Option Ssh → Bool
uses_ssh none = false
uses_ssh (some s) = true

abbrev pub uses_login : Option Proxy → Bool
uses_login none = false
uses_login (some x) = is_set x.username

-- `clearUnset`: the fields that the patch does not set become empty.
unfoldable pub clear_unset : List Text → Patch → Patch
clear_unset [] patch = patch
clear_unset (k ∷ ks) patch = clear_unset ks (if has k patch then patch else (k, []) ∷ patch)

abbrev pub when {ℓ} : {A : Type ℓ} → Bool → List A → List A
when true xs = xs
when false xs = []

-- What `credentialTransition` returns.
unfoldable pub required_secrets : Transport → Transport → Bool → List Text
required_secrets after before added =
    when added (name Field.password ∷ [])
    ++ when
        (uses_auth (bytes "password") after.ssh && not (uses_auth (bytes "password") before.ssh))
        (name Field.ssh_password ∷ [])
    ++ when (uses_auth (bytes "key") after.ssh && not (uses_auth (bytes "key") before.ssh))
        (name Field.ssh_private_key ∷ [])
    ++ when (uses_login after.proxy && not (uses_login before.proxy))
        (name Field.proxy_password ∷ [])

-- The SSH secrets that `credentialTransition` clears.
abbrev pub left_ssh : Option Ssh → Option Ssh → List Text
left_ssh none after = []
left_ssh (some b) none =
    name Field.ssh_password ∷ name Field.ssh_private_key ∷ name Field.ssh_key_passphrase ∷ []
left_ssh (some b) (some a) =
    if text_eq b.auth (bytes "password") && text_eq a.auth (bytes "key")
    then name Field.ssh_password ∷ []
    else if text_eq b.auth (bytes "key") && text_eq a.auth (bytes "password")
    then name Field.ssh_private_key ∷ name Field.ssh_key_passphrase ∷ []
    else []

-- What `credentialTransition` makes of the patch.
unfoldable pub cleared : Transport → Transport → Patch → Patch
unfolding clear_unset
cleared after before patch =
    clear_unset
      (when (uses_login before.proxy && not (uses_login after.proxy))
        (name Field.proxy_password ∷ []))
      (clear_unset (left_ssh before.ssh after.ssh) patch)

-- `credentialTransition`, less the key where the row names a key file.
unfoldable pub transition : Profile → Profile → Bool → Patch → Text → List Text × Patch
unfolding required_secrets cleared
transition p original added patch key_file =
    let required = required_secrets p.transport original.transport added in
    (
      if is_set key_file
          then keep (λ k. not (text_eq k (name Field.ssh_private_key))) required
          else required,
      cleared p.transport original.transport patch,
    )

-- The first connection with the identity is replaced.
unfoldable pub replaced : Text → Profile → List Profile → Answer (List Profile)
replaced id p [] = refused panic
replaced id p (c ∷ cs) =
    let rest = replaced id p cs in
    if text_eq c.id id then value (p ∷ cs) else rest >>= λ ds. value (c ∷ ds)

abbrev pub idle : Row → Item
idle row = record {
  profile = row.profile;
  secrets = row.secrets;
  key_file = row.key_file;
  action = skip;
  required = [];
  pin = none;
}

-- The row of a new connection, with the identity that is drawn for it.
unfoldable pub added_item : Row → Text → Item
unfolding transition
added_item row id =
    let p = record row.profile { id = id } in
    let t = transition p no_profile true row.secrets row.key_file in
    record (idle row) { profile = p; secrets = t.1; action = add; required = t.0 }

-- The row of a connection that is saved, which keeps its identity and its reference.
abbrev pub retained : Row → Profile → Profile
retained row original = record row.profile {
  id = original.id;
  credential_ref = original.credential_ref;
}

abbrev pub is_unchanged : Row → Profile → Bool
is_unchanged row original =
    same_profile (retained row original) original
    && (elim row.secrets [ [] ↦ true | _ ∷ _ ↦ false ])
    && is_empty row.key_file

unfoldable pub updated_item : Row → Profile → Item
unfolding transition
updated_item row original =
    let p = retained row original in
    if is_unchanged row original
    then record (idle row) { profile = p; action = unchanged }
    else let t = transition p original false row.secrets row.key_file in
      record (idle row) { profile = p; secrets = t.1; action = update; required = t.0 }

-- One row: its item, and the connections with it; `draw` is what `NewID` gives.
unfoldable pub plan_row :
    Text → List Profile → Option Text → Row → List Profile → Answer (Item × List Profile)
unfolding added_item updated_item replaced
plan_row policy saved draw row projected = elim (saved_as row.profile.alias saved) [
  | none ↦ elim draw [
    | none ↦ refused failure
    | some id ↦ value (added_item row id, projected ++ (record row.profile { id = id } ∷ []))
  ]
  | some original ↦
      if text_eq policy (bytes "skip")
      then value (idle row, projected)
      else if text_eq policy (bytes "update")
      then (if is_unchanged row original
          then value (updated_item row original, projected)
          else replaced original.id (retained row original) projected >>= λ cs.
              value (updated_item row original, cs))
      else refused invalid
]

-- The loop over the rows.
unfoldable pub plan_rows :
    Text
    → List Profile
    → List (Option Text × Row)
    → List Profile
    → Answer (List Item × List Profile)
plan_rows policy saved [] projected = value ([], projected)
plan_rows policy saved ((draw, row) ∷ rows) projected =
    plan_row policy saved draw row projected >>= λ one.
    plan_rows policy saved rows one.1 >>= λ rest. value (one.0 ∷ rest.0, rest.1)

abbrev pub is_ok {ℓ} : {A : Type ℓ} → Result A → Bool
is_ok (err e) = false
is_ok (ok a) = true

-- `planImport`.
unfoldable pub plan_import :
    Codec → Text → List Profile → List (Option Text × Row) → Answer (List Item)
unfolding plan_rows
plan_import codec policy saved rows = plan_rows policy saved rows saved >>= λ planned.
    allow (leb (length planned.1) max_connections) invalid
    >> (allow
          (is_ok
            (decode_profiles codec (codec.print (record { version = 1; connections = planned.1 }))))
          invalid
        >> value planned.0)
