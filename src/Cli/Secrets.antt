-- ===== src/Cli/Secrets.antt =====
-- `completeImportSecrets` of internal/cli/db_transfer.go and `validateCandidate` of db_form.go: the secrets that
-- a row still needs.
pub mod Completed
pub mod Planned
pub mod Added
use data_mate.Base.{
  ℕ, Bool, true, false, not, ◌&&◌, ◌||◌, Option, none, some, List, [], ◌∷◌, Text, bytes, text_eq,
  any, all, length, leb, if◌then◌else◌, is_empty, ◌==◌,
}
use data_mate.Config.Profile.{Profile, Ssh, Proxy}
use data_mate.Config.Profiles.{is_set}
use data_mate.Vault.Secrets.{Patch, Field, name, has, valid_secret}
use data_mate.Cli.Rows.{
  Trouble, invalid, Answer, refused, value, ◌>>=◌, ◌>>◌, allow, Item, submitted,
}
use data_mate.Cli.Plan.{uses_ssh}

-- `patch[k] = v`.
unfoldable pub assign : Text → Text → Patch → Patch
assign k v [] = (k, v) ∷ []
assign k v ((j, w) ∷ patch) = if text_eq j k then (j, v) ∷ patch else (j, w) ∷ assign k v patch

-- `strings.HasPrefix`.
unfoldable pub has_prefix : Text → Text → Bool
has_prefix s [] = true
has_prefix [] (p ∷ ps) = false
has_prefix (c ∷ s) (p ∷ ps) = c == p && has_prefix s ps

abbrev pub uses_proxy : Option Proxy → Bool
uses_proxy none = false
uses_proxy (some x) = true

-- A secret of the patch that is not empty has its transport.
unfoldable pub has_transport : Profile → Text → Text → Bool
unfolding has_prefix
has_transport p key v =
    is_empty v
    || (not (has_prefix key (bytes "ssh_") && not (uses_ssh p.transport.ssh))
        && not (text_eq key (name Field.proxy_password) && not (uses_proxy p.transport.proxy)))

-- The characters that no endpoint has.
abbrev pub bad_characters : Text
bad_characters = 47 ∷ 64 ∷ 63 ∷ 61 ∷ 35 ∷ 92 ∷ 13 ∷ 10 ∷ 9 ∷ 32 ∷ []

unfoldable pub good_host : Text → Bool
good_host h = not (any (λ c. any (λ b. b == c) bad_characters) h)

abbrev pub ssh_host : Profile → Text
ssh_host p = elim p.transport.ssh [ none ↦ [] | some s ↦ s.host ]

abbrev pub proxy_host : Profile → Text
proxy_host p = elim p.transport.proxy [ none ↦ [] | some x ↦ x.host ]

-- `validateCandidate`; `utf8` is `utf8.ValidString`.
unfoldable pub validate_candidate : (Text → Bool) → Profile → Patch → Answer (Unit {0})
unfolding has_transport good_host
validate_candidate utf8 p patch =
    allow
      (all (λ (e : Text × Text). valid_secret utf8 e.1 && has_transport p e.0 e.1) patch
        && good_host p.connection.host
        && good_host (ssh_host p)
        && good_host (proxy_host p))
      invalid

-- What the user gives for a row: the listed key file, the prompts by their key, and the passphrase of a new key.
-- A form that cannot be opened is a prompt that fails.
pub record Prompts : Type 0 where
  pub key_file : Option Text
  pub ask : Text → Answer Text
  pub passphrase : Answer Text

-- The listed key file of a row.
unfoldable pub read_key : Prompts → Item → Answer (Patch × Bool)
unfolding assign
read_key u it =
    if is_set it.key_file
    then elim u.key_file [
      | none ↦ refused invalid
      | some key ↦ value (assign (name Field.ssh_private_key) key it.secrets, true)
    ]
    else value (it.secrets, false)

-- The loop over the required keys; the flag says whether a new key was read.
unfoldable pub ask_each : Prompts → List Text → Patch × Bool → Answer (Patch × Bool)
unfolding assign
ask_each u [] s = value s
ask_each u (k ∷ ks) (patch, new_key) =
    let rest = u.ask k >>= λ v.
    ask_each u ks (assign k v patch, new_key || text_eq k (name Field.ssh_private_key)) in
    let skipped = ask_each u ks (patch, new_key) in if has k patch then skipped else rest

-- A new key's passphrase is asked for, or it has none.
unfoldable pub ask_passphrase : Bool → Prompts → Patch × Bool → Answer Patch
ask_passphrase interactive u (patch, new_key) =
    if new_key && not (has (name Field.ssh_key_passphrase) patch)
    then (if interactive
        then u.passphrase >>= (λ v. value (assign (name Field.ssh_key_passphrase) v patch))
        else value (assign (name Field.ssh_key_passphrase) [] patch))
    else value patch

-- The body of the second loop.
unfoldable pub complete_item : (Text → Bool) → Bool → Prompts → Item → Answer Item
unfolding read_key ask_each ask_passphrase
complete_item utf8 interactive u it =
    if not (submitted it)
    then value it
    else read_key u it >>= λ s. ask_each u it.required s >>= λ t.
        ask_passphrase interactive u t >>= λ patch.
        validate_candidate utf8 it.profile patch >> value (record it { secrets = patch })

unfoldable pub complete_items : (Text → Bool) → Bool → List (Prompts × Item) → Answer (List Item)
unfolding complete_item
complete_items utf8 interactive [] = value []
complete_items utf8 interactive ((u, it) ∷ items) = complete_item utf8 interactive u it >>= λ one.
    complete_items utf8 interactive items >>= λ rest. value (one ∷ rest)

-- Without a terminal, the file must hold what is required.
abbrev pub is_supplied : Item → Bool
is_supplied it = all (λ k. has k it.secrets) it.required

abbrev pub all_supplied : List (Prompts × Item) → Bool
all_supplied [] = true
all_supplied ((u, it) ∷ items) = is_supplied it && all_supplied items

-- `completeImportSecrets`.
unfoldable pub complete_secrets :
    (Text → Bool) → Bool → Bool → List (Prompts × Item) → Answer (List Item)
unfolding complete_items
complete_secrets utf8 terminal yes_flag items =
    allow (terminal || all_supplied items) invalid
    >> complete_items utf8 (terminal && not yes_flag) items
