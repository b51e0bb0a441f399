-- ===== src/Vault/Secrets.antt =====
-- `Secrets` and `Patch` of internal/vault/vault.go.
use data_mate.Base.{
  ℕ, Bool, true, false, not, ◌&&◌, ◌||◌, Option, none, some, List, [], ◌∷◌, Text, bytes, text_eq,
  length, leb, if◌then◌else◌, Result, ok, err, repair, guard, ◌>>◌,
}
use data_mate.Config.Profile.{Profile, Ssh, Proxy}
use data_mate.Config.Profiles.{is_set}

pub record Secrets : Type 0 where
  pub password : Text
  pub ssh_password : Text
  pub ssh_private_key : Text
  pub ssh_key_passphrase : Text
  pub proxy_password : Text

abbrev pub no_secrets : Secrets
no_secrets = record {
  password = [];
  ssh_password = [];
  ssh_private_key = [];
  ssh_key_passphrase = [];
  proxy_password = [];
}

abbrev pub max_secret_bytes : ℕ
max_secret_bytes = 131072

-- The bound on a secret; `utf8` is `utf8.ValidString`.
unfoldable pub valid_secret : (Text → Bool) → Text → Bool
valid_secret utf8 v = leb (length v) max_secret_bytes && utf8 v

-- `Secrets.valid`.
unfoldable pub valid : (Text → Bool) → Secrets → Bool
valid utf8 s =
    valid_secret utf8 s.password
    && valid_secret utf8 s.ssh_password
    && valid_secret utf8 s.ssh_private_key
    && valid_secret utf8 s.ssh_key_passphrase
    && valid_secret utf8 s.proxy_password

-- The names of the fields in a patch.
pub data Field : Type 0 where
  password ssh_password ssh_private_key ssh_key_passphrase proxy_password : Field

abbrev pub name : Field → Text
name Field.password = bytes "password"
name Field.ssh_password = bytes "ssh_password"
name Field.ssh_private_key = bytes "ssh_private_key"
name Field.ssh_key_passphrase = bytes "ssh_key_passphrase"
name Field.proxy_password = bytes "proxy_password"

-- A map from names to values, as its entries: an absent field is kept, an empty one cleared.
abbrev pub Patch : Type 0
Patch = List (Text × Text)

-- The `switch` on a key.
unfoldable pub set_field : Text → Text → Secrets → Result Secrets
set_field k v s =
    if text_eq k (name Field.password)
    then ok (record s { password = v })
    else if text_eq k (name Field.ssh_password)
    then ok (record s { ssh_password = v })
    else if text_eq k (name Field.ssh_private_key)
    then ok (record s { ssh_private_key = v })
    else if text_eq k (name Field.ssh_key_passphrase)
    then ok (record s { ssh_key_passphrase = v })
    else if text_eq k (name Field.proxy_password)
    then ok (record s { proxy_password = v })
    else err repair

patched_by : (Text → Bool) → Text → Text → Secrets → Result Secrets
patched_by utf8 k v s = do guard (valid_secret utf8 v) repair; set_field k v s

-- `Patch.Apply`, over the entries in the order in which the map gives them.
unfoldable pub apply_patch : (Text → Bool) → Patch → Secrets → Result Secrets
unfolding patched_by
apply_patch utf8 [] s = ok s
apply_patch utf8 ((k, v) ∷ p) s = elim (patched_by utf8 k v s) [
  | err e ↦ err e
  | ok s' ↦ apply_patch utf8 p s'
]

unfoldable pub has : Text → Patch → Bool
has k [] = false
has k ((j, v) ∷ p) = text_eq j k || has k p

unfoldable pub ssh_key : Ssh → Text
ssh_key s =
    if text_eq s.auth (bytes "key") then name Field.ssh_private_key else name Field.ssh_password

unfoldable pub ssh_complete : Patch → Option Ssh → Bool
unfolding ssh_key
ssh_complete p none = true
ssh_complete p (some s) = has (ssh_key s) p

unfoldable pub proxy_complete : Patch → Option Proxy → Bool
proxy_complete p none = true
proxy_complete p (some x) = not (is_set x.username) || has (name Field.proxy_password) p

-- `Patch.Complete`: the patch sets all that the profile's transport needs.
unfoldable pub complete : Patch → Profile → Bool
unfolding ssh_complete proxy_complete
complete p profile =
    has (name Field.password) p
    && ssh_complete p profile.transport.ssh
    && proxy_complete p profile.transport.proxy
