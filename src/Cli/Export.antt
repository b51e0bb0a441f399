-- ===== src/Cli/Export.antt =====
-- `unsetSecrets` of internal/cli/db_csv.go: the secrets that an export marks as not used.
pub mod Unset
use data_mate.Base.{
  Bool, true, false, not, ◌&&◌, Option, none, some, List, [], ◌∷◌, ◌++◌, Text, bytes, text_eq,
  if◌then◌else◌,
}
use data_mate.Config.Profile.{Profile}
use data_mate.Config.Profiles.{is_set}
use data_mate.Vault.Secrets.{Field}
use data_mate.Cli.Plan.{uses_auth, uses_login}
use data_mate.Service.Presence.{Presence}

-- The map of the presences: the last one of an identity.
unfoldable pub known : Text → List Presence → Option Presence
known id [] = none
known id (c ∷ cs) = elim (known id cs) [
  | some d ↦ some d
  | none ↦ if text_eq c.profile_id id then some c else none
]

-- The zero `CredentialPresence`.
abbrev pub no_presence : Presence
no_presence = record {
  profile_id = [];
  password = false;
  ssh_password = false;
  ssh_private_key = false;
  ssh_key_passphrase = false;
  proxy_password = false;
}

abbrev pub listed : Bool → Field → List Field
listed true f = f ∷ []
listed false f = []

unfoldable pub unset_fields : Profile → Presence → List Field
unset_fields p c =
    listed (not c.password) Field.password
    ++ listed (uses_auth (bytes "password") p.transport.ssh && not c.ssh_password)
        Field.ssh_password
    ++ listed (uses_auth (bytes "key") p.transport.ssh && not c.ssh_key_passphrase)
        Field.ssh_key_passphrase
    ++ listed (uses_login p.transport.proxy && not c.proxy_password) Field.proxy_password

-- `unsetSecrets`.
unfoldable pub unset_secrets : Profile → List Presence → List Field
unfolding known unset_fields
unset_secrets p presence =
    if is_set p.credential_ref
    then elim (known p.id presence) [ none ↦ [] | some c ↦ unset_fields p c ]
    else unset_fields p no_presence
