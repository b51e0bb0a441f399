-- ===== src/Service/Presence.antt =====
-- `Manager.credentialPresence` of internal/service/management.go.
pub mod Told
use data_mate.Base.{
  Bool, true, false, not, ◌&&◌, ◌||◌, Option, none, some, List, [], ◌∷◌, ◌++◌, Text, bytes, text_eq,
  any, if◌then◌else◌, Result, ok, err, revision, credential_missing, ◌>>=◌, ◌>>◌, guard,
}
use data_mate.Config.Profile.{Profile, Profiles, Ssh, Proxy}
use data_mate.Config.Profiles.{Codec, is_set}
use data_mate.Config.Database.{Db, Revision, revision_eq}
use data_mate.Config.Database.Read.{Lease, profile_snapshot}
use data_mate.Vault.World.{Crypto}
use data_mate.Vault.Secrets.{Secrets, Field, name}
use data_mate.Vault.Unlock.{Repository}
use data_mate.Vault.Credential.{Encoding, credential_of}

-- `CredentialPresence`.
pub record Presence : Type 0 where
  pub profile_id : Text
  pub password : Bool
  pub ssh_password : Bool
  pub ssh_private_key : Bool
  pub ssh_key_passphrase : Bool
  pub proxy_password : Bool

abbrev pub presence_of : Text → Secrets → Presence
presence_of id s = record {
  profile_id = id;
  password = is_set s.password;
  ssh_password = is_set s.ssh_password;
  ssh_private_key = is_set s.ssh_private_key;
  ssh_key_passphrase = is_set s.ssh_key_passphrase;
  proxy_password = is_set s.proxy_password;
}

-- The context of each call is that of the request.
module _ (crypto : Crypto) (enc : Encoding) (codec : Codec) (r : Repository) (l : Lease) (db : Db)
    (context : Text → Result (Unit {0})) where
  -- The loop over the profiles, under one lease.
  unfoldable pub presence_each : List Profile → Result (List Presence)
  presence_each [] = ok []
  presence_each (p ∷ ps) =
      let rest = presence_each ps in
      if not (is_set p.credential_ref)
      then rest
      else elim (credential_of crypto enc codec r l db (context p.id) p.id) [
        | err credential_missing ↦ rest
        | err e ↦ err e
        | ok s ↦ rest >>= λ found. ok (presence_of p.id s ∷ found)
      ]

-- Some profile has a credential bundle.
abbrev pub has_bundle : List Profile → Bool
has_bundle ps = any (λ (p : Profile). is_set p.credential_ref) ps

-- `credentialPresence`: `first` is the state that the first lease shows, and `second` that of the lease after the
-- vault was unlocked.
unfoldable pub credential_presence :
    Crypto
    → Encoding
    → Codec
    → Repository
    → (Text → Result (Unit {0}))
    → Revision
    → Result (Lease × Db)
    → Result (Unit {0})
    → Result (Lease × Db)
    → Result (List Presence)
unfolding presence_each
credential_presence crypto enc codec r context expected first unlocked second = do
  one ← first
  shown ← profile_snapshot codec one.0 one.1
  guard (revision_eq shown.1 expected) revision
  if not (has_bundle shown.0.connections) then ok [] else do
    unlocked
    two ← second
    again ← profile_snapshot codec two.0 two.1
    guard (revision_eq again.1 expected) revision
    presence_each crypto enc codec r two.0 two.1 context shown.0.connections
