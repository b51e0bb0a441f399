-- ===== src/Vault/Credential.antt =====
-- `cipher`, `credential` and `ValidateExisting` of internal/vault/repository.go, and `aad` of vault.go.
use data_mate.Base.{
  ℕ, ◌+◌, Bool, not, ◌&&◌, ◌||◌, Option, none, some, List, [], ◌∷◌, Text, bytes, text_eq, length,
  find, leb, ◌==◌, if◌then◌else◌, Result, ok, err, repair, locked, not_exist, credential_missing,
  binding, ◌>>=◌, ◌>>◌, guard,
}
use data_mate.Config.Identity.{Identity}
use data_mate.Config.Profile.{Profile, Profiles}
use data_mate.Config.Profiles.{Codec, is_set}
use data_mate.Config.Database.{Db, Ciphertext, KeysetMetadata, Revision}
use data_mate.Config.Database.Read.{Lease, profile_snapshot, bundle}
use data_mate.Config.Database.Keyset.{keyset, is_ready}
use data_mate.Vault.World.{Crypto}
use data_mate.Vault.Secrets.{Secrets, no_secrets}
use data_mate.Vault.Unlock.{Repository}

abbrev pub max_plaintext_bytes : ℕ
max_plaintext_bytes = 4194304

-- What the bundles need of encoding/json, strconv and unicode/utf8: the document of a bundle, which
-- is read strictly and with its secrets checked, an array of strings, and a decimal.
pub record Encoding : Type 0 where
  pub print_bundle : Secrets → Text
  pub parse_bundle : Text → Option Secrets
  pub print_strings : List Text → Text
  pub itoa : ℕ → Text
  pub utf8 : Text → Bool

-- The associated data binds a ciphertext to its installation, its connection and its reference.
unfoldable pub aad : Encoding → Identity → Profile → ℕ → Text
aad enc id p version = enc.print_strings (
    bytes "data-mate/credential-bundle"
    ∷ enc.itoa version
    ∷ id.root_digest
    ∷ id.id
    ∷ p.id
    ∷ p.credential_ref
    ∷ [])

ready_key : Repository → KeysetMetadata → Result Text
ready_key r k = elim r.primitive [
  | none ↦ err locked
  | some raw ↦ if r.closed || not (text_eq r.fingerprint k.fingerprint) then err repair else ok raw
]

-- `cipher`, where the caller has the metadata or the error of `Keyset`.
unfoldable pub cipher : Repository → Result KeysetMetadata → Result Text
unfolding ready_key
cipher r (err e) = err repair
cipher r (ok k) = if is_ready k.phase then ready_key r k else err repair

abbrev pub found_bundle : Result Ciphertext → Result Ciphertext
found_bundle (ok b) = ok b
found_bundle (err not_exist) = err credential_missing
found_bundle (err e) = err e

abbrev repaired {ℓ} : {A : Type ℓ} → Result A → Result A
repaired (ok a) = ok a
repaired (err e) = err repair

abbrev decoded : Option Secrets → Result Secrets
decoded none = err repair
decoded (some s) = ok s

-- `credential`: the secrets of a profile.
unfoldable pub credential : Crypto → Encoding → Repository → Lease → Db → Profile → Result Secrets
credential crypto enc r l db p = if not (is_set p.credential_ref) then ok no_secrets else do
  b ← found_bundle (bundle l db p.credential_ref)
  guard
      (text_eq b.connection_id p.id
        && b.version == 1
        && leb (length b.payload) (max_plaintext_bytes + 33))
      binding
  raw ← cipher r (keyset l db)
  plain ← repaired (crypto.decrypt raw b.payload (aad enc l.identity p b.version))
  guard (leb (length plain) max_plaintext_bytes) repair
  decoded (enc.parse_bundle plain)

-- `Credential`: that of the connection with an identity.
unfoldable pub credential_of :
    Crypto → Encoding → Codec → Repository → Lease → Db → Result (Unit {0}) → Text → Result Secrets
credential_of crypto enc codec r l db context id = do
  context
  (p, _) ← profile_snapshot codec l db
  elim (find (λ (c : Profile). text_eq c.id id) p.connections) [
    | none ↦ err credential_missing
    | some c ↦ credential crypto enc r l db c
  ]

unfoldable pub validate_each :
    Crypto → Encoding → Repository → Lease → Db → List Profile → Result (Unit {0})
validate_each crypto enc r l db [] = ok tt
validate_each crypto enc r l db (c ∷ cs) = do
  _ ← credential crypto enc r l db c
  validate_each crypto enc r l db cs

-- `ValidateExisting`.
unfoldable pub validate_existing :
    Crypto → Encoding → Codec → Repository → Lease → Db → Result (Unit {0}) → Result (Unit {0})
unfolding validate_each
validate_existing crypto enc codec r l db context = do
  (p, _) ← profile_snapshot codec l db
  validate_each crypto enc r l db p.connections
  context

-- `Snapshot`, under a lease of its own.
unfoldable pub snapshot : Codec → Result Lease → Db → Result (Profiles × Revision)
snapshot codec lease db = do l ← lease; profile_snapshot codec l db
