-- ===== src/Vault/Apply.antt =====
-- `Apply` of internal/vault/repository.go: a confirmed mutation of the profiles and their credentials.
pub mod Budget
pub mod Main
pub mod Commit
use data_mate.Base.{
  ℕ, suc, ◌+◌, Bool, true, false, not, ◌&&◌, ◌||◌, Option, none, some, List, [], ◌∷◌, ◌++◌, Text,
  text_eq, length, any, all, find, leb, ltb, ◌==◌, if◌then◌else◌, Result, ok, err, Error, revision,
  repair, limit, not_exist, credential_missing, binding, commit_unknown, guard,
}
use data_mate.Config.Identity.{valid_uuid}
use data_mate.Config.Profile.{Profile, Profiles}
use data_mate.Config.Profiles.{Codec, is_set, decode_profiles}
use data_mate.Config.Database.{Db, Ciphertext, KeysetMetadata, Revision, revision_eq}
use data_mate.Config.Database.Read.{Lease, profile_snapshot, bundle}
use data_mate.Config.Database.Keyset.{keyset, save_keyset, max_reservations}
use data_mate.Vault.World.{
  World, Act, after, ◌>>=◌, ◌>>◌, pure, raise, lift, read_db, write_db, Crypto,
}
use data_mate.Vault.Secrets.{Secrets, no_secrets, valid, Patch, apply_patch, complete}
use data_mate.Vault.Unlock.{Repository}
use data_mate.Transport.Hosts.{HostKey}
use data_mate.Vault.Credential.{
  Encoding, aad, cipher, credential, found_bundle, max_plaintext_bytes,
}

-- A map is the list of its entries.
pub record Mutation : Type 0 where
  pub expected : Revision
  pub profiles : Profiles
  pub patches : List (Text × Patch)
  pub replacements : List (Text × Secrets)
  pub host_key : Option HostKey

-- How the calls for one profile end: the random identity and nonce, the statement of the reservation,
-- the two fault points and the context.
pub record Turn : Type 0 where
  pub new_id : Result Text
  pub nonce : Text
  pub reserves : Bool
  pub after_reservation : Result (Unit {0})
  pub context : Result (Unit {0})
  pub after_encryption : Result (Unit {0})

abbrev pub entry {ℓ} : {A : Type ℓ} → Text → List (Text × A) → Option A
entry k [] = none
entry k ((j, a) ∷ m) = if text_eq j k then some a else entry k m

-- The zero `Profile` is what the map of the previous ones gives for a new identity.
abbrev pub before_of : List Profile → Profile → Option Profile
before_of previous c = find (λ (p : Profile). text_eq p.id c.id) previous

abbrev pub old_ref : Option Profile → Text
old_ref none = []
old_ref (some p) = p.credential_ref

unfoldable pub same_secrets : Secrets → Secrets → Bool
same_secrets s t =
    text_eq s.password t.password
    && text_eq s.ssh_password t.ssh_password
    && text_eq s.ssh_private_key t.ssh_private_key
    && text_eq s.ssh_key_passphrase t.ssh_key_passphrase
    && text_eq s.proxy_password t.proxy_password

-- The secrets that a patch starts from: a complete one does without what is lost.
start_from : Bool → Result Secrets → Result Secrets
start_from whole (ok s) = ok s
start_from whole (err credential_missing) = if whole then ok no_secrets else err credential_missing
start_from whole (err e) = err e

abbrev pub own_keyset : Result KeysetMetadata → Result KeysetMetadata
own_keyset (ok k) = ok k
own_keyset (err e) = err repair

abbrev pub encrypted : Result Text → Result Text
encrypted (ok b) = ok b
encrypted (err e) = err repair

abbrev pub referring : Profile → Text → Profile
referring c ref = record c { credential_ref = ref }

abbrev pub sealed : Profile → Text → Ciphertext
sealed c payload = record {
  reference = c.credential_ref;
  connection_id = c.id;
  version = 1;
  payload = payload;
}

module _ (crypto : Crypto) (enc : Encoding) (r : Repository) (l : Lease) where
  old_secrets : Db → Option Profile → Result Secrets
  old_secrets db none = ok no_secrets
  old_secrets db (some p) = credential crypto enc r l db p

  patched : Db → Option Profile → Profile → Patch → Result (Option Secrets)
  unfolding start_from old_secrets
  patched db before c patch = elim (start_from (complete patch c) (old_secrets db before)) [
    | err e ↦ err e
    | ok s ↦ elim (apply_patch enc.utf8 patch s) [ err e ↦ err e | ok t ↦ ok (some t) ]
  ]

  -- The secrets that replace a profile's bundle, if any do; an empty patch is none.
  unfoldable pub replacement : Mutation → Db → Option Profile → Profile → Result (Option Secrets)
  unfolding patched
  replacement m db before c = elim (entry c.id m.patches) [
    | some (e ∷ es) ↦ patched db before c (e ∷ es)
    | some [] ↦ ok (entry c.id m.replacements)
    | none ↦ ok (entry c.id m.replacements)
  ]

  -- A profile that keeps its credentials must still have them.
  kept : Db → Profile → Result (Unit {0})
  kept db c =
      if is_set c.credential_ref
      then (elim (found_bundle (bundle l db c.credential_ref)) [ ok b ↦ ok tt | err e ↦ err e ])
      else ok tt

  -- One more encryption is durably reserved before it happens.
  unfoldable pub reserve : Turn → Act (Unit {0})
  reserve t = do
    k ← read_db (λ db. own_keyset (keyset l db))
    lift (guard (ltb k.reserved max_reservations) limit)
    write_db (λ db. save_keyset t.reserves l db (record k { reserved = suc k.reserved }))

  unfoldable pub encrypt : Turn → Profile → Secrets → Act (Profile × List Ciphertext)
  encrypt t c s = do
    raw ← read_db (λ db. cipher r (keyset l db))
    ref ← lift t.new_id
    let c' = referring c ref
    let plain = enc.print_bundle s
    lift (guard (leb (length plain) max_plaintext_bytes) repair)
    reserve t
    lift t.after_reservation
    lift t.context
    payload ← lift (encrypted (crypto.encrypt raw t.nonce plain (aad enc l.identity c' 1)))
    lift t.after_encryption
    pure (c', sealed c' payload ∷ [])

  -- The rest of the loop's body, with the secrets that replace the old ones.
  unfoldable pub reseal : Turn → Profile → Option Secrets → Act (Profile × List Ciphertext)
  unfolding kept
  reseal t c none = do read_db (λ db. kept db c); pure (c, [])
  reseal t c (some s) =
      if not (valid enc.utf8 s)
      then raise repair
      else if same_secrets s no_secrets
      then pure (referring c [], [])
      else encrypt t c s

  -- The body of the loop over the profiles.
  unfoldable pub apply_one :
      Mutation → List Profile → Turn → Profile → Act (Profile × List Ciphertext)
  apply_one m previous t c = do
    let before = before_of previous c
    lift (guard (text_eq c.credential_ref (old_ref before)) binding)
    s ← read_db (λ db. replacement m db before c)
    reseal t c s

  -- The loop; `turns` gives each profile its calls.
  unfoldable pub apply_each :
      Mutation
      → List Profile
      → (Profile → Turn)
      → List Profile
      → Act (List Profile × List Ciphertext)
  apply_each m previous turns [] = pure ([], [])
  apply_each m previous turns (c ∷ cs) = do
    (c', one) ← apply_one m previous (turns c) c
    (cs', rest) ← apply_each m previous turns cs
    pure (c' ∷ cs', one ++ rest)

-- Each entry of a map is for a connection of the document.
abbrev known {ℓ} : {A : Type ℓ} → List Profile → List (Text × A) → Bool
known cs m = all (λ e. any (λ (c : Profile). text_eq c.id e.0) cs) m

-- One entry of `Patches` in `NeedsKey`.
patch_needs_key : (Text → Bool) → List Profile → Text × Patch → Result Bool
unfolding same_secrets
patch_needs_key utf8 cs (id, p) = elim (apply_patch utf8 p no_secrets) [
  | err e ↦ err repair
  | ok check ↦
      if valid_uuid id && any (λ (c : Profile). text_eq c.id id) cs
      then ok (
          any
            (λ (c : Profile).
              text_eq c.id id && (not (same_secrets check no_secrets) || is_set c.credential_ref))
            cs)
      else err repair
]

patches_need_key : (Text → Bool) → List Profile → List (Text × Patch) → Result Bool
unfolding patch_needs_key
patches_need_key utf8 cs [] = ok false
patches_need_key utf8 cs (e ∷ es) = elim (patch_needs_key utf8 cs e) [
  | err f ↦ err f
  | ok b ↦ elim (patches_need_key utf8 cs es) [ err f ↦ err f | ok rest ↦ ok (b || rest) ]
]

-- `Mutation.NeedsKey`.
unfoldable pub needs_key : (Text → Bool) → Mutation → Result Bool
unfolding patches_need_key
needs_key utf8 m = elim (patches_need_key utf8 m.profiles.connections m.patches) [
  | err e ↦ err e
  | ok b ↦ ok (ltb 0 (length m.replacements) || b)
]
