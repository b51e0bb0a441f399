-- ===== src/Cli/Export/Unset.antt =====
-- An export marks a secret as not used only where the vault holds none.
use data_mate.Base.{
  ◌≡◌, refl, sym, ap, ◌∙◌, subst, Bool, true, false, not, ◌&&◌, none, some, List, [], ◌∷◌, ◌++◌,
  Text, bytes, text_eq, text_eq_iff, All, Result, ok, ok-injective, Bool-cases, Option-cases,
  some-injective, inl, inr, arith,
}
use data_mate.Config.Profile.{Profile}
use data_mate.Config.Profiles.{Codec, is_set}
use data_mate.Config.Database.{Db, Revision}
use data_mate.Config.Database.Read.{Lease}
use data_mate.Vault.World.{Crypto}
use data_mate.Vault.Secrets.{Secrets, Field}
use data_mate.Vault.Unlock.{Repository}
use data_mate.Vault.Credential.{Encoding, credential_of}
use data_mate.Service.Presence.{Presence, presence_of, credential_presence}
use data_mate.Service.Presence.Told.{IsTrue, credential_presence-IsTrue}
use data_mate.Cli.Plan.{uses_auth, uses_login}
use data_mate.Cli.Export.{known, listed, unset_fields, unset_secrets}

abbrev pub value_of : Field → Secrets → Text
value_of Field.password s = s.password
value_of Field.ssh_password s = s.ssh_password
value_of Field.ssh_private_key s = s.ssh_private_key
value_of Field.ssh_key_passphrase s = s.ssh_key_passphrase
value_of Field.proxy_password s = s.proxy_password

not_set-empty : (t : Text) → is_set t ≡ false → t ≡ []
not_set-empty [] h = refl
not_set-empty (c ∷ t) h = cc

All-append : (P : Field → Type 0) (fs gs : List Field) → All P fs → All P gs → All P (fs ++ gs)
All-append P [] gs h g = g
All-append P (f ∷ fs) gs h g = (h.0, All-append P fs gs h.1 g)

listed-All : (P : Field → Type 0) (b : Bool) (f : Field) → (b ≡ true → P f) → All P (listed b f)
listed-All P true f h = (h refl, tt)
listed-All P false f h = tt

-- The fields that are listed for what is known of a profile's secrets are empty.
unset_fields-empty :
    (p : Profile) (c : Presence) (s : Secrets)
    → c ≡ presence_of c.profile_id s
    → All (λ f. value_of f s ≡ []) (unset_fields p c)
unfolding unset_fields
unset_fields-empty p c s e =
    let P : Field → Type 0 = λ f. value_of f s ≡ [] in
    let pw : c.password ≡ is_set s.password = ap (λ x. x.password) e in
    let ssh : c.ssh_password ≡ is_set s.ssh_password = ap (λ x. x.ssh_password) e in
    let phrase : c.ssh_key_passphrase ≡ is_set s.ssh_key_passphrase =
      ap (λ x. x.ssh_key_passphrase) e in
    let proxy : c.proxy_password ≡ is_set s.proxy_password = ap (λ x. x.proxy_password) e in
    let b : Bool = uses_auth (bytes "password") p.transport.ssh && not c.ssh_password in
    let d : Bool = uses_auth (bytes "key") p.transport.ssh && not c.ssh_key_passphrase in
    let g : Bool = uses_login p.transport.proxy && not c.proxy_password in
    let one : List Field = listed (not c.password) Field.password in
    let two : List Field = one ++ listed b Field.ssh_password in
    let three : List Field = two ++ listed d Field.ssh_key_passphrase in
    let first =
      listed-All P (not c.password) Field.password
        (λ h. not_set-empty s.password (ground (arith, pw, h))) in
    let second =
      listed-All P b Field.ssh_password
        (λ h. not_set-empty s.ssh_password (ground (arith, ssh, h))) in
    let third =
      listed-All P d Field.ssh_key_passphrase
        (λ h. not_set-empty s.ssh_key_passphrase (ground (arith, phrase, h))) in
    let fourth =
      listed-All P g Field.proxy_password
        (λ h. not_set-empty s.proxy_password (ground (arith, proxy, h))) in
    All-append P three (listed g Field.proxy_password)
      (All-append P two (listed d Field.ssh_key_passphrase)
        (All-append P one (listed b Field.ssh_password) first second) third)
      fourth

module _ (crypto : Crypto) (enc : Encoding) (codec : Codec) (r : Repository) (l : Lease) (db : Db)
    (context : Text → Result (Unit {0})) where
  known-IsTrue :
      (id : Text) (cs : List Presence) (c : Presence)
      → All (IsTrue crypto enc codec r l db context) cs
      → known id cs ≡ some c
      → IsTrue crypto enc codec r l db context c × (c.profile_id ≡ id)
  unfolding known
  known-IsTrue id [] c v h = cc
  known-IsTrue id (d ∷ cs) c v h = elim (Option-cases (known id cs)) [
    | inr (e, later) ↦ known-IsTrue id cs c v.1 (later ∙ (rw (known, later) at h))
    | inl nothing ↦ elim (Bool-cases (text_eq d.profile_id id)) [
      | inr other ↦ let wrong : none ≡ some c = rw (known, nothing, other) at h in cc
      | inl same ↦
          let is : d ≡ c = some-injective (rw (known, nothing, same) at h) in
          subst (λ x. IsTrue crypto enc codec r l db context x × (x.profile_id ≡ id)) is
            (v.0, (text_eq_iff d.profile_id id).0 same)
    ]
  ]

-- What an export marks as not used, by what the service told of the credentials at a revision, is empty in the
-- vault: no secret that a saved connection has is exported as one that it does not use. The vault is as the
-- service read it, under the lease of the answer.
pub unset_secrets-empty :
    (crypto : Crypto) (enc : Encoding) (codec : Codec) (r : Repository)
    (context : Text → Result (Unit {0})) (expected : Revision) (first : Result (Lease × Db))
    (unlocked : Result (Unit {0})) (l : Lease) (db : Db) (presence : List Presence) (p : Profile)
    (s : Secrets)
    → credential_presence crypto enc codec r context expected first unlocked (ok (l, db))
      ≡ ok presence
    → is_set p.credential_ref ≡ true
    → credential_of crypto enc codec r l db (context p.id) p.id ≡ ok s
    → All (λ f. value_of f s ≡ []) (unset_secrets p presence)
unfolding unset_secrets
unset_secrets-empty crypto enc codec r context expected first unlocked l db presence p s h ref
      sealed =
    elim (Option-cases (known p.id presence)) [
      | inl unknown ↦ rw (unset_secrets, ref, unknown) tt
      | inr (c, found) ↦
          let t =
            known-IsTrue crypto enc codec r l db context p.id presence c
              (credential_presence-IsTrue crypto enc codec r l db context expected first unlocked
                presence h)
              found in
          let same : t.0.0 ≡ s = ok-injective (
            sym t.0.1
            ∙ ap (λ id. credential_of crypto enc codec r l db (context id) id) t.1
            ∙ sealed) in
          rw (unset_secrets, ref, found)
            (unset_fields-empty p c s (t.0.2 ∙ ap (λ x. presence_of c.profile_id x) same))
    ]
