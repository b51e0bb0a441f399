-- ===== src/Service/Presence/Told.antt =====
-- What `credentialPresence` tells is true of the vault.
use data_mate.Base.{
  ◌≡◌, refl, subst, List, [], ◌∷◌, Text, All, Result, ok, err, revision, credential_missing,
  guard-ok, >>=-eq-ok, ok-injective, ◌>>=◌, Bool-cases, inl, inr,
}
use data_mate.Config.Profile.{Profile}
use data_mate.Config.Profiles.{Codec, is_set}
use data_mate.Config.Database.{Db, Revision, revision_eq}
use data_mate.Config.Database.Read.{Lease, profile_snapshot}
use data_mate.Vault.World.{Crypto}
use data_mate.Vault.Secrets.{Secrets}
use data_mate.Vault.Unlock.{Repository}
use data_mate.Vault.Credential.{Encoding, credential_of}
use data_mate.Service.Presence.{
  Presence, presence_of, presence_each, has_bundle, credential_presence,
}

module _ (crypto : Crypto) (enc : Encoding) (codec : Codec) (r : Repository) (l : Lease) (db : Db)
    (context : Text → Result (Unit {0})) where
  -- What is known of the secrets of an identity is what its credential says.
  abbrev pub IsTrue : Presence → Type 0
  IsTrue c =
      (s : Secrets) × (credential_of crypto enc codec r l db (context c.profile_id) c.profile_id
        ≡ ok s)
      × (c ≡ presence_of c.profile_id s)

  presence_each-IsTrue :
      (ps : List Profile) (found : List Presence)
      → presence_each crypto enc codec r l db context ps ≡ ok found
      → All IsTrue found
  unfolding presence_each
  presence_each-IsTrue [] found h = subst (All IsTrue) (ok-injective h) tt
  presence_each-IsTrue (p ∷ ps) found h = elim (Bool-cases (is_set p.credential_ref)) [
    | inr bare ↦ presence_each-IsTrue ps found (rw (presence_each, bare) at h)
    | inl sealed ↦
        look (credential_of crypto enc codec r l db (context p.id) p.id) refl
          (rw (presence_each, sealed) at h) (λ rest e. presence_each-IsTrue ps rest e)
  ]
    where
      look :
          (o : Result Secrets)
          → credential_of crypto enc codec r l db (context p.id) p.id ≡ o
          → (elim o as (λ _. Result (List Presence)) [
            | err credential_missing ↦ presence_each crypto enc codec r l db context ps
            | err e ↦ err e
            | ok s ↦ presence_each crypto enc codec r l db context ps >>= λ rest.
                ok (presence_of p.id s ∷ rest)
          ])
            ≡ ok found
          → ((rest : List Presence)
              → presence_each crypto enc codec r l db context ps ≡ ok rest
              → All IsTrue rest)
          → All IsTrue found
      look (ok s) e g rest =
          let a = >>=-eq-ok (presence_each crypto enc codec r l db context ps) _ g in
          subst (All IsTrue) (ok-injective a.2) ((s, e, refl), rest a.0 a.1)
      look (err credential_missing) e g rest = rest found g
      look (err _) e g rest = cc

  -- Each entry of an answer says which secrets its connection has, as the vault has them under the last lease.
  pub credential_presence-IsTrue :
      (expected : Revision) (first : Result (Lease × Db)) (unlocked : Result (Unit {0}))
      (presence : List Presence)
      → credential_presence crypto enc codec r context expected first unlocked (ok (l, db))
        ≡ ok presence
      → All IsTrue presence
  unfolding credential_presence
  credential_presence-IsTrue expected first unlocked presence h =
      let a = >>=-eq-ok first _ h in
      let b = >>=-eq-ok (profile_snapshot codec a.0.0 a.0.1) _ a.2 in
      let c = guard-ok (revision_eq b.0.1 expected) revision _ b.2 in
      elim (Bool-cases (has_bundle b.0.0.connections)) [
        | inr bare ↦ subst (All IsTrue) (ok-injective (rw bare at c.1)) tt
        | inl some_bundle ↦
            let rest = rw some_bundle at c.1 in
            let d = >>=-eq-ok unlocked _ rest in
            let e = >>=-eq-ok (profile_snapshot codec l db) _ d.2 in
            let f = guard-ok (revision_eq e.0.1 expected) revision _ e.2 in
            presence_each-IsTrue b.0.0.connections presence f.1
      ]
