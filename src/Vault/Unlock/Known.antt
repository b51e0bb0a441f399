-- ===== src/Vault/Unlock/Known.antt =====
-- What the steps of `Unlock` of internal/vault/repository.go find: the stored key, and the metadata of the key.
use data_mate.Base.{
  ◌≡◌, ◌≢◌, refl, ◌⊎◌, inl, inr, Bool, true, false, Option, none, some, Text, text_eq_iff, Result,
  ok, err, Error, missing, revision, guard, if◌then◌else◌, arith,
}
use data_mate.Config.Profiles.{Codec}
use data_mate.Config.Database.{Db, KeysetMetadata, no_key, Revision}
use data_mate.Config.Database.Read.{Lease, profile_snapshot}
use data_mate.Config.Database.Keyset.{keyset, save_keyset}
use data_mate.Vault.World.{World, Crypto, after-ends}
use data_mate.Vault.Unlock.{Repository, Calls, expects, loaded, inspect, load_key, repaired}

-- The key that is stored, if any, is the one whose fingerprint the database holds.
abbrev pub Matches : Crypto → Option Text → Option KeysetMetadata → Type 0
Matches crypto none k = Unit {0}
Matches crypto (some raw) none = ⊥
Matches crypto (some raw) (some k) = crypto.fingerprint raw ≡ k.fingerprint

abbrev pub IsKnown : Crypto → World → Type 0
IsKnown crypto w = Matches crypto w.chain w.db.keyset

pub empty-IsKnown : (crypto : Crypto) (w : World) → w.chain ≡ none → IsKnown crypto w
empty-IsKnown crypto w h = rw h tt

pub others-IsKnown :
    (crypto : Crypto) (w : World) (f : Db → Db)
    → ((db : Db) → (f db).keyset ≡ db.keyset)
    → IsKnown crypto w
    → IsKnown crypto (record w { db = f w.db })
others-IsKnown crypto w f h k = rw (h w.db) k

pub either-IsKnown :
    (crypto : Crypto) (b : Bool) (x y : Result (Unit {0}) × Repository × World)
    → IsKnown crypto x.2
    → IsKnown crypto y.2
    → IsKnown crypto (if b then x else y).2
either-IsKnown crypto true x y h k = h
either-IsKnown crypto false x y h k = k

pub gate_cases :
    (r : Result (Unit {0})) → ((e : Error) × (r ≡ err e)) ⊎ ((u : Unit {0}) × (r ≡ ok u))
gate_cases (ok u) = inr (u, refl)
gate_cases (err e) = inl (e, refl)

pub save_keyset-keyset :
    (saves : Bool) (l : Lease) (db : Db) (k : KeysetMetadata) {d : Db}
    → save_keyset saves l db k ≡ ok d
    → d.keyset ≡ some k
unfolding save_keyset
save_keyset-keyset saves l db k h = ground arith

module _ (crypto : Crypto) (codec : Codec) (c : Calls) (create : Bool)
    (expected : Option Revision) where
  pub load_key-world :
      (k : KeysetMetadata) (w : World) → (load_key crypto codec c create expected k w).1 ≡ w
  unfolding load_key loaded
  load_key-world k w = ground arith

  pub load_key-none :
      (k : KeysetMetadata) (w : World)
      → c.load_fails ≢ some missing
      → (k.phase ≡ no_key → w.chain ≡ none)
      → (load_key crypto codec c create expected k w).0 ≡ ok none
      → w.chain ≡ none
  unfolding load_key loaded
  load_key-none k w honest absent h = ground arith

  pub load_key-some :
      (k : KeysetMetadata) (w : World) (raw : Text)
      → (load_key crypto codec c create expected k w).0 ≡ ok (some raw)
      → Matches crypto w.chain (some k)
  unfolding load_key loaded
  load_key-some k w raw h = ground (arith, text_eq_iff (crypto.fingerprint raw) k.fingerprint)

  pub inspect-world : (w : World) → (inspect crypto codec c create expected w).1 ≡ w
  unfolding inspect
  inspect-world w =
      let P : Result (Lease × KeysetMetadata) × World → Type 0 = λ o. o.1 ≡ w in
      after-ends P (if create then c.lifecycle else ok tt) _ w (λ e. refl)
        λ _ _.
          after-ends P c.read_lease _ w (λ e. refl)
            λ l _.
              after-ends P (repaired (keyset l w.db)) _ w (λ e. refl)
                λ k _.
                  after-ends P (profile_snapshot codec l w.db) _ w (λ e. refl)
                    λ s _.
                      after-ends P (guard (expects expected s.1) revision) _ w (λ e. refl)
                        λ _ _. refl

  keyset-absent :
      (l : Lease) (db : Db) (k : KeysetMetadata)
      → repaired (keyset l db) ≡ ok k
      → k.phase ≡ no_key
      → db.keyset ≡ none
  unfolding keyset
  keyset-absent l db k h absent = ground arith

  -- The inspection finds the absent phase only where there is no row of metadata.
  abbrev pub Inspected : Result (Lease × KeysetMetadata) × World → Type 0
  Inspected (err e, w) = Unit {0}
  Inspected (ok (l, k), w) = k.phase ≡ no_key → w.db.keyset ≡ none

  pub inspect-Inspected : (w : World) → Inspected (inspect crypto codec c create expected w)
  unfolding inspect
  inspect-Inspected w =
      after-ends Inspected (if create then c.lifecycle else ok tt) _ w (λ e. tt)
        λ _ _.
          after-ends Inspected c.read_lease _ w (λ e. tt)
            λ l _.
              after-ends Inspected (repaired (keyset l w.db)) _ w (λ e. tt)
                λ k found.
                  after-ends Inspected (profile_snapshot codec l w.db) _ w (λ e. tt)
                    λ s _.
                      after-ends Inspected (guard (expects expected s.1) revision) _ w (λ e. tt)
                        λ _ _. keyset-absent l w.db k found
