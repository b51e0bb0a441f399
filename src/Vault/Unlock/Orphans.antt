-- ===== src/Vault/Unlock/Orphans.antt =====
-- `Unlock` of internal/vault/repository.go never leaves a key that the database does not know.
use data_mate.Base.{
  ◌≡◌, ◌≢◌, refl, ap, subst, ◌∙◌, ok-injective, inl, inr, ◌&&◌, Bool-cases, Bool, true, false,
  Option, none, some, Text, Result, ok, err, Error, missing, repair, revision, unavailable, guard,
  not, arith,
}
use data_mate.Config.Profiles.{Codec}
use data_mate.Config.Database.{Db, KeysetMetadata, no_key, ready, Revision}
use data_mate.Config.Database.Read.{Lease, profile_snapshot}
use data_mate.Config.Database.Keyset.{save_keyset, is_absent}
use data_mate.Vault.World.{World, Crypto, after-ends, stored-ends, stored-last}
use data_mate.Vault.Unlock.{
  Repository, Calls, expects, provided, create_if_absent, intent_of, inspect, load_key, create_key,
  make_key, found_or_made, promote, promote_if, open_key, is_intent, inspected, opened, obtain,
  unlock,
}
use data_mate.Vault.Unlock.Known.{
  Matches, IsKnown, Inspected, empty-IsKnown, others-IsKnown, either-IsKnown, gate_cases,
  save_keyset-keyset, load_key-world, load_key-none, load_key-some, inspect-world,
  inspect-Inspected,
}

module _ (crypto : Crypto) (codec : Codec) (c : Calls) (create : Bool)
    (expected : Option Revision) where
  -- How the making of a key may end.
  abbrev Made : Result (Text × KeysetMetadata) × World → Type 0
  Made (err e, w) = IsKnown crypto w
  Made (ok (raw, k), w) = IsKnown crypto w × Matches crypto w.chain (some k)

  create_key-Made :
      (raw : Text) (k : KeysetMetadata) (w : World)
      → w.chain ≡ none
      → w.db.keyset ≡ some k
      → crypto.fingerprint raw ≡ k.fingerprint
      → Made (create_key crypto codec c create expected raw k w)
  unfolding create_key create_if_absent provided
  create_key-Made raw k w empty saved same = ground arith

  make_key-Made :
      (l : Lease) (w : World) → w.chain ≡ none → Made (make_key crypto codec c create expected l w)
  unfolding make_key
  make_key-Made l w empty =
      let known = λ (e : Error). empty-IsKnown crypto w empty in
      after-ends Made (guard create repair) _ w known λ _ _.
        after-ends Made c.generate _ w known λ raw _.
          let w' = record w { db = c.before_intent w.db } in
          let known' = λ (e : Error). empty-IsKnown crypto w' empty in
          after-ends Made c.intent_lease _ w' known' λ m _.
            after-ends Made (profile_snapshot codec m w'.db) _ w' known' λ s _.
              after-ends Made (guard (expects expected s.1) revision) _ w' known' λ _ _.
                let k = intent_of l (crypto.fingerprint raw) in
                stored-ends Made (save_keyset c.saves m w'.db k) _ w' known' λ d saved.
                  create_key-Made raw k (record w' { db = d }) empty
                    (save_keyset-keyset c.saves m w'.db k saved) refl

  relabel :
      (o : Option Text) (k : KeysetMetadata)
      → Matches crypto o (some k)
      → Matches crypto o (some (record k { phase = ready }))
  relabel none k h = tt
  relabel (some raw) k h = h

  promote-IsKnown :
      (k : KeysetMetadata) (w : World)
      → ((db : Db) → (c.before_ready db).keyset ≡ db.keyset)
      → IsKnown crypto w
      → Matches crypto w.chain (some k)
      → IsKnown crypto (promote crypto codec c create expected k w).1
  unfolding promote
  promote-IsKnown k w quiet known held =
      let P : Result (Unit {0}) × World → Type 0 = λ o. IsKnown crypto o.1 in
      after-ends P (guard create repair) _ w (λ e. known)
        λ _ _.
          let w' = record w { db = c.before_ready w.db } in
          let known' = others-IsKnown crypto w c.before_ready quiet known in
          after-ends P c.ready_lease _ w' (λ e. known')
            λ m _.
              after-ends P (profile_snapshot codec m w'.db) _ w' (λ e. known')
                λ s _.
                  after-ends P (guard (expects expected s.1) revision) _ w' (λ e. known')
                    λ _ _.
                      let k' = record k { phase = ready } in
                      stored-last (IsKnown crypto) (save_keyset c.promotes m w'.db k') w' known'
                        λ d saved.
                          rw (save_keyset-keyset c.promotes m w'.db k' saved)
                            (relabel w.chain k held)

  Made-IsKnown : (o : Result (Text × KeysetMetadata) × World) → Made o → IsKnown crypto o.1
  Made-IsKnown (err e, w) h = h
  Made-IsKnown (ok (raw, k), w) h = h.0

  Made-Matches :
      (o : Result (Text × KeysetMetadata) × World) (a : Text × KeysetMetadata)
      → Made o
      → o.0 ≡ ok a
      → Matches crypto o.1.chain (some a.1)
  Made-Matches (err e, w) a h e' = cc
  Made-Matches (ok (raw, k), w) a h e' =
      subst (λ (b : Text × KeysetMetadata). Matches crypto w.chain (some b.1)) (ok-injective e') h.1

  found_or_made-Made :
      (l : Lease) (k : KeysetMetadata) (w : World) (o : Option Text)
      → IsKnown crypto w
      → (o ≡ none → w.chain ≡ none)
      → ((raw : Text) → o ≡ some raw → Matches crypto w.chain (some k))
      → Made (found_or_made crypto codec c create expected l k o w)
  unfolding found_or_made
  found_or_made-Made l k w none known empty held = make_key-Made l w (empty refl)
  found_or_made-Made l k w (some raw) known empty held = (known, held raw refl)

  promote_if-IsKnown :
      (b : Bool) (k : KeysetMetadata) (w : World)
      → ((db : Db) → (c.before_ready db).keyset ≡ db.keyset)
      → IsKnown crypto w
      → Matches crypto w.chain (some k)
      → IsKnown crypto (promote_if crypto codec c create expected b k w).1
  unfolding promote_if
  promote_if-IsKnown true k w quiet known held = promote-IsKnown k w quiet known held
  promote_if-IsKnown false k w quiet known held = known

  open_key-IsKnown :
      (a : Text × KeysetMetadata) (w : World)
      → ((db : Db) → (c.before_ready db).keyset ≡ db.keyset)
      → IsKnown crypto w
      → Matches crypto w.chain (some a.1)
      → IsKnown crypto (open_key crypto codec c create expected a w).1
  unfolding open_key
  open_key-IsKnown (raw, k) w quiet known held =
      let P : Result (Text × Text) × World → Type 0 = λ o. IsKnown crypto o.1 in
      after-ends P (crypto.parse_keyset raw) _ w (λ e. known)
        λ _ _.
          after-ends P c.parsed_context _ w (λ e. known)
            λ _ _.
              let out = promote_if crypto codec c create expected (is_intent k.phase) k w in
              let known' = promote_if-IsKnown (is_intent k.phase) k w quiet known held in
              after-ends P out.0 _ out.1 (λ e. known')
                λ _ _.
                  after-ends P (guard (not c.closes) unavailable) _ out.1 (λ e. known')
                    λ _ _. after-ends P c.last_context _ out.1 (λ e. known') λ _ _. known'

  obtain-IsKnown :
      (l : Lease) (k : KeysetMetadata) (w : World)
      → c.load_fails ≢ some missing
      → ((db : Db) → (c.before_ready db).keyset ≡ db.keyset)
      → (k.phase ≡ no_key → w.chain ≡ none)
      → IsKnown crypto w
      → IsKnown crypto (obtain crypto codec c create expected l k w).1
  unfolding obtain
  obtain-IsKnown l k w honest quiet absent known =
      let P : Result (Text × Text) × World → Type 0 = λ o. IsKnown crypto o.1 in
      let w₀ = (load_key crypto codec c create expected k w).1 in
      let same = load_key-world crypto codec c create expected k w in
      let known₀ : IsKnown crypto w₀ = rw same known in
      after-ends P (load_key crypto codec c create expected k w).0 _ w₀ (λ e. known₀)
        λ o loads.
          let made =
            found_or_made-Made l k w₀ o known₀
              (λ e.
                rw same (
                  load_key-none crypto codec c create expected k w honest absent (loads ∙ ap ok e)))
              (λ raw e.
                rw same (load_key-some crypto codec c create expected k w raw (loads ∙ ap ok e))) in
          let out = found_or_made crypto codec c create expected l k o w₀ in
          let known₁ = Made-IsKnown out made in
          after-ends P out.0 _ out.1 (λ e. known₁)
            λ a done. open_key-IsKnown a out.1 quiet known₁ (Made-Matches out a made done)

  no_row : (o : Option Text) (k : Option KeysetMetadata) → Matches crypto o k → k ≡ none → o ≡ none
  no_row none k h e = refl
  no_row (some raw) k h e = absurd (rw e at h)

  inspected-IsKnown :
      (r : Repository) (o : Result (Lease × KeysetMetadata) × World)
      → c.load_fails ≢ some missing
      → ((db : Db) → (c.before_ready db).keyset ≡ db.keyset)
      → Inspected crypto codec c create expected o
      → IsKnown crypto o.1
      → IsKnown crypto (inspected crypto codec c create expected r o.0 o.1).2
  unfolding inspected
  inspected-IsKnown r (err e, w) honest quiet found known = known
  inspected-IsKnown r (ok (l, k), w) honest quiet found known =
      elim (Bool-cases (is_absent k.phase && not create)) [
        | inl e ↦ rw (e, inspected) known
        | inr e ↦
            rw (e, inspected)
              (obtain-IsKnown l k w honest quiet (λ p. no_row w.chain w.db.keyset known (found p))
                known)
      ]

  opened-IsKnown :
      (r : Repository) (o : Option Text) (w : World)
      → c.load_fails ≢ some missing
      → ((db : Db) → (c.before_ready db).keyset ≡ db.keyset)
      → IsKnown crypto w
      → IsKnown crypto (opened crypto codec c create expected r o w).2
  unfolding opened
  opened-IsKnown r (some raw) w honest quiet known = known
  opened-IsKnown r none w honest quiet known =
      inspected-IsKnown r (inspect crypto codec c create expected w) honest quiet
        (inspect-Inspected crypto codec c create expected w)
        (rw (inspect-world crypto codec c create expected w) known)

-- However an `Unlock` ends, with any errors of the calls outside, a key that is then stored is the one
-- whose fingerprint the database holds, if that was so before; the key store must not deny a key
-- that it holds, and other processes must leave the metadata of the key alone once the inspection
-- is past the creation of the key. Nothing but this `Unlock` changes the key store.
pub unlock-IsKnown :
    (crypto : Crypto) (codec : Codec) (c : Calls) (create : Bool) (expected : Option Revision)
    (r : Repository) (w : World)
    → c.load_fails ≢ some missing
    → ((db : Db) → (c.before_ready db).keyset ≡ db.keyset)
    → IsKnown crypto w
    → IsKnown crypto (unlock crypto codec c create expected r w).2
unfolding unlock
unlock-IsKnown crypto codec c create expected r w honest quiet known = elim (gate_cases c.gate) [
  | inl (e, g) ↦ rw (g, unlock) known
  | inr (u, g) ↦
      rw (g, unlock)
        (either-IsKnown crypto r.closed (err unavailable, r, w)
          (opened crypto codec c create expected r r.primitive w) known
          (opened-IsKnown crypto codec c create expected r r.primitive w honest quiet known))
]
