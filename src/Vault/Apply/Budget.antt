-- ===== src/Vault/Apply/Budget.antt =====
-- What the loop of `Apply` in internal/vault/repository.go does to the database: it only reserves
-- encryptions, one for each ciphertext that it makes.
use data_mate.Base.{
  ℕ, suc, ◌+◌, ◌≤◌, ◌⊎◌, ◌≡◌, refl, ◌∙◌, Bool, true, false, Bool-cases, inl, inr, Option, none,
  some, List, [], ◌∷◌, ◌++◌, text_eq, length, zero, take, sym, ap, Option-cases, ltb, leb, subst,
  ok-injective, Result, ok, err, Error, repair, limit, binding, guard, arith,
}
use data_mate.Config.Profile.{Profile}
use data_mate.Config.Database.{Db, Ciphertext, KeysetMetadata}
use data_mate.Config.Database.Read.{Lease}
use data_mate.Config.Database.Keyset.{keyset, save_keyset, max_reservations, is_absent, zero_keyset}
use data_mate.Vault.World.{World, Crypto, after-ends, stored}
use data_mate.Vault.Secrets.{Secrets, no_secrets, valid}
use data_mate.Vault.Unlock.{Repository}
use data_mate.Vault.Credential.{Encoding, aad, cipher, max_plaintext_bytes}
use data_mate.Vault.Apply.{
  Mutation, Turn, before_of, old_ref, same_secrets, replacement, kept, reserve, encrypt, reseal,
  apply_one, apply_each, referring, own_keyset, encrypted,
}

length-++ {ℓ} : {A : Type ℓ} (xs ys : List A) → length (xs ++ ys) ≡ length xs + length ys
length-++ [] ys = omega arith
length-++ (x ∷ xs) ys = omega (arith, length-++ xs ys)

-- How many encryptions the metadata has reserved.
abbrev pub reserved : Option KeysetMetadata → ℕ
reserved none = 0
reserved (some k) = k.reserved

abbrev as_read : KeysetMetadata → KeysetMetadata
as_read k = record k { account = take 65 k.account; fingerprint = take 65 k.fingerprint }

-- The metadata as `Keyset` reads it, but for its count.
abbrev pub uncounted : Option KeysetMetadata → Option KeysetMetadata
uncounted none = none
uncounted (some k) = some (record (as_read k) { reserved = 0 })

-- What one reservation, or many, may change: of the metadata, the count alone.
pub record IsFramed (v w : World) : Type 0 where
  pub installation : w.db.installation ≡ v.db.installation
  pub profiles : w.db.profiles ≡ v.db.profiles
  pub bundles : w.db.bundles ≡ v.db.bundles
  pub chain : w.chain ≡ v.chain
  pub metadata : uncounted w.db.keyset ≡ uncounted v.db.keyset
  pub hosts : w.hosts ≡ v.hosts
  pub grows : reserved v.db.keyset ≤ reserved w.db.keyset
  pub bounded :
      (reserved w.db.keyset ≡ reserved v.db.keyset) ⊎ (reserved w.db.keyset ≤ max_reservations)

pub IsFramed-refl : (w : World) → IsFramed w w
IsFramed-refl w = record {
  installation = refl;
  profiles = refl;
  bundles = refl;
  chain = refl;
  metadata = refl;
  hosts = refl;
  grows = omega arith;
  bounded = inl refl;
}

IsFramed-trans : {u v w : World} → IsFramed u v → IsFramed v w → IsFramed u w
IsFramed-trans a b = record {
  installation = b.installation ∙ a.installation;
  profiles = b.profiles ∙ a.profiles;
  bundles = b.bundles ∙ a.bundles;
  chain = b.chain ∙ a.chain;
  metadata = b.metadata ∙ a.metadata;
  hosts = b.hosts ∙ a.hosts;
  grows = omega (arith, a.grows, b.grows);
  bounded = ground (arith, a.bounded, b.bounded);
}

-- An end of a part of the loop, which began in `v`: on success each ciphertext was reserved.
abbrev pub Spent {ℓ} : {A : Type ℓ} → World → Result (A × List Ciphertext) × World → Type 0
Spent v (err e, w) = IsFramed v w
Spent v (ok (a, made), w) =
    IsFramed v w × (reserved w.db.keyset ≡ reserved v.db.keyset + length made)

guard-true : (b : Bool) (e : Error) → guard b e ≡ ok tt → b ≡ true
guard-true true e h = refl
guard-true false e h = cc

take_twice {ℓ} : {A : Type ℓ} (n : ℕ) (xs : List A) → take n (take n xs) ≡ take n xs
take_twice zero xs = refl
take_twice (suc n) [] = refl
take_twice (suc n) (x ∷ xs) = ap (λ ys. x ∷ ys) (take_twice n xs)

module _ (crypto : Crypto) (enc : Encoding) (r : Repository) (l : Lease) where
  keyset-row :
      (db : Db) (k : KeysetMetadata)
      → own_keyset (keyset l db) ≡ ok k
      → reserved db.keyset ≡ k.reserved
  unfolding keyset
  keyset-row db k h = ground arith

  -- What is saved for the next reservation differs from what was read in the count alone.
  keyset-uncounted :
      (db : Db) (k : KeysetMetadata)
      → own_keyset (keyset l db) ≡ ok k
      → is_absent k.phase ≡ false
      → uncounted (some k) ≡ uncounted db.keyset
  unfolding keyset
  keyset-uncounted db k h there = elim (Option-cases db.keyset) [
    | inl nothing ↦
        let same : zero_keyset ≡ k = ground (arith, nothing) in
        let wrong : is_absent zero_keyset.phase ≡ false =
          subst (λ x. is_absent x.phase ≡ false) (sym same) there in
        cc
    | inr (row, found) ↦
        let same : as_read row ≡ k = ground (arith, found) in
        let kept_row : uncounted (some (as_read row)) ≡ uncounted (some row) = λ t.
          some (record row {
            account = take_twice 65 row.account t;
            fingerprint = take_twice 65 row.fingerprint t;
            reserved = 0;
          }) in
        subst (λ x. uncounted (some x) ≡ uncounted db.keyset) same
          (kept_row ∙ ap uncounted (sym found))
  ]

  save_keyset-phase :
      (saves : Bool) (db : Db) (k : KeysetMetadata) (d : Db)
      → save_keyset saves l db k ≡ ok d
      → is_absent k.phase ≡ false
  unfolding save_keyset
  save_keyset-phase saves db k d h = ground arith

  -- A reservation that succeeds adds one, and never passes the limit.
  abbrev Reserved : World → Result (Unit {0}) × World → Type 0
  Reserved v (err e, w) = IsFramed v w
  Reserved v (ok u, w) = IsFramed v w × (reserved w.db.keyset ≡ suc (reserved v.db.keyset))

  save_keyset-row :
      (saves : Bool) (db : Db) (k : KeysetMetadata) (d : Db)
      → save_keyset saves l db k ≡ ok d
      → record db { keyset = some k } ≡ d
  unfolding save_keyset
  save_keyset-row saves db k d h = ground arith

  one_more :
      (w : World) (k : KeysetMetadata)
      → own_keyset (keyset l w.db) ≡ ok k
      → ltb k.reserved max_reservations ≡ true
      → is_absent k.phase ≡ false
      → Reserved w (
        ok tt,
        record w { db = record w.db { keyset = some (record k { reserved = suc k.reserved }) } },
      )
  one_more w k row below there =
      let same = keyset-row w.db k row in
      let under : suc k.reserved ≤ max_reservations = ground (arith, below) in
      (
        record {
          installation = refl;
          profiles = refl;
          bundles = refl;
          chain = refl;
          metadata = keyset-uncounted w.db k row there;
          hosts = refl;
          grows = omega (arith, same);
          bounded = inr under;
        },
        omega (arith, same),
      )

  reserve-Reserved : (t : Turn) (w : World) → Reserved w (reserve crypto enc r l t w)
  unfolding reserve
  reserve-Reserved t w =
      let P = Reserved w in
      let framed = λ (e : Error). IsFramed-refl w in
      after-ends P (own_keyset (keyset l w.db)) _ w framed λ k row.
        after-ends P (guard (ltb k.reserved max_reservations) limit) _ w framed λ _ below.
          reserved_by k (save_keyset t.reserves l w.db (record k { reserved = suc k.reserved })) row
            (guard-true _ limit below)
            (λ d e.
              (save_keyset-row t.reserves w.db _ d e, save_keyset-phase t.reserves w.db _ d e))
    where
      reserved_by :
          (k : KeysetMetadata) (s : Result Db)
          → own_keyset (keyset l w.db) ≡ ok k
          → ltb k.reserved max_reservations ≡ true
          → ((d : Db)
              → s ≡ ok d
              → (record w.db { keyset = some (record k { reserved = suc k.reserved }) } ≡ d)
                × (is_absent k.phase ≡ false))
          → Reserved w (stored w s)
      reserved_by k (err e) row below same = IsFramed-refl w
      reserved_by k (ok d) row below same =
          subst (λ (d : Db). Reserved w (ok tt, record w { db = d })) (same d refl).0
            (one_more w k row below (same d refl).1)

  Reserved-IsFramed : (v : World) (o : Result (Unit {0}) × World) → Reserved v o → IsFramed v o.1
  Reserved-IsFramed v (err e, w) h = h
  Reserved-IsFramed v (ok u, w) h = h.0

  Reserved-count :
      (v : World) (o : Result (Unit {0}) × World) (u : Unit {0})
      → Reserved v o
      → o.0 ≡ ok u
      → reserved o.1.db.keyset ≡ suc (reserved v.db.keyset)
  Reserved-count v (err e, w) u h done = cc
  Reserved-count v (ok x, w) u h done = h.1

  encrypt-Spent :
      (t : Turn) (c : Profile) (s : Secrets) (w : World) → Spent w (encrypt crypto enc r l t c s w)
  unfolding encrypt
  encrypt-Spent t c s w =
      let P : Result (Profile × List Ciphertext) × World → Type 0 = Spent w in
      let framed = λ (e : Error). IsFramed-refl w in
      after-ends P (cipher r (keyset l w.db)) _ w framed λ raw _.
        after-ends P t.new_id _ w framed λ ref _.
          after-ends P (guard (leb (length (enc.print_bundle s)) max_plaintext_bytes) repair) _ w
            framed
            λ _ _.
              let out = reserve crypto enc r l t w in
              let held = reserve-Reserved t w in
              let framed₁ = λ (e : Error). Reserved-IsFramed w out held in
              after-ends P out.0 _ out.1 framed₁ λ u done.
                after-ends P t.after_reservation _ out.1 framed₁ λ _ _.
                  after-ends P t.context _ out.1 framed₁ λ _ _.
                    let c' = referring c ref in
                    let sealing =
                      crypto.encrypt raw t.nonce (enc.print_bundle s) (aad enc l.identity c' 1) in
                    after-ends P (encrypted sealing) _ out.1 framed₁ λ payload _.
                      after-ends P t.after_encryption _ out.1 framed₁ λ _ _. (
                        Reserved-IsFramed w out held,
                        omega (arith, Reserved-count w out u held done),
                      )

  reseal-Spent :
      (t : Turn) (c : Profile) (s : Option Secrets) (w : World)
      → Spent w (reseal crypto enc r l t c s w)
  unfolding reseal
  reseal-Spent t c none w =
      let P : Result (Profile × List Ciphertext) × World → Type 0 = Spent w in
      after-ends P (kept crypto enc r l w.db c) _ w (λ _. IsFramed-refl w)
        λ _ _. (IsFramed-refl w, omega arith)
  reseal-Spent t c (some s) w = elim (Bool-cases (valid enc.utf8 s)) [
    | inl fine ↦ elim (Bool-cases (same_secrets s no_secrets)) [
      | inl empty ↦ rw (fine, empty, reseal) (IsFramed-refl w, omega arith)
      | inr full ↦ rw (fine, full, reseal) (encrypt-Spent t c s w)
    ]
    | inr bad ↦ rw (bad, reseal) (IsFramed-refl w)
  ]

  apply_one-Spent :
      (m : Mutation) (previous : List Profile) (t : Turn) (c : Profile) (w : World)
      → Spent w (apply_one crypto enc r l m previous t c w)
  unfolding apply_one
  apply_one-Spent m previous t c w =
      let P : Result (Profile × List Ciphertext) × World → Type 0 = Spent w in
      let framed = λ (e : Error). IsFramed-refl w in
      let before = before_of previous c in
      after-ends P (guard (text_eq c.credential_ref (old_ref before)) binding) _ w framed λ _ _.
        after-ends P (replacement crypto enc r l m w.db before c) _ w framed
          λ s _. reseal-Spent t c s w

  pub Spent-IsFramed {ℓ} :
      {A : Type ℓ} (v : World) (o : Result (A × List Ciphertext) × World)
      → Spent v o
      → IsFramed v o.1
  Spent-IsFramed v (err e, w) h = h
  Spent-IsFramed v (ok a, w) h = h.0

  Spent-count {ℓ} :
      {A : Type ℓ} (v : World) (o : Result (A × List Ciphertext) × World) (a : A × List Ciphertext)
      → Spent v o
      → o.0 ≡ ok a
      → reserved o.1.db.keyset ≡ reserved v.db.keyset + length a.1
  Spent-count v (err e, w) a h done = cc
  Spent-count {A = A} v (ok b, w) a h done =
      subst (λ (x : A × List Ciphertext). reserved w.db.keyset ≡ reserved v.db.keyset + length x.1)
        (ok-injective done) h.1

  -- One profile's part and the rest of the loop, put together.
  Spent-trans :
      {v w : World} (a : List Ciphertext)
      → IsFramed v w
      → (reserved w.db.keyset ≡ reserved v.db.keyset + length a)
      → (o : Result (List Profile × List Ciphertext) × World) (x : List Profile × List Ciphertext)
      → Spent w o
      → o.0 ≡ ok x
      → reserved o.1.db.keyset ≡ reserved v.db.keyset + length (a ++ x.1)
  Spent-trans a framed count o x spent done =
      omega (arith, count, Spent-count _ o x spent done, length-++ a x.1)

  -- The loop of an `Apply` over the profiles, however it ends and with any errors of the calls
  -- outside, changes nothing but the metadata of the key, and of what `Keyset` reads there nothing but
  -- the count; the count of reserved encryptions
  -- only grows and does not come to pass the limit of one million; and where the loop succeeds, the
  -- count has grown by exactly the number of the ciphertexts that were made.
  pub apply_each-Spent :
      (m : Mutation) (previous : List Profile) (turns : Profile → Turn) (cs : List Profile)
      (w : World)
      → Spent w (apply_each crypto enc r l m previous turns cs w)
  unfolding apply_each
  apply_each-Spent m previous turns [] w = (IsFramed-refl w, omega arith)
  apply_each-Spent m previous turns (c ∷ cs) w =
      let P : Result (List Profile × List Ciphertext) × World → Type 0 = Spent w in
      let out = apply_one crypto enc r l m previous (turns c) c w in
      let spent = apply_one-Spent m previous (turns c) c w in
      let framed = Spent-IsFramed w out spent in
      after-ends P out.0 _ out.1 (λ _. framed)
        λ a done.
          let rest = apply_each crypto enc r l m previous turns cs out.1 in
          let spent' = apply_each-Spent m previous turns cs out.1 in
          let framed' = IsFramed-trans framed (Spent-IsFramed out.1 rest spent') in
          after-ends P rest.0 _ rest.1 (λ _. framed')
            λ b done'.
              (framed', Spent-trans a.1 framed (Spent-count w out a spent done) rest b spent' done')
