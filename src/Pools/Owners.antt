-- ===== src/Pools/Owners.antt =====
-- An operation runs on connections that were made with its own access.
use data_mate.Base.{
  ℕ, ◌≡◌, refl, subst, Bool, not, ◌&&◌, some, List, [], ◌∷◌, Text, All, find, keep, ltb, ◌==◌,
  Bool-cases, Option-cases, some-injective, inl, inr,
}
use data_mate.Pools.{
  max_connections, framed, Op, Conn, Pool, holders, retire, without, with_number, take_slot,
  abandon, open_idle, pick, dial, holder, give_back,
}

module _ {A : Type 0} (P : A → Type 0) (f : A → Bool) where
  keep-All : (xs : List A) → All P xs → All P (keep f xs)
  unfolding keep
  keep-All [] v = tt
  keep-All (x ∷ xs) v = elim (Bool-cases (f x)) [
    | inl stays ↦ rw (keep, stays) ((v.0, keep-All xs v.1))
    | inr goes ↦ rw (keep, goes) (keep-All xs v.1)
  ]

  find-All : (xs : List A) (x : A) → All P xs → find f xs ≡ some x → P x
  unfolding find
  find-All [] x v h = cc
  find-All (y ∷ ys) x v h = elim (Bool-cases (f y)) [
    | inl here ↦ subst P (some-injective (rw (find, here) at h)) v.0
    | inr apart ↦ find-All ys x v.1 (rw (find, apart) at h)
  ]

-- `Known` holds of the values of all operations.
module _ (mac : Text → Text) (Known : List Text → Type 0) where
  abbrev pub Made : Text → List Text → Type 0
  Made fp values = (mac (framed values) ≡ fp) × Known values

  -- The operations and the connections of a pool have its fingerprint.
  pub record IsOwned (p : Pool) : Type 0 where
    pub waiting : All (λ (o : Op). Made p.fingerprint o.values) p.waiting
    pub slotted : All (λ (o : Op). Made p.fingerprint o.values) p.slotted
    pub dialing : All (λ (o : Op). Made p.fingerprint o.values) p.dialing
    pub idle : All (λ (c : Conn). Made p.fingerprint c.values) p.idle
    pub busy :
        All
          (λ (b : Op × Conn). Made p.fingerprint b.0.values × Made p.fingerprint b.1.values)
          p.busy

  without-All :
      (fp : Text) (k : ℕ) (ops : List Op)
      → All (λ (o : Op). Made fp o.values) ops
      → All (λ (o : Op). Made fp o.values) (without k ops)
  without-All fp k ops = keep-All (λ (o : Op). Made fp o.values) (λ o. not (o.number == k)) ops

  with_number-All :
      (fp : Text) (k : ℕ) (ops : List Op) (op : Op)
      → All (λ (o : Op). Made fp o.values) ops
      → with_number k ops ≡ some op
      → Made fp op.values
  with_number-All fp k ops op = find-All (λ (o : Op). Made fp o.values) (λ o. o.number == k) ops op

  pub take_slot-IsOwned : (k : ℕ) (p : Pool) → IsOwned p → IsOwned (take_slot k p)
  unfolding take_slot
  take_slot-IsOwned k p v = elim (Option-cases (with_number k p.waiting)) [
    | inl nothing ↦ rw (take_slot, nothing) v
    | inr (op, found) ↦ elim (Bool-cases (ltb (holders p) max_connections)) [
      | inr full ↦ rw (take_slot, found, full) v
      | inl free ↦
          rw (take_slot, found, free)
            (record {
              waiting = without-All p.fingerprint k p.waiting v.waiting;
              slotted = (with_number-All p.fingerprint k p.waiting op v.waiting found, v.slotted);
              dialing = v.dialing;
              idle = v.idle;
              busy = v.busy;
            })
    ]
  ]

  pub abandon-IsOwned : (k : ℕ) (p : Pool) → IsOwned p → IsOwned (abandon k p)
  unfolding abandon
  abandon-IsOwned k p v = record {
    waiting = without-All p.fingerprint k p.waiting v.waiting;
    slotted = v.slotted;
    dialing = v.dialing;
    idle = v.idle;
    busy = v.busy;
  }

  open_idle-All :
      (fp : Text) (is_closed : Conn → Bool) (cs : List Conn)
      → All (λ (c : Conn). Made fp c.values) cs
      → All (λ (c : Conn). Made fp c.values) (open_idle is_closed cs)
  unfolding open_idle
  open_idle-All fp is_closed [] v = tt
  open_idle-All fp is_closed (c ∷ cs) v = elim (Bool-cases (is_closed c)) [
    | inl dead ↦ rw (open_idle, dead) (open_idle-All fp is_closed cs v.1)
    | inr alive ↦ rw (open_idle, alive) v
  ]

  pub pick-IsOwned :
      (is_closed : Conn → Bool) (k : ℕ) (p : Pool) → IsOwned p → IsOwned (pick is_closed k p)
  unfolding pick
  pick-IsOwned is_closed k p v = elim (Option-cases (with_number k p.slotted)) [
    | inl nothing ↦ rw (pick, nothing) v
    | inr (op, found) ↦
        look op found (open_idle is_closed p.idle) refl
          (open_idle-All p.fingerprint is_closed p.idle v.idle)
  ]
    where
      look :
          (op : Op)
          → with_number k p.slotted ≡ some op
          → (cs : List Conn) → open_idle is_closed p.idle ≡ cs
          → All (λ (c : Conn). Made p.fingerprint c.values) cs
          → IsOwned (pick is_closed k p)
      look op found [] e w =
          rw (pick, found, e)
            (record {
              waiting = v.waiting;
              slotted = without-All p.fingerprint k p.slotted v.slotted;
              dialing = (with_number-All p.fingerprint k p.slotted op v.slotted found, v.dialing);
              idle = tt;
              busy = v.busy;
            })
      look op found (c ∷ cs) e w =
          rw (pick, found, e)
            (record {
              waiting = v.waiting;
              slotted = without-All p.fingerprint k p.slotted v.slotted;
              dialing = v.dialing;
              idle = w.1;
              busy = ((with_number-All p.fingerprint k p.slotted op v.slotted found, w.0), v.busy);
            })

  pub dial-IsOwned : (works : Bool) (n k : ℕ) (p : Pool) → IsOwned p → IsOwned (dial works n k p)
  unfolding dial
  dial-IsOwned works n k p v = elim (Option-cases (with_number k p.dialing)) [
    | inl nothing ↦ rw (dial, nothing) v
    | inr (op, found) ↦
        let own = with_number-All p.fingerprint k p.dialing op v.dialing found in
        let left = without-All p.fingerprint k p.dialing v.dialing in
        elim (Bool-cases works) [
          | inl good ↦
              rw (dial, found, good)
                (record {
                  waiting = v.waiting;
                  slotted = v.slotted;
                  dialing = left;
                  idle = v.idle;
                  busy = ((own, own), v.busy);
                })
          | inr bad ↦
              rw (dial, found, bad)
                (record {
                  waiting = v.waiting;
                  slotted = v.slotted;
                  dialing = left;
                  idle = v.idle;
                  busy = v.busy;
                })
        ]
  ]

  pub give_back-IsOwned :
      (closed healthy : Bool) (k : ℕ) (p : Pool)
      → IsOwned p
      → IsOwned (give_back closed healthy k p)
  unfolding give_back
  give_back-IsOwned closed healthy k p v = elim (Option-cases (holder k p.busy)) [
    | inl nothing ↦ rw (give_back, nothing) v
    | inr (b, found) ↦
        let own = find-All Both (λ c. c.0.number == k) p.busy b v.busy found in
        let left = keep-All Both (λ c. not (c.0.number == k)) p.busy v.busy in
        elim (Bool-cases (healthy && p.kept && not closed)) [
          | inl good ↦
              rw (give_back, found, good)
                (record {
                  waiting = v.waiting;
                  slotted = v.slotted;
                  dialing = v.dialing;
                  idle = (own.1, v.idle);
                  busy = left;
                })
          | inr bad ↦
              rw (give_back, found, bad)
                (record {
                  waiting = v.waiting;
                  slotted = v.slotted;
                  dialing = v.dialing;
                  idle = v.idle;
                  busy = left;
                })
        ]
  ]
    where
      Both : Op × Conn → Type 0
      Both b = Made p.fingerprint b.0.values × Made p.fingerprint b.1.values

  pub retire-IsOwned : (p : Pool) → IsOwned p → IsOwned (retire p)
  unfolding retire
  retire-IsOwned p v = record {
    waiting = v.waiting;
    slotted = v.slotted;
    dialing = v.dialing;
    idle = tt;
    busy = v.busy;
  }
