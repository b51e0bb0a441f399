-- ===== src/Pools/Bounds.antt =====
-- What the pools keep to at every step: eight connections, eight slots, one pool of a profile, sixteen
-- pools, and nothing idle in a pool that is retired.
use data_mate.Base.{
  ℕ, ◌+◌, ◌≤◌, ◌<◌, ◌≡◌, refl, Bool, true, not, ◌&&◌, ◌||◌, some, List, [], ◌∷◌, length, find, keep,
  ltb, ◌==◌, Bool-cases, Option-cases, inl, inr, arith,
}
use data_mate.Pools.{
  max_connections, Op, Conn, Pool, holders, without, with_number, take_slot, open_idle, pick, dial,
  holder, give_back,
}

pub record IsSmall (p : Pool) : Type 0 where
  pub slots : holders p ≤ max_connections
  pub connections : length p.idle + length p.dialing + length p.busy ≤ max_connections
  pub retired : p.kept || (length p.idle == 0) ≡ true

module _ {A : Type 0} (f : A → Bool) where
  length-keep_le : (xs : List A) → length (keep f xs) ≤ length xs
  unfolding keep
  length-keep_le [] = omega arith
  length-keep_le (x ∷ xs) = ground (arith, length-keep_le xs)

  -- One that is found is taken out.
  length-keep_found :
      (xs : List A) (x : A) → find f xs ≡ some x → length (keep (λ y. not (f y)) xs) < length xs
  unfolding find keep
  length-keep_found [] x h = cc
  length-keep_found (y ∷ ys) x h = elim (Bool-cases (f y)) [
    | inl here ↦ let less = keep_not_le ys in ground (arith, here, less)
    | inr apart ↦ ground (arith, apart, length-keep_found ys x (rw (find, apart) at h))
  ]
    where
      keep_not_le : (zs : List A) → length (keep (λ y. not (f y)) zs) ≤ length zs
      keep_not_le [] = omega arith
      keep_not_le (z ∷ zs) = ground (arith, keep_not_le zs)

pub take_slot-IsSmall : (k : ℕ) (p : Pool) → IsSmall p → IsSmall (take_slot k p)
unfolding take_slot
take_slot-IsSmall k p v = elim (Option-cases (with_number k p.waiting)) [
  | inl nothing ↦ rw (take_slot, nothing) v
  | inr (op, found) ↦ elim (Bool-cases (ltb (holders p) max_connections)) [
    | inr full ↦ rw (take_slot, found, full) v
    | inl free ↦
        rw (take_slot, found, free)
          (record {
            slots = ground (arith, free);
            connections = v.connections;
            retired = v.retired;
          })
  ]
]

open_idle_le :
    (is_closed : Conn → Bool) (cs : List Conn) → length (open_idle is_closed cs) ≤ length cs
unfolding open_idle
open_idle_le is_closed [] = omega arith
open_idle_le is_closed (c ∷ cs) = ground (arith, open_idle_le is_closed cs)

pub pick-IsSmall :
    (is_closed : Conn → Bool) (k : ℕ) (p : Pool) → IsSmall p → IsSmall (pick is_closed k p)
unfolding pick
pick-IsSmall is_closed k p v = elim (Option-cases (with_number k p.slotted)) [
  | inl nothing ↦ rw (pick, nothing) v
  | inr (op, found) ↦
      let fewer = length-keep_found (λ (o : Op). o.number == k) p.slotted op found in
      let less = open_idle_le is_closed p.idle in
      look op found fewer (open_idle is_closed p.idle) refl less
]
  where
    look :
        (op : Op)
        → with_number k p.slotted ≡ some op
        → length (without k p.slotted) < length p.slotted
        → (cs : List Conn) → open_idle is_closed p.idle ≡ cs
        → length cs ≤ length p.idle
        → IsSmall (pick is_closed k p)
    look op found fewer [] e less =
        rw (pick, found, e)
          (record {
            slots = omega (arith, v.slots, fewer);
            connections = omega (arith, v.slots, fewer);
            retired = ground arith;
          })
    look op found fewer (c ∷ cs) e less =
        rw (pick, found, e)
          (record {
            slots = omega (arith, v.slots, fewer);
            connections = omega (arith, v.connections, less);
            retired = ground (arith, v.retired, less);
          })

pub dial-IsSmall : (works : Bool) (n k : ℕ) (p : Pool) → IsSmall p → IsSmall (dial works n k p)
unfolding dial
dial-IsSmall works n k p v = elim (Option-cases (with_number k p.dialing)) [
  | inl nothing ↦ rw (dial, nothing) v
  | inr (op, found) ↦
      let fewer = length-keep_found (λ (o : Op). o.number == k) p.dialing op found in
      elim (Bool-cases works) [
        | inl good ↦
            rw (dial, found, good)
              (record {
                slots = omega (arith, v.slots, fewer);
                connections = omega (arith, v.connections, fewer);
                retired = v.retired;
              })
        | inr bad ↦
            rw (dial, found, bad)
              (record {
                slots = omega (arith, v.slots, fewer);
                connections = omega (arith, v.connections, fewer);
                retired = v.retired;
              })
      ]
]

pub give_back-IsSmall :
    (closed healthy : Bool) (k : ℕ) (p : Pool) → IsSmall p → IsSmall (give_back closed healthy k p)
unfolding give_back
give_back-IsSmall closed healthy k p v = elim (Option-cases (holder k p.busy)) [
  | inl nothing ↦ rw (give_back, nothing) v
  | inr (b, found) ↦
      let fewer = length-keep_found (λ (c : Op × Conn). c.0.number == k) p.busy b found in
      elim (Bool-cases (healthy && p.kept && not closed)) [
        | inl good ↦
            rw (give_back, found, good)
              (record {
                slots = omega (arith, v.slots, fewer);
                connections = omega (arith, v.connections, fewer);
                retired = ground (arith, good);
              })
        | inr bad ↦
            rw (give_back, found, bad)
              (record {
                slots = omega (arith, v.slots, fewer);
                connections = omega (arith, v.connections, fewer);
                retired = v.retired;
              })
      ]
]
