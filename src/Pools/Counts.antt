-- ===== src/Pools/Counts.antt =====
-- How the steps change the number of the pools that are kept.
use data_mate.Base.{
  ℕ, ◌+◌, ◌≤◌, ◌≡◌, refl, Bool, List, [], ◌∷◌, Text, All, if◌then◌else◌, Bool-cases, inl, inr,
  arith,
}
use data_mate.Pools.{
  max_pools, Op, Conn, Pool, retire, is_for, change_if, retire_if, count_kept, attach, take_slot,
  abandon, pick, dial, give_back,
}
use data_mate.Pools.Bounds.{
  IsSmall, take_slot-IsSmall, pick-IsSmall, dial-IsSmall, give_back-IsSmall,
}

abbrev pub count_for : Text → List Pool → ℕ
count_for id [] = 0
count_for id (p ∷ ps) = (if is_for id p then 1 else 0) + count_for id ps

-- The map is a function of the profile's identity.
pub record IsMap (ps : List Pool) : Type 0 where
  pub few : count_kept ps ≤ max_pools
  pub unique : (id : Text) → count_for id ps ≤ 1
  pub small : All IsSmall ps

-- A change of a pool that the map does not see.
abbrev pub IsHidden : (Pool → Pool) → Type 0
IsHidden f =
    (p : Pool) → IsSmall p → IsSmall (f p) × ((f p).kept ≡ p.kept) × ((f p).profile ≡ p.profile)

pub take_slot-IsHidden : (k : ℕ) → IsHidden (take_slot k)
unfolding take_slot
take_slot-IsHidden k p v = (take_slot-IsSmall k p v, ground arith, ground arith)

pub pick-IsHidden : (is_closed : Conn → Bool) (k : ℕ) → IsHidden (pick is_closed k)
unfolding pick
pick-IsHidden is_closed k p v = (pick-IsSmall is_closed k p v, ground arith, ground arith)

pub dial-IsHidden : (works : Bool) (n k : ℕ) → IsHidden (dial works n k)
unfolding dial
dial-IsHidden works n k p v = (dial-IsSmall works n k p v, ground arith, ground arith)

pub give_back-IsHidden : (closed healthy : Bool) (k : ℕ) → IsHidden (give_back closed healthy k)
unfolding give_back
give_back-IsHidden closed healthy k p v =
    (give_back-IsSmall closed healthy k p v, ground arith, ground arith)

pub abandon-IsHidden : (k : ℕ) → IsHidden (abandon k)
unfolding abandon
abandon-IsHidden k p v =
    (record { slots = v.slots; connections = v.connections; retired = v.retired }, refl, refl)

pub attach-IsHidden : (op : Op) → IsHidden (attach op)
unfolding attach
attach-IsHidden op p v =
    (record { slots = v.slots; connections = v.connections; retired = v.retired }, refl, refl)

retire-IsSmall : (p : Pool) → IsSmall p → IsSmall (retire p)
unfolding retire
retire-IsSmall p v = record {
  slots = v.slots;
  connections = omega (arith, v.slots);
  retired = ground arith;
}

module _ (test : Pool → Bool) where
  change_if-IsSmall :
      (f : Pool → Pool) (ps : List Pool)
      → ((p : Pool) → IsSmall p → IsSmall (f p))
      → All IsSmall ps
      → All IsSmall (change_if test f ps)
  unfolding change_if
  change_if-IsSmall f [] g v = tt
  change_if-IsSmall f (p ∷ ps) g v = elim (Bool-cases (test p)) [
    | inl hit ↦ rw (change_if, hit) ((g p v.0, change_if-IsSmall f ps g v.1))
    | inr miss ↦ rw (change_if, miss) ((v.0, change_if-IsSmall f ps g v.1))
  ]

  pub change_if-kept :
      (f : Pool → Pool) (ps : List Pool)
      → IsHidden f
      → All IsSmall ps
      → (count_kept (change_if test f ps) ≡ count_kept ps)
        × ((id : Text) → count_for id (change_if test f ps) ≡ count_for id ps)
  unfolding change_if count_kept
  change_if-kept f [] g v = (refl, λ id. refl)
  change_if-kept f (p ∷ ps) g v =
      let rest = change_if-kept f ps g v.1 in
      elim (Bool-cases (test p)) [
        | inr miss ↦ rw (change_if, miss) ((omega (arith, rest.0), λ id. omega (arith, rest.1 id)))
        | inl hit ↦
            let h = g p v.0 in
            rw (change_if, hit, h.1, h.2) ((omega (arith, rest.0), λ id. omega (arith, rest.1 id)))
      ]

  pub retire_if-kept :
      (ps : List Pool)
      → (count_kept (retire_if test ps) ≤ count_kept ps)
        × ((id : Text) → count_for id (retire_if test ps) ≤ count_for id ps)
  unfolding retire change_if count_kept
  retire_if-kept [] = (omega arith, λ id. omega arith)
  retire_if-kept (p ∷ ps) =
      let rest = retire_if-kept ps in
      elim (Bool-cases (test p)) [
        | inr miss ↦ rw (change_if, miss) ((omega (arith, rest.0), λ id. omega (arith, rest.1 id)))
        | inl hit ↦ rw (change_if, hit) ((omega (arith, rest.0), λ id. omega (arith, rest.1 id)))
      ]

  pub retire_if-IsMap : (ps : List Pool) → IsMap ps → IsMap (retire_if test ps)
  retire_if-IsMap ps v = record {
    few = omega (arith, v.few, (retire_if-kept ps).0);
    unique = λ id. omega (arith, v.unique id, (retire_if-kept ps).1 id);
    small = change_if-IsSmall retire ps retire-IsSmall v.small;
  }

  pub change_if-IsMap :
      (f : Pool → Pool) (ps : List Pool) → IsHidden f → IsMap ps → IsMap (change_if test f ps)
  change_if-IsMap f ps g v =
      let same = change_if-kept f ps g v.small in
      record {
        few = omega (arith, v.few, same.0);
        unique = λ id. omega (arith, v.unique id, same.1 id);
        small = change_if-IsSmall f ps (λ p w. (g p w).0) v.small;
      }
