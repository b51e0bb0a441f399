-- ===== src/Pools/Kept.antt =====
-- At most sixteen pools are kept, one for a profile, and none once the driver is closed.
use data_mate.Base.{
  ℕ, ◌≤◌, ◌≡◌, refl, subst, Bool, true, false, not, ◌||◌, none, some, List, [], ◌∷◌, Text, text_eq,
  text_eq_iff, find, ltb, ◌==◌, if◌then◌else◌, Bool-cases, Option-cases, inl, inr, arith,
}
use data_mate.Pools.{
  max_pools, Op, Pool, Driver, new_driver, retire, is_for, change_if, retire_if, count_kept, spare,
  make_room, new_pool, attach, fingerprint_of, is_stale, checkout, take_slot, abandon, pick, dial,
  give_back, Event, step, play,
}
use data_mate.Pools.Counts.{
  IsMap, count_for, IsHidden, take_slot-IsHidden, pick-IsHidden, dial-IsHidden, give_back-IsHidden,
  abandon-IsHidden, attach-IsHidden, change_if-kept, retire_if-kept, retire_if-IsMap,
  change_if-IsMap,
}

find-none-count_for :
    (id : Text) (ps : List Pool) → find (is_for id) ps ≡ none → count_for id ps ≡ 0
unfolding find
find-none-count_for id [] h = refl
find-none-count_for id (p ∷ ps) h = elim (Bool-cases (is_for id p)) [
  | inl here ↦ let wrong : some p ≡ none = rw (find, here) at h in cc
  | inr apart ↦
      let rest = find-none-count_for id ps (rw (find, apart) at h) in rw apart (omega (arith, rest))
]

make_room-IsMap :
    (victim : Text) (ps : List Pool)
    → IsMap ps
    → IsMap (make_room victim ps)
      × ((id : Text) → count_for id (make_room victim ps) ≤ count_for id ps)
make_room-IsMap victim ps v = elim (Bool-cases (ltb (count_kept ps) max_pools)) [
  | inl room ↦ rw (make_room, room) ((v, λ id. omega arith))
  | inr full ↦ elim (Option-cases (spare victim ps)) [
    | inl nothing ↦ rw (make_room, full, nothing) ((v, λ id. omega arith))
    | inr (p, found) ↦
        rw (make_room, full, found)
          ((
            retire_if-IsMap (λ (q : Pool). q.number == p.number) ps v,
            (retire_if-kept (λ (q : Pool). q.number == p.number) ps).1,
          ))
  ]
]

-- One more pool, of a profile that has none.
new_pool-IsMap :
    (n : ℕ) (id fp : Text) (op : Op) (ps : List Pool)
    → IsMap ps
    → count_for id ps ≡ 0
    → ltb (count_kept ps) max_pools ≡ true
    → IsMap (new_pool n id fp op ∷ ps)
unfolding count_kept
new_pool-IsMap n id fp op ps v missing room = record {
  few = ground (arith, room);
  unique = λ i. elim (Bool-cases (text_eq id i)) [
    | inr apart ↦ rw apart (omega (arith, v.unique i))
    | inl same ↦
        let free : count_for i ps ≡ 0 =
          subst (λ k. count_for k ps ≡ 0) ((text_eq_iff id i).0 same) missing in
        rw same (omega (arith, free))
  ];
  small = (record { slots = omega arith; connections = omega arith; retired = refl }, v.small);
}

-- What the driver keeps to.
pub record IsOrderly (d : Driver) : Type 0 where
  pub map : IsMap d.pools
  pub closed : not d.closed || (count_kept d.pools == 0) ≡ true

retire_all_kept : (ps : List Pool) → count_kept (retire_if (λ (p : Pool). p.kept) ps) ≡ 0
unfolding retire change_if count_kept
retire_all_kept [] = refl
retire_all_kept (p ∷ ps) = elim (Bool-cases p.kept) [
  | inl hit ↦ rw hit (omega (arith, retire_all_kept ps))
  | inr miss ↦ rw miss (omega (arith, retire_all_kept ps))
]

module _ (mac : Text → Text) where
  checkout-IsOrderly :
      (victim id : Text) (op : Op) (d : Driver)
      → IsOrderly d
      → IsOrderly (checkout mac victim id op d)
  unfolding checkout
  checkout-IsOrderly victim id op d v =
      either d.closed d _ (λ e. v)
        (λ going. elim (Option-cases (find (is_for id) current)) [
          | inr (p, found) ↦ rw found (record {
            map = change_if-IsMap (is_for id) (attach op) current (attach-IsHidden op) now;
            closed = ground (arith, going);
          })
          | inl nothing ↦
              let room = make_room-IsMap victim current now in
              let missing : count_for id (make_room victim current) ≡ 0 =
                omega (arith, find-none-count_for id current nothing, room.1 id) in
              elim (Bool-cases (ltb (count_kept (make_room victim current)) max_pools)) [
                | inl free ↦
                    rw (nothing, free)
                      (record {
                        map =
                            new_pool-IsMap d.next id (fingerprint_of mac op) op
                              (make_room victim current) room.0 missing free;
                        closed = ground (arith, going);
                      })
                | inr full ↦
                    rw (nothing, full) (record { map = room.0; closed = ground (arith, going) })
              ]
        ])
    where
      current : List Pool
      current = retire_if (is_stale mac id op) d.pools

      either :
          (b : Bool) (x y : Driver)
          → (b ≡ true → IsOrderly x)
          → (b ≡ false → IsOrderly y)
          → IsOrderly (if b then x else y)
      either true x y f g = f refl
      either false x y f g = g refl

      now : IsMap current
      now = retire_if-IsMap (is_stale mac id op) d.pools v.map

  changed-IsOrderly :
      (d : Driver) (test : Pool → Bool) (f : Pool → Pool)
      → IsHidden f
      → IsOrderly d
      → IsOrderly (record d { pools = change_if test f d.pools })
  changed-IsOrderly d test f g v = record {
    map = change_if-IsMap test f d.pools g v.map;
    closed = ground (arith, (change_if-kept test f d.pools g v.map.small).0, v.closed);
  }

  retired-IsOrderly :
      (d : Driver) (test : Pool → Bool)
      → IsOrderly d
      → IsOrderly (record d { pools = retire_if test d.pools })
  retired-IsOrderly d test v = record {
    map = retire_if-IsMap test d.pools v.map;
    closed = ground (arith, (retire_if-kept test d.pools).0, v.closed);
  }

  step-IsOrderly : (e : Event) (d : Driver) → IsOrderly d → IsOrderly (step mac e d)
  unfolding step
  step-IsOrderly (Event.enter victim id op) d v = checkout-IsOrderly victim id op d v
  step-IsOrderly (Event.slot n k) d v = changed-IsOrderly d _ (take_slot k) (take_slot-IsHidden k) v
  step-IsOrderly (Event.drop n k) d v = changed-IsOrderly d _ (abandon k) (abandon-IsHidden k) v
  step-IsOrderly (Event.look is_closed n k) d v =
      changed-IsOrderly d _ (pick is_closed k) (pick-IsHidden is_closed k) v
  step-IsOrderly (Event.dialed works c n k) d v =
      changed-IsOrderly d _ (dial works c k) (dial-IsHidden works c k) v
  step-IsOrderly (Event.release healthy n k) d v =
      changed-IsOrderly d _ (give_back d.closed healthy k) (give_back-IsHidden d.closed healthy k) v
  step-IsOrderly (Event.expire n) d v = retired-IsOrderly d _ v
  step-IsOrderly (Event.invalidate id) d v = retired-IsOrderly d _ v
  step-IsOrderly Event.close d v = record {
    map = retire_if-IsMap (λ (p : Pool). p.kept) d.pools v.map;
    closed = ground (arith, retire_all_kept d.pools);
  }

  play_keeps : (es : List Event) (d : Driver) → IsOrderly d → IsOrderly (play mac es d)
  unfolding play
  play_keeps [] d v = v
  play_keeps (e ∷ es) d v = play_keeps es (step mac e d) (step-IsOrderly e d v)

  -- In any interleaving, the driver keeps at most sixteen pools, one for a profile, and none once it is closed; a
  -- pool has at most eight connections, and eight operations that hold a slot; and a pool that was
  -- retired has no idle connection, now or later.
  pub play-IsOrderly : (es : List Event) → IsOrderly (play mac es new_driver)
  unfolding count_kept
  play-IsOrderly es = play_keeps es new_driver (record {
    map = record { few = omega arith; unique = λ id. omega arith; small = tt };
    closed = refl;
  })
