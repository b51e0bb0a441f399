-- ===== src/Pools/Access.antt =====
-- The connections of the pools, through every step of the driver.
use data_mate.Base.{
  ◌≡◌, refl, sym, ◌∙◌, Bool, true, List, [], ◌∷◌, Text, text_eq, text_eq_iff, All, find, ltb, ◌==◌,
  Bool-cases, Option-cases, inl, inr, arith,
}
use data_mate.Pools.{
  max_pools, framed, Op, Conn, Pool, Driver, new_driver, retire, is_for, change_if, retire_if,
  count_kept, spare, make_room, attach, fingerprint_of, is_stale, checkout, take_slot, abandon,
  pick, dial, give_back, Event, step, play,
}
use data_mate.Pools.Framing.{IsShort, framed-injective}
use data_mate.Pools.Owners.{
  Made, IsOwned, take_slot-IsOwned, abandon-IsOwned, pick-IsOwned, dial-IsOwned, give_back-IsOwned,
  retire-IsOwned,
}

-- The values of the operations that enter are known.
abbrev pub AllKnown : (List Text → Type 0) → List Event → Type 0
AllKnown Known [] = Unit {0}
AllKnown Known (Event.enter victim id op ∷ es) = Known op.values × AllKnown Known es
AllKnown Known (_ ∷ es) = AllKnown Known es

module _ (mac : Text → Text) (Known : List Text → Type 0) where
  abbrev AllOwned : List Pool → Type 0
  AllOwned ps = All (IsOwned mac Known) ps

  change_if-AllOwned :
      (test : Pool → Bool) (f : Pool → Pool) (ps : List Pool)
      → ((p : Pool) → IsOwned mac Known p → IsOwned mac Known (f p))
      → AllOwned ps
      → AllOwned (change_if test f ps)
  unfolding change_if
  change_if-AllOwned test f [] g v = tt
  change_if-AllOwned test f (p ∷ ps) g v = elim (Bool-cases (test p)) [
    | inl hit ↦ rw (change_if, hit) ((g p v.0, change_if-AllOwned test f ps g v.1))
    | inr miss ↦ rw (change_if, miss) ((v.0, change_if-AllOwned test f ps g v.1))
  ]

  attach-IsOwned :
      (op : Op) (p : Pool)
      → Made mac Known p.fingerprint op.values
      → IsOwned mac Known p
      → IsOwned mac Known (attach op p)
  unfolding attach
  attach-IsOwned op p own v = record {
    waiting = (own, v.waiting);
    slotted = v.slotted;
    dialing = v.dialing;
    idle = v.idle;
    busy = v.busy;
  }

  -- A pool of the profile that is not stale has the operation's fingerprint, and a stale one is retired.
  attach-AllOwned :
      (id : Text) (op : Op) (ps : List Pool)
      → Known op.values
      → AllOwned ps
      → AllOwned (change_if (is_for id) (attach op) (retire_if (is_stale mac id op) ps))
  unfolding change_if retire
  attach-AllOwned id op [] short v = tt
  attach-AllOwned id op (p ∷ ps) short v = elim (Bool-cases (is_stale mac id op p)) [
    | inl stale ↦ rw stale ((retire-IsOwned mac Known p v.0, attach-AllOwned id op ps short v.1))
    | inr fresh ↦ elim (Bool-cases (is_for id p)) [
      | inr other ↦ rw (fresh, other) ((v.0, attach-AllOwned id op ps short v.1))
      | inl for_id ↦
          let equal : text_eq p.fingerprint (fingerprint_of mac op) ≡ true =
            ground (arith, fresh, for_id) in
          let same = (text_eq_iff p.fingerprint (fingerprint_of mac op)).0 equal in
          rw (fresh, for_id)
            ((attach-IsOwned op p (sym same, short) v.0, attach-AllOwned id op ps short v.1))
    ]
  ]

  make_room-AllOwned :
      (victim : Text) (ps : List Pool) → AllOwned ps → AllOwned (make_room victim ps)
  make_room-AllOwned victim ps v = elim (Bool-cases (ltb (count_kept ps) max_pools)) [
    | inl room ↦ rw (make_room, room) v
    | inr full ↦ elim (Option-cases (spare victim ps)) [
      | inl nothing ↦ rw (make_room, full, nothing) v
      | inr (p, found) ↦
          rw (make_room, full, found)
            (change_if-AllOwned (λ (q : Pool). q.number == p.number) retire ps
              (retire-IsOwned mac Known) v)
    ]
  ]

  checkout-AllOwned :
      (victim id : Text) (op : Op) (d : Driver)
      → Known op.values
      → AllOwned d.pools
      → AllOwned (checkout mac victim id op d).pools
  unfolding checkout
  checkout-AllOwned victim id op d short v = elim (Bool-cases d.closed) [
    | inl done ↦ rw (checkout, done) v
    | inr going ↦ elim (Option-cases (find (is_for id) current)) [
      | inr (p, found) ↦ rw (checkout, going, found) (attach-AllOwned id op d.pools short v)
      | inl nothing ↦
          let room = make_room-AllOwned victim current now in
          elim (Bool-cases (ltb (count_kept (make_room victim current)) max_pools)) [
            | inl free ↦
                rw (checkout, going, nothing, free)
                  ((
                    record {
                      waiting = ((refl, short), tt);
                      slotted = tt;
                      dialing = tt;
                      idle = tt;
                      busy = tt;
                    },
                    room,
                  ))
            | inr full ↦ rw (checkout, going, nothing, full) room
          ]
    ]
  ]
    where
      current : List Pool
      current = retire_if (is_stale mac id op) d.pools

      now : AllOwned current
      now = change_if-AllOwned (is_stale mac id op) retire d.pools (retire-IsOwned mac Known) v

  play_keeps :
      (es : List Event) (d : Driver)
      → AllKnown Known es
      → AllOwned d.pools
      → AllOwned (play mac es d).pools
  unfolding play step
  play_keeps [] d short v = v
  play_keeps (Event.enter victim id op ∷ es) d short v =
      play_keeps es _ short.1 (checkout-AllOwned victim id op d short.0 v)
  play_keeps (Event.slot n k ∷ es) d short v =
      play_keeps es _ short
        (change_if-AllOwned _ (take_slot k) d.pools (take_slot-IsOwned mac Known k) v)
  play_keeps (Event.drop n k ∷ es) d short v =
      play_keeps es _ short
        (change_if-AllOwned _ (abandon k) d.pools (abandon-IsOwned mac Known k) v)
  play_keeps (Event.look is_closed n k ∷ es) d short v =
      play_keeps es _ short
        (change_if-AllOwned _ (pick is_closed k) d.pools (pick-IsOwned mac Known is_closed k) v)
  play_keeps (Event.dialed works c n k ∷ es) d short v =
      play_keeps es _ short
        (change_if-AllOwned _ (dial works c k) d.pools (dial-IsOwned mac Known works c k) v)
  play_keeps (Event.release healthy n k ∷ es) d short v = play_keeps es _ short (
      change_if-AllOwned _ (give_back d.closed healthy k) d.pools
        (give_back-IsOwned mac Known d.closed healthy k) v)
  play_keeps (Event.expire n ∷ es) d short v =
      play_keeps es _ short (change_if-AllOwned _ retire d.pools (retire-IsOwned mac Known) v)
  play_keeps (Event.invalidate id ∷ es) d short v =
      play_keeps es _ short (change_if-AllOwned _ retire d.pools (retire-IsOwned mac Known) v)
  play_keeps (Event.close ∷ es) d short v =
      play_keeps es _ short (change_if-AllOwned _ retire d.pools (retire-IsOwned mac Known) v)

-- Every operation that has a connection has one that was dialled with its values.
abbrev pub HasOwn : Pool → Type 0
HasOwn p = All (λ (b : Op × Conn). b.1.values ≡ b.0.values) p.busy

-- Values that are known are Go strings, and the keyed hash tells apart what it is given for two of them.
pub record IsKeyed (mac : Text → Text) (Known : List Text → Type 0) : Type 0 where
  pub short : (vs : List Text) → Known vs → All IsShort vs
  pub apart :
      (vs ws : List Text)
      → Known vs
      → Known ws
      → mac (framed vs) ≡ mac (framed ws)
      → framed vs ≡ framed ws

module _ (mac : Text → Text) (Known : List Text → Type 0) (laws : IsKeyed mac Known) where
  busy-own :
      (fp : Text) (bs : List (Op × Conn))
      → All (λ (b : Op × Conn). Made mac Known fp b.0.values × Made mac Known fp b.1.values) bs
      → All (λ (b : Op × Conn). b.1.values ≡ b.0.values) bs
  busy-own fp [] w = tt
  busy-own fp (b ∷ bs) w =
      let vs = b.1.values in
      let ws = b.0.values in
      let same = laws.apart vs ws w.0.1.1 w.0.0.1 (w.0.1.0 ∙ sym w.0.0.0) in
      (
        framed-injective vs ws (laws.short vs w.0.1.1) (laws.short ws w.0.0.1) same,
        busy-own fp bs w.1,
      )

  IsOwned-HasOwn : (ps : List Pool) → All (IsOwned mac Known) ps → All HasOwn ps
  IsOwned-HasOwn [] v = tt
  IsOwned-HasOwn (p ∷ ps) v = (busy-own p.fingerprint p.busy v.0.busy, IsOwned-HasOwn ps v.1)

  -- In any interleaving of checkouts, retirements and returns, an operation that has a connection has one that
  -- was dialled with exactly its own revision, password, other secrets and pinned hosts: those that
  -- the keyed hash tells apart, since no value runs into the next one.
  pub play-HasOwn :
      (es : List Event) → AllKnown Known es → All HasOwn (play mac es new_driver).pools
  play-HasOwn es known =
      IsOwned-HasOwn (play mac es new_driver).pools (play_keeps mac Known es new_driver known tt)
