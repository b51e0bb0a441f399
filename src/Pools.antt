-- ===== src/Pools.antt =====
-- The pools of internal/database/postgres/driver.go: which connections are kept, for whom they were made, and
-- which operation gets one. A critical section is one step, and the operations take theirs in any order.
-- `approvePool`, the deadlines and the statements on a connection are left out.
pub mod Framing
pub mod Bounds
pub mod Counts
pub mod Kept
pub mod Owners
pub mod Access
use data_mate.Base.{
  ℕ, suc, ◌+◌, Bool, true, false, not, ◌&&◌, ◌||◌, Option, none, some, List, [], ◌∷◌, ◌++◌, Text,
  text_eq, length, any, find, keep, ltb, ◌==◌, if◌then◌else◌,
}
use Prim.Native.Nat.{◌/◌, ◌%◌}

-- `maxConnectionsPerProfile` and the bound on the pools.
abbrev pub max_connections : ℕ
max_connections = 8

abbrev pub max_pools : ℕ
max_pools = 16

-- `binary.BigEndian.PutUint64`.
unfoldable pub put_uint64 : ℕ → Text
put_uint64 n =
    n / 72057594037927936 % 256
    ∷ n / 281474976710656 % 256
    ∷ n / 1099511627776 % 256
    ∷ n / 4294967296 % 256
    ∷ n / 16777216 % 256
    ∷ n / 65536 % 256
    ∷ n / 256 % 256
    ∷ n % 256
    ∷ []

-- The loop that feeds the hash: each value after its length.
unfoldable pub framed : List Text → Text
unfolding put_uint64
framed [] = []
framed (v ∷ vs) = put_uint64 (length v) ++ (v ++ framed vs)

-- An operation, with the revision, the password, the other secrets and the pinned hosts of its access.
pub record Op : Type 0 where
  pub number : ℕ
  pub values : List Text

-- A connection, with the values of the access that it was dialled with.
pub record Conn : Type 0 where
  pub number : ℕ
  pub values : List Text

-- A pool is kept while the map has it. `waiting`, `dialing` and `busy` are its users; the last two and
-- `slotted` hold a slot.
pub record Pool : Type 0 where
  pub number : ℕ
  pub profile : Text
  pub fingerprint : Text
  pub kept : Bool
  pub idle : List Conn
  pub waiting : List Op
  pub slotted : List Op
  pub dialing : List Op
  pub busy : List (Op × Conn)

pub record Driver : Type 0 where
  pub pools : List Pool
  pub next : ℕ
  pub closed : Bool

abbrev pub new_driver : Driver
new_driver = record { pools = []; next = 0; closed = false }

abbrev pub is_unused : Pool → Bool
is_unused p = length p.waiting + length p.slotted + (length p.dialing + length p.busy) == 0

abbrev pub holders : Pool → ℕ
holders p = length p.slotted + length p.dialing + length p.busy

-- `retireLocked` with `closePool`: the idle connections are closed, and the map forgets the pool.
unfoldable pub retire : Pool → Pool
retire p = record p { kept = false; idle = [] }

-- The pool that the map holds for a profile.
abbrev pub is_for : Text → Pool → Bool
is_for id p = p.kept && text_eq p.profile id

unfoldable pub change_if : (Pool → Bool) → (Pool → Pool) → List Pool → List Pool
change_if test f [] = []
change_if test f (p ∷ ps) =
    let rest = change_if test f ps in if test p then f p ∷ rest else p ∷ rest

abbrev pub change : ℕ → (Pool → Pool) → List Pool → List Pool
change n f ps = change_if (λ (p : Pool). p.number == n) f ps

abbrev pub retire_if : (Pool → Bool) → List Pool → List Pool
retire_if test ps = change_if test retire ps

unfoldable pub count_kept : List Pool → ℕ
count_kept [] = 0
count_kept (p ∷ ps) = (if p.kept then 1 else 0) + count_kept ps

-- An unused pool that makes room: the map's order picks it, which may be any.
abbrev pub spare : Text → List Pool → Option Pool
spare victim ps = elim (find (λ (p : Pool). is_for victim p && is_unused p) ps) [
  | some p ↦ some p
  | none ↦ find (λ (p : Pool). p.kept && is_unused p) ps
]

abbrev pub make_room : Text → List Pool → List Pool
make_room victim ps = if ltb (count_kept ps) max_pools then ps else elim (spare victim ps) [
  | none ↦ ps
  | some p ↦ retire_if (λ (q : Pool). q.number == p.number) ps
]

abbrev pub new_pool : ℕ → Text → Text → Op → Pool
new_pool n id fp op = record {
  number = n;
  profile = id;
  fingerprint = fp;
  kept = true;
  idle = [];
  waiting = op ∷ [];
  slotted = [];
  dialing = [];
  busy = [];
}

unfoldable pub attach : Op → Pool → Pool
attach op p = record p { waiting = op ∷ p.waiting }

module _ (mac : Text → Text) where
  abbrev pub fingerprint_of : Op → Text
  fingerprint_of op = mac (framed op.values)

  abbrev pub is_stale : Text → Op → Pool → Bool
  is_stale id op p = is_for id p && not (text_eq p.fingerprint (fingerprint_of op))

  -- The first critical section of `checkout`; `mac` is the keyed hash in hexadecimal. An operation that is refused
  -- is in no pool.
  unfoldable pub checkout : Text → Text → Op → Driver → Driver
  unfolding retire change_if count_kept attach
  checkout victim id op d =
      let current = retire_if (is_stale id op) d.pools in
      let room = make_room victim current in
      if d.closed then d else elim (find (is_for id) current) [
        | some p ↦ record d { pools = change_if (is_for id) (attach op) current }
        | none ↦
            if ltb (count_kept room) max_pools
            then record d {
              pools = new_pool d.next id (fingerprint_of op) op ∷ room;
              next = suc d.next;
            }
            else record d { pools = room }
      ]

-- The operations of a list but the one with a number.
abbrev pub without : ℕ → List Op → List Op
without k ops = keep (λ (o : Op). not (o.number == k)) ops

abbrev pub with_number : ℕ → List Op → Option Op
with_number k ops = find (λ (o : Op). o.number == k) ops

-- A waiting operation takes a slot of the channel.
unfoldable pub take_slot : ℕ → Pool → Pool
take_slot k p = elim (with_number k p.waiting) [
  | none ↦ p
  | some op ↦
      if ltb (holders p) max_connections
      then record p { waiting = without k p.waiting; slotted = op ∷ p.slotted }
      else p
]

-- It gives up before it has one.
unfoldable pub abandon : ℕ → Pool → Pool
abandon k p = record p { waiting = without k p.waiting }

-- The idle connections from the newest on, less the closed ones.
unfoldable pub open_idle : (Conn → Bool) → List Conn → List Conn
open_idle is_closed [] = []
open_idle is_closed (c ∷ cs) =
    let rest = open_idle is_closed cs in if is_closed c then rest else c ∷ cs

-- The second critical section: the newest idle connection that is not closed, or a new one is dialled.
unfoldable pub pick : (Conn → Bool) → ℕ → Pool → Pool
unfolding open_idle
pick is_closed k p = elim (with_number k p.slotted) [
  | none ↦ p
  | some op ↦ elim (open_idle is_closed p.idle) [
    | [] ↦ record p { idle = []; slotted = without k p.slotted; dialing = op ∷ p.dialing }
    | c ∷ cs ↦ record p { idle = cs; slotted = without k p.slotted; busy = (op, c) ∷ p.busy }
  ]
]

-- The dialling ends, with a connection that is made with the operation's own access.
unfoldable pub dial : Bool → ℕ → ℕ → Pool → Pool
dial works n k p = elim (with_number k p.dialing) [
  | none ↦ p
  | some op ↦
      let left = without k p.dialing in
      if works
      then record p {
        dialing = left;
        busy = (op, record { number = n; values = op.values }) ∷ p.busy;
      }
      else record p { dialing = left }
]

abbrev pub holder : ℕ → List (Op × Conn) → Option (Op × Conn)
holder k bs = find (λ (b : Op × Conn). b.0.number == k) bs

-- `release`: a healthy connection of a pool that is kept is idle again, and any other is closed.
unfoldable pub give_back : Bool → Bool → ℕ → Pool → Pool
give_back closed healthy k p = elim (holder k p.busy) [
  | none ↦ p
  | some b ↦
      let left = keep (λ (c : Op × Conn). not (c.0.number == k)) p.busy in
      if healthy && p.kept && not closed
      then record p { busy = left; idle = b.1 ∷ p.idle }
      else record p { busy = left }
]

pub data Event : Type 0 where
  enter : Text → Text → Op → Event
  slot drop : ℕ → ℕ → Event
  look : (Conn → Bool) → ℕ → ℕ → Event
  dialed : Bool → ℕ → ℕ → ℕ → Event
  release : Bool → ℕ → ℕ → Event
  expire : ℕ → Event
  invalidate : Text → Event
  close : Event

-- One step. An idle pool expires only while it is unused.
unfoldable pub step : (Text → Text) → Event → Driver → Driver
unfolding retire change_if checkout take_slot abandon pick dial give_back
step mac (enter victim id op) d = checkout mac victim id op d
step mac (slot n k) d = record d { pools = change n (take_slot k) d.pools }
step mac (drop n k) d = record d { pools = change n (abandon k) d.pools }
step mac (look is_closed n k) d = record d { pools = change n (pick is_closed k) d.pools }
step mac (dialed works c n k) d = record d { pools = change n (dial works c k) d.pools }
step mac (release healthy n k) d = record d {
  pools = change n (give_back d.closed healthy k) d.pools;
}
step mac (expire n) d = record d {
  pools = retire_if (λ (p : Pool). p.kept && p.number == n && is_unused p) d.pools;
}
step mac (invalidate id) d = record d { pools = retire_if (is_for id) d.pools }
step mac close d = record d { pools = retire_if (λ (p : Pool). p.kept) d.pools; closed = true }

unfoldable pub play : (Text → Text) → List Event → Driver → Driver
unfolding step
play mac [] d = d
play mac (e ∷ es) d = play mac es (step mac e d)
