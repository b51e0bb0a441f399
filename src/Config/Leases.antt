-- ===== src/Config/Leases.antt =====
-- The leases of internal/config/locks.go: what `acquire` and `Release` take and give back, and in which
-- order. The calls on files and on the queues are arguments.
pub mod Order
use data_mate.Base.{
  ℕ, Bool, true, false, not, ◌&&◌, List, [], ◌∷◌, ◌++◌, if◌then◌else◌, Result, ok, err, Error,
  guard, stale, purging, pending,
}

-- What a lease may hold: the process's queue and the file lock of the lifecycle, the queue of the
-- state, the two file locks of the state, a slot for a reader's database, and the database.
pub data Resource : Type 0 where
  local_lifecycle lifecycle_lock local_state state_gate state_lock database_slot connection :
      Resource

pub data Action : Type 0 where
  takes drops : Resource → Action

-- The fields of a `Lease` that are set or nil.
pub record Held : Type 0 where
  pub local_lifecycle : Bool
  pub lifecycle_lock : Bool
  pub local_state : Bool
  pub state_gate : Bool
  pub state_lock : Bool
  pub database_slot : Bool
  pub connection : Bool
  pub released : Bool

-- The lease, and what was taken and given back so far, the oldest first.
pub record Hold : Type 0 where
  pub lease : Held
  pub trail : List Action

abbrev pub holds : Held → Resource → Bool
holds h Resource.local_lifecycle = h.local_lifecycle
holds h Resource.lifecycle_lock = h.lifecycle_lock
holds h Resource.local_state = h.local_state
holds h Resource.state_gate = h.state_gate
holds h Resource.state_lock = h.state_lock
holds h Resource.database_slot = h.database_slot
holds h Resource.connection = h.connection

abbrev pub put : Resource → Bool → Held → Held
put Resource.local_lifecycle b h = record h { local_lifecycle = b }
put Resource.lifecycle_lock b h = record h { lifecycle_lock = b }
put Resource.local_state b h = record h { local_state = b }
put Resource.state_gate b h = record h { state_gate = b }
put Resource.state_lock b h = record h { state_lock = b }
put Resource.database_slot b h = record h { database_slot = b }
put Resource.connection b h = record h { connection = b }

abbrev pub Act : Type 0
Act = Hold → Result (Unit {0}) × Hold

abbrev pub follow : Result (Unit {0}) → Act → Act
follow (ok u) f h = f h
follow (err e) f h = (err e, h)

infixl 5 ◌>>◌
abbrev pub ◌>>◌ : Act → Act → Act
◌>>◌ m f h = follow (m h).0 f (m h).1

abbrev pub try : Result (Unit {0}) → Act
try r h = (r, h)

-- A call that takes something, and how it ended.
abbrev pub take_resource : Resource → Result (Unit {0}) → Act
take_resource r (err e) h = (err e, h)
take_resource r (ok u) h =
    (ok tt, record { lease = put r true h.lease; trail = h.trail ++ (takes r ∷ []) })

-- What is nil is not given back.
abbrev pub give_back : Resource → Hold → Hold
give_back r h =
    if holds h.lease r
    then record { lease = put r false h.lease; trail = h.trail ++ (drops r ∷ []) }
    else h

abbrev pub drop_resource : Resource → Act
drop_resource r h = (ok tt, give_back r h)

-- `Release`; it does nothing the second time.
unfoldable pub release_lease : Hold → Hold
release_lease h =
    if h.lease.released
    then h
    else give_back Resource.local_lifecycle (
        give_back Resource.lifecycle_lock (
          give_back Resource.local_state (
            give_back Resource.state_gate (
              give_back Resource.state_lock (
                give_back Resource.database_slot (
                  give_back Resource.connection
                    (record h { lease = record h.lease { released = true } })))))))

-- How the calls of a lease end; `parent` is fine where there is none.
pub record Calls : Type 0 where
  pub taking : Resource → Result (Unit {0})
  pub parent : Result (Unit {0})
  pub verify_lock : Resource → Result (Unit {0})
  pub verify_identity : Result (Unit {0})
  pub context : Result (Unit {0})
  pub validate : Result (Unit {0})

-- A purge accepts the tombstone.
abbrev pub admitted : Bool → Result (Unit {0}) → Result (Unit {0})
admitted purge (err purging) = if purge then ok tt else err purging
admitted purge (err pending) = if purge then ok tt else err pending
admitted purge r = r

abbrev pub verified : Calls → Held → Resource → Result (Unit {0})
verified c h r = if holds h r then c.verify_lock r else ok tt

abbrev pub and_then : Result (Unit {0}) → Result (Unit {0}) → Result (Unit {0})
and_then (ok u) r = r
and_then (err e) r = err e

unfoldable pub check_result : Calls → Bool → Held → Result (Unit {0})
check_result c purge h = and_then c.parent (
    and_then (guard (not h.released) stale) (
      and_then (verified c h Resource.lifecycle_lock) (
        and_then (verified c h Resource.state_gate)
          (and_then (verified c h Resource.state_lock) (admitted purge c.verify_identity)))))

-- `check`.
unfoldable pub check_lease : Calls → Bool → Act
unfolding check_result
check_lease c purge h = (check_result c purge h.lease, h)

module _ (c : Calls) (write : Bool) (purge : Bool) where
  -- A reader lets the next one in.
  open_gate : Act
  open_gate h = if write then (ok tt, h) else drop_resource Resource.state_gate h

  -- The admission and the state.
  unfoldable pub claim_state : Act
  unfolding open_gate
  claim_state = do
    take_resource Resource.local_state (c.taking Resource.local_state)
    take_resource Resource.state_gate (c.taking Resource.state_gate)
    take_resource Resource.state_lock (c.taking Resource.state_lock)
    check_lease c purge
    try c.context
    open_gate

  -- `acquire` up to its return; a purge takes the lifecycle before.
  unfoldable pub claim : Act
  claim h =
      if purge
      then (do
        take_resource Resource.local_lifecycle (c.taking Resource.local_lifecycle)
        take_resource Resource.lifecycle_lock (c.taking Resource.lifecycle_lock)
        claim_state)
          h
      else claim_state h

  -- The deferred function releases a lease that was acquired in part.
  settle : Result (Unit {0}) → Act
  settle (ok u) h = (ok tt, h)
  settle (err e) h = (err e, release_lease h)

  -- `acquire`.
  unfoldable pub acquire : Act
  unfolding settle
  acquire h = settle (claim h).0 (claim h).1

  -- The slot that a reader waits for.
  wait_slot : Act
  wait_slot h =
      if not write && not h.lease.database_slot
      then take_resource Resource.database_slot (c.taking Resource.database_slot) h
      else (ok tt, h)

  -- A database that belongs to another installation is closed.
  keep_valid : Result (Unit {0}) → Act
  keep_valid (ok u) h = (ok tt, h)
  keep_valid (err e) h = (err e, give_back Resource.connection h)

  -- `Lease.database` of internal/config/database.go.
  unfoldable pub open_connection : Act
  unfolding wait_slot keep_valid
  open_connection = do
    check_lease c purge
    λ h.
        if h.lease.connection
        then (ok tt, h)
        else (do
          wait_slot
          take_resource Resource.connection (c.taking Resource.connection)
          keep_valid c.validate)
            h

abbrev pub new_lease : Hold
new_lease = record {
  lease = record {
    local_lifecycle = false;
    lifecycle_lock = false;
    local_state = false;
    state_gate = false;
    state_lock = false;
    database_slot = false;
    connection = false;
    released = false;
  };
  trail = [];
}
