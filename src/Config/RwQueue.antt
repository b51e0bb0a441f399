-- ===== src/Config/RwQueue.antt =====
-- `rwQueue` of internal/config/locks.go: the queue that keeps new readers behind a waiting writer.
-- What a goroutine does between taking and releasing the mutex is one step. A channel is named by the
-- number of those that were closed before it, so the channel `c` is closed when `c < changed`.
pub mod Invariant
pub mod Progress
use data_mate.Base.{
  ℕ, ◌+◌, ◌-◌, Bool, true, false, not, ◌&&◌, ◌||◌, Option, none, some, List, ltb, ◌==◌,
  if◌then◌else◌,
}

pub record RwQueue : Type 0 where
  pub readers : ℕ
  pub writer : Bool
  pub waiting : ℕ
  pub changed : ℕ

signal : RwQueue → RwQueue
signal q = record q { changed = q.changed + 1 }

-- The writer counts as waiting from here.
enter : Bool → RwQueue → RwQueue
enter write q = if write then record q { waiting = q.waiting + 1 } else q

-- The context has ended: a writer that gives up may let readers in.
cancel : Bool → RwQueue → RwQueue
unfolding signal
cancel write q = if write then signal (record q { waiting = q.waiting - 1 }) else q

-- The condition of the loop's `break`.
unfoldable pub may_enter : Bool → RwQueue → Bool
may_enter write q = not q.writer && ((write && q.readers == 0) || (not write && q.waiting == 0))

grant : Bool → RwQueue → RwQueue
grant write q =
    if write
    then record q { waiting = q.waiting - 1; writer = true }
    else record q { readers = q.readers + 1 }

-- The function that `acquire` returns.
release : Bool → RwQueue → RwQueue
unfolding signal
release write q =
    signal (if write then record q { writer = false } else record q { readers = q.readers - 1 })

-- Where a goroutine stands; the Boolean says that it writes. `awake` is the top of the loop.
pub data Thread : Type 0 where
  idle : Thread
  awake : Bool → Thread
  asleep : Bool → ℕ → Thread
  holding : Bool → Thread

-- `calls` is the start of `acquire`; `attempts` is one round of its loop, with the answer of
-- `ctx.Err()`; `wakes` is the end of the `select`, with the answer of `ctx.Done()`; `releases` is
-- the first call of what `acquire` returned.
pub data Event : Type 0 where
  calls : Bool → Event
  attempts wakes : Bool → Event
  releases : Event

-- One round of the loop.
attempt : Bool → Bool → RwQueue → RwQueue × Thread
unfolding may_enter cancel grant
attempt ended write q =
    if ended
    then (cancel write q, idle)
    else if may_enter write q
    then (grant write q, holding write)
    else (q, asleep write q.changed)

-- What an event does to the queue and to its goroutine; `none` where it cannot happen.
unfoldable pub step_thread : Event → RwQueue → Thread → Option (RwQueue × Thread)
unfolding enter attempt release
step_thread (calls write) q idle = some (enter write q, awake write)
step_thread (attempts ended) q (awake write) = some (attempt ended write q)
step_thread (wakes ended) q (asleep write c) =
    if ended || ltb c q.changed then some (q, awake write) else none
step_thread releases q (holding write) = some (release write q, idle)
step_thread _ q t = none

pub record System : Type 0 where
  pub queue : RwQueue
  pub threads : List Thread

abbrev pub new_queue : RwQueue
new_queue = record { readers = 0; writer = false; waiting = 0; changed = 0 }
