-- ===== src/Service/Admission.antt =====
-- `Manager.admit` of internal/service/manager.go: the slots of the requests that run and of those that wait.
-- The channels `active` and `waiting` are the lists of the requests whose tokens they hold, and the goroutines
-- take their steps in any order.
pub mod Balance
use data_mate.Base.{
  ℕ, Bool, false, true, ◌&&◌, ◌||◌, List, [], ◌∷◌, ◌++◌, length, ltb, ◌==◌, if◌then◌else◌,
}

-- internal/database/database.go
abbrev pub max_active : ℕ
max_active = 32

abbrev pub max_waiting : ℕ
max_waiting = 128

-- `ErrUnavailable`, a full queue, the context's error and the deadline of the queue.
pub data Refusal : Type 0 where
  unavailable queue_full cancelled queue_deadline : Refusal

pub record Slots : Type 0 where
  pub active : List ℕ
  pub waiting : List ℕ
  pub stopped : Bool

abbrev pub no_requests : Slots
no_requests = record { active = []; waiting = []; stopped = false }

-- A request calls `admit`, takes a slot that is free while it waits, gives up waiting, or is done; and the
-- manager is closed.
pub data Event : Type 0 where
  enter wake leave : ℕ → Event
  give_up : ℕ → Refusal → Event
  close : Event

-- What `admit` returns to a request, and that its slot is free again.
pub data Reply : Type 0 where
  admitted returned : ℕ → Reply
  refused : ℕ → Refusal → Reply

-- One token is taken out.
unfoldable pub release : ℕ → List ℕ → List ℕ
release k [] = []
release k (j ∷ js) = if j == k then js else j ∷ release k js

abbrev pub holds : ℕ → List ℕ → Bool
holds k [] = false
holds k (j ∷ js) = j == k || holds k js

abbrev pub has_slot : Slots → Bool
has_slot s = ltb (length s.active) max_active

-- The branches of the last `select` that a request waits at.
abbrev pub may_give_up : Refusal → Slots → Bool
may_give_up unavailable s = s.stopped
may_give_up queue_full s = false
may_give_up cancelled s = true
may_give_up queue_deadline s = true

unfoldable pub admit : ℕ → Slots → Slots × List Reply
admit k s =
    if s.stopped
    then (s, refused k unavailable ∷ [])
    else if has_slot s
    then (record s { active = k ∷ s.active }, admitted k ∷ [])
    else if ltb (length s.waiting) max_waiting
    then (record s { waiting = k ∷ s.waiting }, [])
    else (s, refused k queue_full ∷ [])

-- A request that waits takes a free slot, and then its token leaves `waiting`.
unfoldable pub take_slot : ℕ → Slots → Slots × List Reply
unfolding release
take_slot k s =
    if holds k s.waiting && has_slot s
    then (record s { active = k ∷ s.active; waiting = release k s.waiting }, admitted k ∷ [])
    else (s, [])

unfoldable pub stop_waiting : ℕ → Refusal → Slots → Slots × List Reply
unfolding release
stop_waiting k why s =
    if holds k s.waiting && may_give_up why s
    then (record s { waiting = release k s.waiting }, refused k why ∷ [])
    else (s, [])

-- The function that `admit` returns.
unfoldable pub return_slot : ℕ → Slots → Slots × List Reply
unfolding release
return_slot k s =
    if holds k s.active
    then (record s { active = release k s.active }, returned k ∷ [])
    else (s, [])

unfoldable pub step : Event → Slots → Slots × List Reply
unfolding admit take_slot stop_waiting return_slot
step (Event.enter k) s = admit k s
step (Event.wake k) s = take_slot k s
step (Event.leave k) s = return_slot k s
step (Event.give_up k why) s = stop_waiting k why s
step Event.close s = (record s { stopped = true }, [])

-- A sequence of steps; the newest reply is the first.
unfoldable pub play : List Event → Slots × List Reply → Slots × List Reply
unfolding step
play [] w = w
play (e ∷ es) (s, replies) = let o = step e s in play es (o.0, o.1 ++ replies)
