-- ===== src/Tests/Queue.antt =====
-- `rwQueue` of internal/config/locks.go: a reader waits for a writer, which then leaves.
use data_mate.Base.{◌≡◌, ◌≤◌, refl, ◌⊎◌, true, false, List, [], ◌∷◌, any}
use data_mate.Config.RwQueue.{
  idle, awake, asleep, holding, calls, attempts, releases, step_thread, System,
}
use data_mate.Config.RwQueue.Invariant.{
  move, Reach, here, next, IsConsistent, start, reachable-IsConsistent,
}
use data_mate.Config.RwQueue.Progress.{is_ready, free-ready}

abbrev writer_waits : System
writer_waits = record {
  queue = record { readers = 0; writer = false; waiting = 1; changed = 0 };
  threads = awake true ∷ idle ∷ [];
}

abbrev writer_holds : System
writer_holds = record {
  queue = record { readers = 0; writer = true; waiting = 0; changed = 0 };
  threads = holding true ∷ idle ∷ [];
}

abbrev reader_comes : System
reader_comes = record writer_holds { threads = holding true ∷ awake false ∷ [] }

abbrev reader_sleeps : System
reader_sleeps = record writer_holds { threads = holding true ∷ asleep false 0 ∷ [] }

abbrev writer_leaves : System
writer_leaves = record {
  queue = record { readers = 0; writer = false; waiting = 0; changed = 1 };
  threads = idle ∷ asleep false 0 ∷ [];
}

to_writer_waits : Reach (start 2) writer_waits
unfolding step_thread
to_writer_waits = next here (move [] (idle ∷ []) (calls true) idle (awake true) refl refl refl)

to_writer_holds : Reach (start 2) writer_holds
unfolding step_thread
to_writer_holds =
    next to_writer_waits
      (move [] (idle ∷ []) (attempts false) (awake true) (holding true) refl refl refl)

to_reader_comes : Reach (start 2) reader_comes
unfolding step_thread
to_reader_comes =
    next to_writer_holds
      (move (holding true ∷ []) [] (calls false) idle (awake false) refl refl refl)

to_reader_sleeps : Reach (start 2) reader_sleeps
unfolding step_thread
to_reader_sleeps =
    next to_reader_comes
      (move (holding true ∷ []) [] (attempts false) (awake false) (asleep false 0) refl refl refl)

to_writer_leaves : Reach (start 2) writer_leaves
unfolding step_thread
to_writer_leaves =
    next to_reader_sleeps
      (move [] (asleep false 0 ∷ []) releases (holding true) idle refl refl refl)

reachable-IsConsistent_example : IsConsistent reader_sleeps
reachable-IsConsistent_example = reachable-IsConsistent 2 to_reader_sleeps

free-ready_example : any (is_ready writer_leaves.queue) writer_leaves.threads ≡ true
unfolding any data_mate.Base.total
free-ready_example = free-ready 2 to_writer_leaves refl refl refl
