-- ===== src/Tests/Leases.antt =====
-- A purge's lease of internal/config/locks.go, a reader's whose state lock is refused, and a snapshot's.
use data_mate.Base.{◌≡◌, refl, true, false, some, [], ok, err, ownership}
use data_mate.Config.Leases.{
  Calls, claim, claim_state, check_lease, acquire, open_connection, release_lease, new_lease,
}
use data_mate.Config.Leases.Order.{replay, kept, all_fine, acquire-replay, release_lease-replay}

acquire-replay_example :
    replay (acquire all_fine true true new_lease).1.trail []
    ≡ some (kept true true (acquire all_fine true true new_lease).0)
acquire-replay_example = acquire-replay all_fine true true

reader_acquired : (acquire all_fine false false new_lease).0 ≡ ok tt
unfolding acquire claim claim_state check_lease
reader_acquired = refl

-- The database belongs to another installation.
abbrev foreign : Calls
foreign = record all_fine { validate = err ownership }

release_lease-replay_example :
    replay
      (release_lease
        (open_connection foreign false false (acquire all_fine false false new_lease).1).1).trail
      []
    ≡ some []
release_lease-replay_example = release_lease-replay all_fine foreign false false reader_acquired
