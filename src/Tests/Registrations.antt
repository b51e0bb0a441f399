-- ===== src/Tests/Registrations.antt =====
-- The registrations of internal/agent/ownership.go: one with codex is added, and removed again.
use data_mate.Base.{
  ℕ, ◌≡◌, refl, Bool, true, false, ◌||◌, ◌==◌, Option, none, some, List, [], ◌∷◌, Text, bytes,
  length, all, Result, err, ok, not_exist,
}
use data_mate.Agent.Ownership.{
  OwnedEntry, Home, Registration, absent, Snapshot, Adapter, read_ownership, entry_of,
}
use data_mate.Agent.Ensure.{saved, Calls, intent_of, ensure_each}
use data_mate.Agent.Accepted.{document}
use data_mate.Agent.Recorded.{recorded, ensure_each-recorded}
use data_mate.Agent.Removal.{Removing, remove_each}
use data_mate.Agent.Removed.{all_gone, has_failed, remove_each-recorded}

abbrev digits : Text
digits = bytes "bbbbbbbbbbbbbbbbbbbbbbbbbbbbbbbbbbbbbbbbbbbbbbbbbbbbbbbbbbbbbbbb"

abbrev home : Home
home = record {
  installation = bytes "one";
  root = bytes "/data";
  digest = bytes "d";
  identity_digest = bytes "d";
  name = bytes "data-mate";
  executable = bytes "/bin/data-mate";
  args = bytes "mcp" ∷ bytes "bridge" ∷ [];
  fingerprint_for = λ a. digits;
}

abbrev codex : Adapter
codex = record {
  name = bytes "codex";
  executable = bytes "/bin/codex";
  path = bytes "/home/config.toml";
  fault = false;
}

abbrev added : Option Registration
added = some (record { fingerprint = digits; launch = []; is_stdio = false; enabled = absent })

abbrev showing : Option Registration → Option Snapshot
showing r = some (record { entry = r; other = [] })

abbrev adding : Calls
adding = record {
  done = false;
  before = showing none;
  latest = showing none;
  after = showing added;
  saving_intent = saved;
  saving_owned = saved;
  works = true;
}

abbrev nothing : List (Text × Text) → Text
nothing ms = []

abbrev left : List OwnedEntry
left =
    (ensure_each home nothing [] ((adding, codex) ∷ [])
      (record { entries = []; disk = []; runs = [] })).1.disk

ensure_each-recorded_example :
    let w =
      (ensure_each home nothing []
        ((adding, codex) ∷ [])
        (record { entries = []; disk = []; runs = [] })).1 in
    (read_ownership home (ok (some (document home w.disk))) ≡ some w.disk)
    × (all recorded w.runs ≡ true)
unfolding all data_mate.Agent.Ownership.known_agent data_mate.Base.text_eq read_ownership
    data_mate.Base.is_abs
ensure_each-recorded_example =
    ensure_each-recorded home nothing [] ((adding, codex) ∷ []) (err not_exist) [] refl (λ a. refl)
      refl

abbrev owned : OwnedEntry
owned = record (intent_of home codex) { phase = bytes "owned" }

left_owned : left ≡ owned ∷ []
unfolding ensure_each data_mate.Agent.Ensure.ensure data_mate.Base.find
    data_mate.Agent.Ownership.state_of data_mate.Base.text_eq
left_owned = refl

abbrev removing : Removing
removing = record {
  path_ok = true;
  before = showing added;
  works = true;
  after = showing none;
  saving = saved;
}

remove_each-recorded_example :
    let o =
      remove_each
        ((removing, codex) ∷ [])
        (record { entries = owned ∷ []; disk = owned ∷ []; runs = [] }) in
    (all recorded o.1.runs ≡ true)
    × (read_ownership home (ok (some (document home o.1.disk))) ≡ some o.1.disk)
    × ((has_failed o.0 || all_gone ((removing, codex) ∷ []) o.1.disk) ≡ true)
unfolding read_ownership data_mate.Base.text_eq data_mate.Agent.Ownership.fits
    data_mate.Base.contains data_mate.Base.is_abs
remove_each-recorded_example =
    remove_each-recorded home (ok (some (document home (owned ∷ [])))) (owned ∷ [])
      ((removing, codex) ∷ []) refl
