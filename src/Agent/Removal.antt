-- ===== src/Agent/Removal.antt =====
-- `RemoveOwned` of internal/agent/ownership.go. It ends at the first failure.
use data_mate.Base.{
  Bool, false, not, ◌&&◌, Option, none, some, List, [], ◌∷◌, text_eq, if◌then◌else◌, is_empty,
}
use data_mate.Agent.Ownership.{
  OwnedEntry, AgentError, inspection, conflict, entry_of, drop_entry, Registration, Snapshot,
  preserved, Adapter,
}
use data_mate.Agent.Ensure.{Site, Saving, is_saved, save}

-- The results of the calls: the check of a directory, the inspections, the command, the save.
pub record Removing : Type 0 where
  pub path_ok : Bool
  pub before : Option Snapshot
  pub works : Bool
  pub after : Option Snapshot
  pub saving : Saving

-- The place of the configuration is that of the record, and known.
abbrev pub is_blocked : Removing → Adapter → OwnedEntry → Bool
is_blocked c a e = not (text_eq a.path e.config) && not c.path_ok

abbrev pub lacks_place : Adapter → OwnedEntry → Bool
lacks_place a e = text_eq a.path e.config && a.fault

abbrev pub seen_by : Bool → Option Snapshot → Option Snapshot
seen_by lost s = if lost then none else s

-- What the command left.
unfoldable pub is_removed : Snapshot → Option Snapshot → Bool
unfolding preserved
is_removed before none = false
is_removed before (some after) = elim after.entry [
  | none ↦ preserved before.other after.other
  | some r ↦ false
]

abbrev pub run_remove : Adapter → Registration → Site → Site
run_remove a r w = record w {
  runs = record { agent = a.name; fingerprint = r.fingerprint; disk = w.disk } ∷ w.runs;
}

-- Of an entry that is there, the command, and what came of it.
unfoldable pub withdraw :
    Removing → Adapter → OwnedEntry → Snapshot → Registration → Site → Option AgentError × Site
unfolding is_removed
withdraw c a e before r w =
    if not (text_eq r.fingerprint e.fingerprint)
    then (some conflict, w)
    else if is_empty a.executable
    then (some inspection, w)
    else if not c.works
    then (some inspection, run_remove a r w)
    else if is_removed before (seen_by (lacks_place a e) c.after)
    then (none, run_remove a r w)
    else (some conflict, run_remove a r w)

abbrev pub clear :
    Removing
    → Adapter
    → OwnedEntry
    → Snapshot
    → Option Registration
    → Site
    → Option AgentError × Site
clear c a e before none w = (none, w)
clear c a e before (some r) w = withdraw c a e before r w

-- The entry leaves the record.
unfoldable pub forget : Saving → Adapter → Site → Option AgentError × Site
unfolding save drop_entry
forget s a w =
    let after = save s (record w { entries = drop_entry a.name w.entries }) in
    if is_saved s then (none, after) else (some inspection, after)

abbrev pub unless_failed :
    Option AgentError × Site → (Site → Option AgentError × Site) → Option AgentError × Site
unless_failed (some e, w) k = (some e, w)
unless_failed (none, w) k = k w

unfoldable pub remove_entry : Removing → Adapter → OwnedEntry → Site → Option AgentError × Site
unfolding withdraw forget
remove_entry c a e w =
    if is_blocked c a e then (some conflict, w) else elim (seen_by (lacks_place a e) c.before) [
      | none ↦ (some inspection, w)
      | some before ↦ unless_failed (clear c a e before before.entry w) (forget c.saving a)
    ]

abbrev pub remove_one : Removing → Adapter → Option OwnedEntry → Site → Option AgentError × Site
remove_one c a none w = (none, w)
remove_one c a (some e) w = remove_entry c a e w

unfoldable pub remove_each : List (Removing × Adapter) → Site → Option AgentError × Site
remove_each [] w = (none, w)
remove_each (t ∷ ts) w =
    unless_failed (remove_one t.0 t.1 (entry_of t.1.name w.entries) w) (remove_each ts)

-- `RemoveOwned` after the record was read.
unfoldable pub remove_owned :
    Option (List OwnedEntry) → List (Removing × Adapter) → Site → Option AgentError × Site
remove_owned none ts w = (some inspection, w)
remove_owned (some es) ts w = remove_each ts (record w { entries = es })
