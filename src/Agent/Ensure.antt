-- ===== src/Agent/Ensure.antt =====
-- `Ensure` of internal/agent/ownership.go. What the calls outside return is data: other programs may change
-- a configuration at any time. `Ensure` makes one error of all, so those of calls are one here.
use data_mate.Base.{
  Bool, true, false, not, ◌||◌, Option, none, some, List, [], ◌∷◌, Text, bytes, text_eq,
  if◌then◌else◌, is_empty,
}
use data_mate.Agent.Ownership.{
  OwnedEntry, Home, AgentError, inspection, partial, conflict, entry_of, put_entry, own_entry,
  Snapshot, preserved, Adapter, State, unavailable, pending, clash, disabled, ready, failed,
  state_of,
}

-- A command that was run for an agent, with the record that was then on the disk.
pub record Run : Type 0 where
  pub agent : Text
  pub fingerprint : Text
  pub disk : List OwnedEntry

-- The entries in memory, those on the disk, and the commands that were run, the last first.
pub record Site : Type 0 where
  pub entries : List OwnedEntry
  pub disk : List OwnedEntry
  pub runs : List Run

-- How a save ends; one that fails may have replaced the document, or not.
pub data Saving : Type 0 where
  saved : Saving
  unsaved : Bool → Saving

-- The results of the calls: whether the context is done, the three inspections, the saves, the command.
pub record Calls : Type 0 where
  pub done : Bool
  pub before : Option Snapshot
  pub latest : Option Snapshot
  pub after : Option Snapshot
  pub saving_intent : Saving
  pub saving_owned : Saving
  pub works : Bool

abbrev pub is_saved : Saving → Bool
is_saved saved = true
is_saved (unsaved durable) = false

abbrev pub reaches_disk : Saving → Bool
reaches_disk saved = true
reaches_disk (unsaved durable) = durable

-- `save`.
unfoldable pub save : Saving → Site → Site
save s w = if reaches_disk s then record w { disk = w.entries } else w

abbrev pub Outcome : Type 0
Outcome = State × Option AgentError

abbrev pub failure : Site → Outcome × Site
failure w = ((failed, some inspection), w)

-- An inspection of an agent whose configuration has no known place fails.
abbrev pub inspected : Adapter → Option Snapshot → Option Snapshot
inspected a s = if a.fault then none else s

-- The entry of the agent becomes owned.
unfoldable pub own : Saving → Adapter → Site → Outcome × Site
unfolding save own_entry
own s a w =
    let after = save s (record w { entries = own_entry a.name w.entries }) in
    if is_saved s then ((ready, none), after) else failure after

abbrev pub intent_of : Home → Adapter → OwnedEntry
intent_of h a = record {
  agent = a.name;
  config = a.path;
  name = h.name;
  command = h.executable;
  args = h.args;
  fingerprint = h.fingerprint_for a.name;
  phase = bytes "intent";
}

module _ (h : Home) (print : List (Text × Text) → Text) where
  -- What the command did; no entry has another fingerprint than any entry.
  unfoldable pub conclude : Calls → Adapter → Snapshot → Site → Outcome × Site
  unfolding own preserved
  conclude c a before w = elim (inspected a c.after) [
    | none ↦ failure w
    | some after ↦
        if not (preserved before.other after.other)
        then ((clash, some conflict), w)
        else if not (registered after)
        then failure w
        else if c.works
        then own c.saving_owned a w
        else failure w
  ]
    where
      registered : Snapshot → Bool
      registered s = elim s.entry [
        | none ↦ false
        | some r ↦ text_eq r.fingerprint (h.fingerprint_for a.name)
      ]

  abbrev pub run_add : Adapter → Site → Site
  run_add a w = record w {
    runs =
        record { agent = a.name; fingerprint = h.fingerprint_for a.name; disk = w.disk } ∷ w.runs;
  }

  -- The configuration is the same as before the intent was saved, and still has no entry.
  abbrev pub is_untouched : Snapshot → Snapshot → Bool
  is_untouched before latest = elim latest.entry [
    | some r ↦ false
    | none ↦ text_eq (print latest.other) (print before.other)
  ]

  unfoldable pub attempt : Calls → Adapter → Snapshot → Site → Outcome × Site
  unfolding conclude
  attempt c a before w = elim (inspected a c.latest) [
    | none ↦ failure w
    | some latest ↦
        if is_untouched before latest
        then conclude c a before (run_add a w)
        else ((clash, some conflict), w)
  ]

  unfoldable pub register : Calls → Adapter → Snapshot → Site → Outcome × Site
  unfolding attempt save put_entry
  register c a before w =
      let planned =
        save c.saving_intent (record w { entries = put_entry (intent_of h a) w.entries }) in
      if is_saved c.saving_intent then attempt c a before planned else failure planned

  abbrev pub adopt : Calls → Adapter → Option OwnedEntry → Site → Outcome × Site
  adopt c a none w = ((ready, none), w)
  adopt c a (some e) w =
      if text_eq e.phase (bytes "owned") then ((ready, none), w) else own c.saving_owned a w

  abbrev pub moved : Adapter → Option OwnedEntry → Bool
  moved a none = false
  moved a (some e) = not (text_eq e.config a.path)

  abbrev pub by_state : Calls → Adapter → Snapshot → State → Site → Outcome × Site
  by_state c a before clash w = ((clash, some conflict), w)
  by_state c a before disabled w = ((disabled, some partial), w)
  by_state c a before ready w = adopt c a (entry_of a.name w.entries) w
  by_state c a before unavailable w = register c a before w
  by_state c a before pending w = register c a before w
  by_state c a before failed w = register c a before w

  abbrev pub proceed : Calls → Text → Adapter → Snapshot → Site → Outcome × Site
  proceed c launch a before w =
      if moved a (entry_of a.name w.entries)
      then ((clash, some conflict), w)
      else by_state c a before (state_of launch a before.entry) w

  -- `ensure`.
  unfoldable pub ensure : Calls → Text → Adapter → Site → Outcome × Site
  unfolding register
  ensure c launch a w =
      if is_empty a.executable
      then ((unavailable, none), w)
      else if c.done
      then failure w
      else elim (inspected a c.before) [
        | none ↦ failure w
        | some before ↦ proceed c launch a before w
      ]

  -- The loop of `Ensure`: an agent's failure does not stop it.
  unfoldable pub ensure_each : Text → List (Calls × Adapter) → Site → List Outcome × Site
  ensure_each launch [] w = ([], w)
  ensure_each launch (t ∷ ts) w =
      let o = ensure t.0 launch t.1 w in
      let rest = ensure_each launch ts o.1 in (o.0 ∷ rest.0, rest.1)

  abbrev pub all_failed : List (Calls × Adapter) → List Outcome
  all_failed [] = []
  all_failed (t ∷ ts) = (failed, some partial) ∷ all_failed ts

  -- `Ensure` after the record was read; `purging` is the identity's.
  unfoldable pub ensure_loaded :
      Bool → Text → Option (List OwnedEntry) → List (Calls × Adapter) → Site → List Outcome × Site
  ensure_loaded purging launch none ts w = (all_failed ts, w)
  ensure_loaded purging launch (some es) ts w =
      if purging || is_empty h.executable
      then (all_failed ts, w)
      else ensure_each launch ts (record w { entries = es })
