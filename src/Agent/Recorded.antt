-- ===== src/Agent/Recorded.antt =====
-- What `Ensure` of internal/agent/ownership.go leaves, and what it had recorded when it ran a command.
use data_mate.Base.{
  ◌≡◌, refl, Bool, true, false, ◌&&◌, ◌||◌, Option, none, some, List, [], ◌∷◌, Text, bytes, text_eq,
  text_eq_refl, length, ◌==◌, if◌then◌else◌, contains, find, all, Result, ok, Bool-cases,
  Option-cases, inl, inr, arith, is_abs, is_empty,
}
use data_mate.Agent.Ownership.{
  OwnedEntry, Ownership, Home, known_agent, check_entries, read_ownership, entry_of, put_entry,
  own_entry, Snapshot, preserved, Adapter, State, unavailable, pending, clash, disabled, ready,
  failed, state_of,
}
use data_mate.Agent.Ensure.{
  Run, Site, Saving, saved, unsaved, Calls, is_saved, save, Outcome, failure, inspected, own,
  intent_of, conclude, run_add, is_untouched, attempt, register, adopt, moved, by_state, proceed,
  ensure, ensure_each,
}
use data_mate.Agent.Accepted.{
  check_entries-own, check_entries-put, fits-intent, document, read_ownership-document,
  read_ownership-accepted,
}

abbrev pub matches : Text → Option OwnedEntry → Bool
matches p none = false
matches p (some e) = text_eq e.fingerprint p

-- When the command was run, the disk held an entry of its agent with the fingerprint.
abbrev pub recorded : Run → Bool
recorded r = matches r.fingerprint (entry_of r.agent r.disk)

pub record IsSound (h : Home) (w : Site) : Type 0 where
  pub in_memory : check_entries h [] w.entries ≡ true
  pub on_disk : check_entries h [] w.disk ≡ true
  pub all_recorded : all recorded w.runs ≡ true

entry_of-put : (e : OwnedEntry) (es : List OwnedEntry) → entry_of e.agent (put_entry e es) ≡ some e
unfolding find put_entry
entry_of-put e [] = ground (arith, text_eq_refl e.agent)
entry_of-put e (d ∷ es) = ground (arith, text_eq_refl e.agent, entry_of-put e es)

module _ (h : Home) (print : List (Text × Text) → Text) where
  pub save-IsSound : (s : Saving) (w : Site) → IsSound h w → IsSound h (save s w)
  unfolding save
  save-IsSound saved w v = record {
    in_memory = v.in_memory;
    on_disk = v.in_memory;
    all_recorded = v.all_recorded;
  }
  save-IsSound (unsaved true) w v = record {
    in_memory = v.in_memory;
    on_disk = v.in_memory;
    all_recorded = v.all_recorded;
  }
  save-IsSound (unsaved false) w v = v

  own-IsSound : (s : Saving) (a : Adapter) (w : Site) → IsSound h w → IsSound h (own s a w).1
  unfolding own
  own-IsSound s a w v =
      let next =
        save-IsSound s (record w { entries = own_entry a.name w.entries })
          (record {
            in_memory = check_entries-own h a.name [] w.entries v.in_memory;
            on_disk = v.on_disk;
            all_recorded = v.all_recorded;
          }) in
      elim (Bool-cases (is_saved s)) [ inl good ↦ rw good next | inr bad ↦ rw bad next ]

  either-IsSound :
      (b : Bool) (o p : Outcome × Site)
      → IsSound h o.1
      → IsSound h p.1
      → IsSound h (if b then o else p).1
  either-IsSound true o p u v = u
  either-IsSound false o p u v = v

  conclude-IsSound :
      (c : Calls) (a : Adapter) (before : Snapshot) (w : Site)
      → IsSound h w
      → IsSound h (conclude h print c a before w).1
  unfolding conclude
  conclude-IsSound c a before w v = elim (Option-cases (inspected a c.after)) [
    | inl lost ↦ rw (conclude, lost) v
    | inr (after, seen) ↦ elim (Bool-cases (preserved before.other after.other)) [
      | inr changed ↦ rw (conclude, seen, changed) v
      | inl same ↦
          rw (conclude, seen, same)
            (either-IsSound _ _ _ v
              (either-IsSound c.works _ _ (own-IsSound c.saving_owned a w v) v))
    ]
  ]

  attempt-IsSound :
      (c : Calls) (a : Adapter) (before : Snapshot) (w : Site)
      → IsSound h w
      → entry_of a.name w.disk ≡ some (intent_of h a)
      → IsSound h (attempt h print c a before w).1
  unfolding attempt all
  attempt-IsSound c a before w v there = elim (Option-cases (inspected a c.latest)) [
    | inl lost ↦ rw (attempt, lost) v
    | inr (latest, seen) ↦ elim (Bool-cases (is_untouched h print before latest)) [
      | inr touched ↦ rw (attempt, seen, touched) v
      | inl same ↦
          rw (attempt, seen, same)
            (conclude-IsSound c a before (run_add h print a w) (record {
              in_memory = v.in_memory;
              on_disk = v.on_disk;
              all_recorded =
                  ground (arith, v.all_recorded, there, text_eq_refl (h.fingerprint_for a.name));
            }))
    ]
  ]

  -- An agent that is known and has a place, or none that is known.
  abbrev pub can_register : Adapter → Bool
  can_register a = known_agent a.name && (a.fault || is_abs a.path)

  register-IsSound :
      (c : Calls) (a : Adapter) (before : Snapshot) (w : Site)
      → known_agent a.name ≡ true
      → is_abs a.path ≡ true
      → (length (h.fingerprint_for a.name) == 64) ≡ true
      → IsSound h w
      → IsSound h (register h print c a before w).1
  unfolding register save contains
  register-IsSound c a before w k p l v =
      let entries = put_entry (intent_of h a) w.entries in
      let next =
        save-IsSound c.saving_intent (record w { entries = entries })
          (record {
            in_memory =
                check_entries-put h (intent_of h a) [] w.entries (fits-intent h a k p l) refl
                  v.in_memory;
            on_disk = v.on_disk;
            all_recorded = v.all_recorded;
          }) in
      go c.saving_intent next
    where
      planned : Site
      planned = record w { entries = put_entry (intent_of h a) w.entries }

      go :
          (s : Saving)
          → IsSound h (save s planned)
          → IsSound h
              (if is_saved s
                then attempt h print c a before (save s planned)
                else failure (save s planned)).1
      go saved n =
          attempt-IsSound c a before (save saved planned) n (entry_of-put (intent_of h a) w.entries)
      go (unsaved durable) n = n

  adopt-IsSound :
      (c : Calls) (a : Adapter) (o : Option OwnedEntry) (w : Site)
      → IsSound h w
      → IsSound h (adopt h print c a o w).1
  adopt-IsSound c a none w v = v
  adopt-IsSound c a (some e) w v =
      either-IsSound (text_eq e.phase (bytes "owned")) _ _ v (own-IsSound c.saving_owned a w v)

  by_state-IsSound :
      (c : Calls) (a : Adapter) (before : Snapshot) (s : State) (w : Site)
      → known_agent a.name ≡ true
      → is_abs a.path ≡ true
      → (length (h.fingerprint_for a.name) == 64) ≡ true
      → IsSound h w
      → IsSound h (by_state h print c a before s w).1
  by_state-IsSound c a before clash w k p l v = v
  by_state-IsSound c a before disabled w k p l v = v
  by_state-IsSound c a before ready w k p l v = adopt-IsSound c a (entry_of a.name w.entries) w v
  by_state-IsSound c a before unavailable w k p l v = register-IsSound c a before w k p l v
  by_state-IsSound c a before pending w k p l v = register-IsSound c a before w k p l v
  by_state-IsSound c a before failed w k p l v = register-IsSound c a before w k p l v

  ensure-IsSound :
      (c : Calls) (launch : Text) (a : Adapter) (w : Site)
      → can_register a ≡ true
      → (length (h.fingerprint_for a.name) == 64) ≡ true
      → IsSound h w
      → IsSound h (ensure h print c launch a w).1
  unfolding ensure
  ensure-IsSound c launch a w r l v =
      either-IsSound (is_empty a.executable) _ _ v (either-IsSound c.done _ _ v looked)
    where
      looked :
          IsSound h
            (elim (inspected a c.before) as (λ _. Outcome × Site) [
              | none ↦ failure w
              | some before ↦ proceed h print c launch a before w
            ]).1
      looked = elim (Option-cases (inspected a c.before)) [
        | inl lost ↦ rw lost v
        | inr (before, seen) ↦
            let placed : a.fault ≡ false = ground (arith, seen) in
            rw seen (
              either-IsSound (moved h print a (entry_of a.name w.entries)) _ _ v (
                by_state-IsSound c a before (state_of launch a before.entry) w (ground (arith, r))
                  (ground (arith, r, placed)) l v))
      ]

  ensure_each-IsSound :
      (launch : Text) (ts : List (Calls × Adapter)) (w : Site)
      → all (λ t. can_register t.1) ts ≡ true
      → ((a : Text) → (length (h.fingerprint_for a) == 64) ≡ true)
      → IsSound h w
      → IsSound h (ensure_each h print launch ts w).1
  unfolding ensure_each all
  ensure_each-IsSound launch [] w r l v = v
  ensure_each-IsSound launch (t ∷ ts) w r l v =
      ensure_each-IsSound launch ts (ensure h print t.0 launch t.1 w).1 (ground (arith, r)) l
        (ensure-IsSound t.0 launch t.1 w (ground (arith, r)) (l t.1.name) v)

-- However the calls of an `Ensure` end, and whatever they show: the record that it leaves on the disk is one
-- that is read again, and each command that was run for an agent was run when the disk held an entry of
-- that agent with the fingerprint of what was to be registered. The agents are those of the program, and
-- a fingerprint has 64 digits.
pub ensure_each-recorded :
    (h : Home) (print : List (Text × Text) → Text) (launch : Text) (ts : List (Calls × Adapter))
    (file : Result (Option Ownership)) (es : List OwnedEntry)
    → all (λ t. can_register h print t.1) ts ≡ true
    → ((a : Text) → (length (h.fingerprint_for a) == 64) ≡ true)
    → read_ownership h file ≡ some es
    → let w = (ensure_each h print launch ts (record { entries = es; disk = es; runs = [] })).1 in
      (read_ownership h (ok (some (document h w.disk))) ≡ some w.disk)
      × (all recorded w.runs ≡ true)
unfolding all
ensure_each-recorded h print launch ts file es r l was =
    let good = read_ownership-accepted h file es was in
    let end =
      ensure_each-IsSound h print launch ts (record { entries = es; disk = es; runs = [] }) r l
        (record { in_memory = good.1; on_disk = good.1; all_recorded = refl }) in
    (read_ownership-document h _ good.0 end.on_disk, end.all_recorded)
