-- ===== src/Agent/Removed.antt =====
-- What `RemoveOwned` of internal/agent/ownership.go removes, and what it leaves.
use data_mate.Base.{
  ◌≡◌, refl, sym, Bool, true, false, ◌&&◌, ◌||◌, Option, none, some, List, [], ◌∷◌, Text, text_eq,
  text_eq_iff, contains, find, all, Result, Bool-cases, inl, inr, ok, arith,
}
use data_mate.Agent.Ownership.{
  OwnedEntry, Ownership, Home, AgentError, check_entries, read_ownership, entry_of, drop_entry,
  Adapter,
}
use data_mate.Agent.Ensure.{Site}
use data_mate.Agent.Accepted.{
  contains-cons, document, read_ownership-document, read_ownership-accepted,
}
use data_mate.Agent.Recorded.{recorded, IsSound}
use data_mate.Agent.Removal.{Removing, unless_failed, remove_one, remove_each}
use data_mate.Agent.Withdrawal.{Keeps, Ends, remove_entry-Ends}

abbrev pub is_gone : Option OwnedEntry → Bool
is_gone none = true
is_gone (some e) = false

-- The record has no entry of any of the agents.
unfoldable pub all_gone : List (Removing × Adapter) → List OwnedEntry → Bool
all_gone [] es = true
all_gone (t ∷ ts) es = is_gone (entry_of t.1.name es) && all_gone ts es

drop_entry-absent : (a : Text) (es : List OwnedEntry) → entry_of a es ≡ none → drop_entry a es ≡ es
unfolding drop_entry find
drop_entry-absent a [] n = refl
drop_entry-absent a (d ∷ es) n = ground (arith, n, drop_entry-absent a es)

-- An agent that was seen is not met again.
seen-gone :
    (h : Home) (a : Text) (seen : List Text) (es : List OwnedEntry)
    → contains a seen ≡ true
    → check_entries h seen es ≡ true
    → is_gone (entry_of a es) ≡ true
unfolding check_entries find
seen-gone h a seen [] s c = refl
seen-gone h a seen (d ∷ es) s c = elim (Bool-cases (text_eq d.agent a)) [
  | inl same ↦
      let e : d.agent ≡ a = (text_eq_iff d.agent a).0 same in
      let new : contains d.agent seen ≡ false = ground (arith, c) in
      let fresh : contains a seen ≡ false = rw e at new in ground (arith, s, fresh)
  | inr other ↦
      let rest : check_entries h (d.agent ∷ seen) es ≡ true = ground (arith, c) in
      let still : contains a (d.agent ∷ seen) ≡ true = rw (contains-cons a d.agent seen, other) s in
      ground (arith, other, seen-gone h a (d.agent ∷ seen) es still rest)
]

drop_entry-gone :
    (h : Home) (a : Text) (seen : List Text) (es : List OwnedEntry)
    → check_entries h seen es ≡ true
    → is_gone (entry_of a (drop_entry a es)) ≡ true
unfolding check_entries drop_entry find
drop_entry-gone h a seen [] c = refl
drop_entry-gone h a seen (d ∷ es) c = elim (Bool-cases (text_eq d.agent a)) [
  | inl same ↦
      let rest : check_entries h (d.agent ∷ seen) es ≡ true = ground (arith, c) in
      let met : contains a (d.agent ∷ seen) ≡ true = rw (contains-cons a d.agent seen, same) refl in
      ground (arith, same, seen-gone h a (d.agent ∷ seen) es met rest)
  | inr other ↦ ground (arith, c, other, drop_entry-gone h a (d.agent ∷ seen) es)
]

drop_entry-other :
    (a b : Text) (es : List OwnedEntry)
    → is_gone (entry_of b es) ≡ true
    → is_gone (entry_of b (drop_entry a es)) ≡ true
unfolding drop_entry find
drop_entry-other a b [] g = refl
drop_entry-other a b (d ∷ es) g = ground (arith, g, drop_entry-other a b es)

module _ (h : Home) where
  -- The loop from a site: sound at its end; where it did not fail, the agents are gone, and none is new.
  record IsDone (ts : List (Removing × Adapter)) (w : Site) (o : Option AgentError × Site)
      : Type 0 where
    sound : IsSound h o.1
    gone : o.0 ≡ none → all_gone ts o.1.entries ≡ true
    in_step : o.0 ≡ none → o.1.disk ≡ o.1.entries
    no_new :
        (b : Text)
        → is_gone (entry_of b w.entries) ≡ true
        → o.0 ≡ none
        → is_gone (entry_of b o.1.entries) ≡ true

  remove_one-Ends :
      (c : Removing) (a : Adapter) (o : Option OwnedEntry) (w : Site)
      → entry_of a.name w.entries ≡ o
      → Keeps h w.entries w
      → Ends h (drop_entry a.name w.entries) (remove_one c a o w)
  remove_one-Ends c a none w found k = record {
    sound = k.sound;
    in_step = λ e. k.in_step;
    left = λ e. sym (drop_entry-absent a.name w.entries found);
  }
  remove_one-Ends c a (some e) w found k = remove_entry-Ends h c a e w found k

  unless_failed-IsDone :
      (t : Removing × Adapter) (ts : List (Removing × Adapter)) (w : Site)
      (o : Option AgentError × Site)
      → check_entries h [] w.entries ≡ true
      → ((v : Site) → Keeps h v.entries v → IsDone ts v (remove_each ts v))
      → Ends h (drop_entry t.1.name w.entries) o
      → IsDone (t ∷ ts) w (unless_failed o (remove_each ts))
  unfolding all_gone
  unless_failed-IsDone t ts w (some x, v) c later e = record {
    sound = e.sound;
    gone = λ n. cc;
    in_step = λ n. cc;
    no_new = λ b g n. cc;
  }
  unless_failed-IsDone t ts w (none, v) c later e =
      let rest = later v (record { sound = e.sound; in_step = e.in_step refl; same = refl }) in
      let dropped : v.entries ≡ drop_entry t.1.name w.entries = e.left refl in
      let absent : is_gone (entry_of t.1.name v.entries) ≡ true =
        rw dropped (drop_entry-gone h t.1.name [] w.entries c) in
      record {
        sound = rest.sound;
        gone = λ n. rw (rest.no_new t.1.name absent n, rest.gone n) refl;
        in_step = rest.in_step;
        no_new = λ b g n. rest.no_new b (rw dropped (drop_entry-other t.1.name b w.entries g)) n;
      }

  remove_each-IsDone :
      (ts : List (Removing × Adapter)) (w : Site)
      → Keeps h w.entries w
      → IsDone ts w (remove_each ts w)
  unfolding remove_each all_gone
  remove_each-IsDone [] w k = record {
    sound = k.sound;
    gone = λ e. refl;
    in_step = λ e. k.in_step;
    no_new = λ b g e. g;
  }
  remove_each-IsDone (t ∷ ts) w k =
      unless_failed-IsDone t ts w (remove_one t.0 t.1 (entry_of t.1.name w.entries) w)
        k.sound.in_memory (remove_each-IsDone ts)
        (remove_one-Ends t.0 t.1 (entry_of t.1.name w.entries) w refl k)

abbrev pub has_failed : Option AgentError → Bool
has_failed none = false
has_failed (some e) = true

-- However a `RemoveOwned` ends: each command to remove an entry was run when the disk held a record of that agent
-- with exactly the fingerprint of that entry, and the record that is left on the disk is one that is
-- read again. Where it succeeds, that record has none of the agents.
pub remove_each-recorded :
    (h : Home) (file : Result (Option Ownership)) (es : List OwnedEntry)
    (ts : List (Removing × Adapter))
    → read_ownership h file ≡ some es
    → let o = remove_each ts (record { entries = es; disk = es; runs = [] }) in
      (all recorded o.1.runs ≡ true)
      × (read_ownership h (ok (some (document h o.1.disk))) ≡ some o.1.disk)
      × ((has_failed o.0 || all_gone ts o.1.disk) ≡ true)
unfolding all
remove_each-recorded h file es ts was =
    let good = read_ownership-accepted h file es was in
    let start : Site = record { entries = es; disk = es; runs = [] } in
    let o = remove_each-IsDone h ts start (record {
      sound = record { in_memory = good.1; on_disk = good.1; all_recorded = refl };
      in_step = refl;
      same = refl;
    }) in
    (
      o.sound.all_recorded,
      read_ownership-document h _ good.0 o.sound.on_disk,
      ended (remove_each ts start) o.gone o.in_step,
    )
  where
    ended :
        (o : Option AgentError × Site)
        → (o.0 ≡ none → all_gone ts o.1.entries ≡ true)
        → (o.0 ≡ none → o.1.disk ≡ o.1.entries)
        → (has_failed o.0 || all_gone ts o.1.disk) ≡ true
    ended (some x, w) g s = refl
    ended (none, w) g s = let same : w.disk ≡ w.entries = s refl in rw same (g refl)
