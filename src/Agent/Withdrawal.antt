-- ===== src/Agent/Withdrawal.antt =====
-- One step of `RemoveOwned` of internal/agent/ownership.go keeps the record in order.
use data_mate.Base.{
  ◌≡◌, refl, subst, Bool, true, false, not, Option, none, some, List, [], text_eq, text_eq_iff,
  text_eq_refl, if◌then◌else◌, all, Bool-cases, Option-cases, inl, inr, arith, is_empty,
}
use data_mate.Agent.Ownership.{
  OwnedEntry, Home, AgentError, inspection, conflict, entry_of, drop_entry, Registration, Snapshot,
  Adapter,
}
use data_mate.Agent.Ensure.{Site, Saving, saved, unsaved, is_saved, save}
use data_mate.Agent.Accepted.{check_entries-drop}
use data_mate.Agent.Recorded.{IsSound, save-IsSound}
use data_mate.Agent.Removal.{
  Removing, is_blocked, lacks_place, seen_by, is_removed, run_remove, withdraw, clear, forget,
  unless_failed, remove_entry,
}

-- A sound site whose record is as it is on the disk, and was `es`.
pub record Keeps (h : Home) (es : List OwnedEntry) (w : Site) : Type 0 where
  pub sound : IsSound h w
  pub in_step : w.disk ≡ w.entries
  pub same : w.entries ≡ es

either {ℓ} : {X : Type 0} (P : X → Type ℓ) (b : Bool) (x y : X) → P x → P y → P (if b then x else y)
either P true x y p q = p
either P false x y p q = q

module _ (h : Home) where
  withdraw-Keeps :
      (c : Removing) (a : Adapter) (e : OwnedEntry) (before : Snapshot) (r : Registration)
      (w : Site)
      → entry_of a.name w.entries ≡ some e
      → Keeps h w.entries w
      → Keeps h w.entries (withdraw c a e before r w).1
  unfolding withdraw all
  withdraw-Keeps c a e before r w found k =
      elim (Bool-cases (text_eq r.fingerprint e.fingerprint)) [
        | inr other ↦ rw other k
        | inl same ↦
            let print : r.fingerprint ≡ e.fingerprint =
              (text_eq_iff r.fingerprint e.fingerprint).0 same in
            let exact : text_eq e.fingerprint r.fingerprint ≡ true =
              rw print (text_eq_refl e.fingerprint) in
            let there : entry_of a.name w.disk ≡ some e = rw k.in_step found in
            let ran : Keeps h w.entries (run_remove a r w) = record {
              sound = record {
                in_memory = k.sound.in_memory;
                on_disk = k.sound.on_disk;
                all_recorded = ground (arith, k.sound.all_recorded, there, exact);
              };
              in_step = k.in_step;
              same = k.same;
            } in
            let P : Option AgentError × Site → Type 0 = λ o. Keeps h w.entries o.1 in
            rw same (
              either P (is_empty a.executable) _ _ k (
                either P (not c.works) _ _ ran
                  (either P (is_removed before (seen_by (lacks_place a e) c.after)) _ _ ran ran)))
      ]

  clear-Keeps :
      (c : Removing) (a : Adapter) (e : OwnedEntry) (before : Snapshot) (o : Option Registration)
      (w : Site)
      → entry_of a.name w.entries ≡ some e
      → Keeps h w.entries w
      → Keeps h w.entries (clear c a e before o w).1
  clear-Keeps c a e before none w found k = k
  clear-Keeps c a e before (some r) w found k = withdraw-Keeps c a e before r w found k

  -- A step that ended: the site is sound, and where there was no failure, in step, with the record `es`.
  pub record Ends (es : List OwnedEntry) (o : Option AgentError × Site) : Type 0 where
    pub sound : IsSound h o.1
    pub in_step : o.0 ≡ none → o.1.disk ≡ o.1.entries
    pub left : o.0 ≡ none → o.1.entries ≡ es

  forget-Ends :
      (s : Saving) (a : Adapter) (w : Site)
      → IsSound h w
      → Ends (drop_entry a.name w.entries) (forget s a w)
  unfolding forget save
  forget-Ends s a w v = go s (save-IsSound h (λ o. []) s next next-sound)
    where
      next : Site
      next = record w { entries = drop_entry a.name w.entries }

      next-sound : IsSound h next
      next-sound = record {
        in_memory = check_entries-drop h a.name [] w.entries v.in_memory;
        on_disk = v.on_disk;
        all_recorded = v.all_recorded;
      }

      go :
          (s : Saving)
          → IsSound h (save s next)
          → Ends
              (drop_entry a.name w.entries)
              (if is_saved s then (none, save s next) else (some inspection, save s next))
      go saved n = record { sound = n; in_step = λ e. refl; left = λ e. refl }
      go (unsaved d) n = record { sound = n; in_step = λ e. cc; left = λ e. cc }

  stopped-Ends :
      (es : List OwnedEntry) (x : AgentError) (w : Site) → IsSound h w → Ends es (some x, w)
  stopped-Ends es x w v = record { sound = v; in_step = λ e. cc; left = λ e. cc }

  unless_failed-Ends :
      (s : Saving) (a : Adapter) (es : List OwnedEntry) (o : Option AgentError × Site)
      → Keeps h es o.1
      → Ends (drop_entry a.name es) (unless_failed o (forget s a))
  unless_failed-Ends s a es (some x, w) k = stopped-Ends _ x w k.sound
  unless_failed-Ends s a es (none, w) k =
      subst (λ (gs : List OwnedEntry). Ends (drop_entry a.name gs) (forget s a w)) k.same
        (forget-Ends s a w k.sound)

  pub remove_entry-Ends :
      (c : Removing) (a : Adapter) (e : OwnedEntry) (w : Site)
      → entry_of a.name w.entries ≡ some e
      → Keeps h w.entries w
      → Ends (drop_entry a.name w.entries) (remove_entry c a e w)
  unfolding remove_entry
  remove_entry-Ends c a e w found k =
      either (Ends (drop_entry a.name w.entries)) (is_blocked c a e) _ _
        (stopped-Ends _ conflict w k.sound) looked
    where
      looked :
          Ends
            (drop_entry a.name w.entries)
            (elim (seen_by (lacks_place a e) c.before) as (λ _. Option AgentError × Site) [
              | none ↦ (some inspection, w)
              | some before ↦ unless_failed (clear c a e before before.entry w) (forget c.saving a)
            ])
      looked = elim (Option-cases (seen_by (lacks_place a e) c.before)) [
        | inl lost ↦ rw lost (stopped-Ends _ inspection w k.sound)
        | inr (before, seen) ↦ rw seen (
            unless_failed-Ends c.saving a w.entries _
              (clear-Keeps c a e before before.entry w found k))
      ]
