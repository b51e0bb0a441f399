-- ===== src/Config/Files/Whole.antt =====
-- A document that `replace` of internal/config/storage.go publishes is always whole.
use data_mate.Base.{
  ◌≡◌, refl, ◌∙◌, [], ◌⊎◌, inl, inr, true, false, Option, none, some, Text, Result, ok, err, Error,
  stale, guard, arith,
}
use data_mate.Config.Files.{
  File, Folder, Act, Calls, continue, change, confirm, fill, clean, created, recover, replace,
  remove, present, sync_sibling, rename_sibling, unlink_target,
}

abbrev pub durable : Text → Option File
durable b = some (record { content = b; synced = true })

-- The target is the old document, or the new one with its bytes on the disk; on success the new one.
abbrev pub Published : Option File → Text → Result (Unit {0}) × Folder → Type 0
Published old b (ok u, d) = d.target ≡ durable b
Published old b (err e, d) = (d.target ≡ old) ⊎ (d.target ≡ durable b)

module _ (P : Result (Unit {0}) × Folder → Type 0) where
  continue-ends :
      (r : Result (Unit {0})) (f : Act) (d : Folder)
      → ((e : Error) → P (err e, d))
      → P (f d)
      → P (continue r f d)
  continue-ends (ok u) f d p q = q
  continue-ends (err e) f d p q = p e

  change-ends :
      (r : Result (Unit {0})) (g : Folder → Folder) (f : Act) (d : Folder)
      → ((e : Error) → P (err e, d))
      → P (f (g d))
      → P (continue (change r g d).0 f (change r g d).1)
  change-ends (ok u) g f d p q = q
  change-ends (err e) g f d p q = p e

  last-ends :
      (r : Result (Unit {0})) (d : Folder) → ((e : Error) → P (err e, d)) → P (ok tt, d) → P (r, d)
  last-ends (ok u) d p q = q
  last-ends (err e) d p q = p e

module _ (c : Calls) (b : Text) (old : Option File) where
  confirm-Published : (d : Folder) → d.target ≡ durable b → Published old b (confirm c b d)
  unfolding confirm
  confirm-Published d h =
      let P = Published old b in
      let new = λ (e : Error). inr h in
      continue-ends P c.after_rename _ d new (
        continue-ends P c.before_directory_sync _ d new
          (continue-ends P c.sync_directory _ d new (last-ends P c.after_directory_sync d new h)))

  fill-Published : (d : Folder) → d.target ≡ old → Published old b (fill c b d)
  unfolding fill confirm
  fill-Published d h = written c.write refl
    where
      written : (r : Result (Unit {0})) → c.write ≡ r → Published old b (fill c b d)
      written (err e) w = rw (w, fill) (inl h)
      written (ok u) w =
          let P = Published old b in
          let kept = λ (e : Error). inl h in
          let d₁ = record d { sibling = some (record { content = b; synced = false }) } in
          let d₂ = record d { sibling = durable b } in
          rw (w, fill)
            (continue-ends P c.before_file_sync _ d₁ kept (
              change-ends P c.sync sync_sibling _ d₁ kept (
                continue-ends P c.after_file_sync _ d₂ kept (
                  continue-ends P c.valid_root _ d₂ kept (
                    continue-ends P (guard c.same_directory stale) _ d₂ kept (
                      continue-ends P c.open_again _ d₂ kept (
                        continue-ends P c.before_rename _ d₂ kept (
                          change-ends P c.rename rename_sibling _ d₂ kept
                            (confirm-Published _ refl)))))))))

  cleaned :
      (o : Result (Unit {0}) × Folder) → Published old b o → Published old b (o.0, clean c b o.1)
  unfolding clean
  cleaned (ok u, d) h = ground arith
  cleaned (err e, d) h = ground arith

  created-Published :
      (r : Result (Unit {0})) (d : Folder) → d.target ≡ old → Published old b (created c b r d)
  unfolding created
  created-Published (err e) d h = inl h
  created-Published (ok u) d h =
      let d' = record d { sibling = some (record { content = []; synced = false }) } in
      cleaned (fill c b d') (fill-Published d' h)

  recover-target : (d : Folder) → (recover c d).1.target ≡ d.target
  recover-target d = ground arith

  -- At whichever of its calls a publication of a document by `replace` ends, the
  -- document is the old one or the new one, and the new one only with all its bytes on the disk; and
  -- where it succeeds, the document is the new one.
  pub replace-Published : (d : Folder) → d.target ≡ old → Published old b (replace c b d)
  unfolding replace
  replace-Published d h =
      let P = Published old b in
      let kept = λ (e : Error). inl h in
      let h' = recover-target d ∙ h in
      continue-ends P c.directory _ d kept (
        continue-ends P c.open_target _ d kept (
          continue-ends P c.open_sibling _ d kept (
            continue-ends P (recover c d).0 _ (recover c d).1 (λ e. inl h')
              (created-Published c.create (recover c d).1 h'))))

  -- A removal that succeeded.
  abbrev pub Removed : Result (Unit {0}) × Folder → Type 0
  Removed (ok u, d) = d.target ≡ none
  Removed (err e, d) = (d.target ≡ old) ⊎ (d.target ≡ none)

  present-Removed :
      (t : Option File) (d : Folder) → d.target ≡ t → t ≡ old → Removed (present c b t d)
  unfolding present confirm
  present-Removed none d h e = h
  present-Removed (some f) d h e =
      let kept = λ (x : Error). inl (h ∙ e) in
      let gone = record d { target = none } in
      continue-ends Removed (guard c.same_directory stale) _ d kept (
        continue-ends Removed c.before_rename _ d kept (
          change-ends Removed c.rename unlink_target _ d kept (
            continue-ends Removed c.after_rename _ gone (λ x. inr refl)
              (continue-ends Removed c.before_directory_sync _ gone (λ x. inr refl)
                (continue-ends Removed c.sync_directory _ gone (λ x. inr refl)
                  (last-ends Removed c.after_directory_sync gone (λ x. inr refl) refl))))))

  -- At whichever of its calls a removal by `remove` ends, the document is the old one or is gone, and where
  -- it succeeds, it is gone.
  pub remove-Removed : (d : Folder) → d.target ≡ old → Removed (remove c b d)
  unfolding remove
  remove-Removed d h =
      continue-ends Removed c.directory _ d (λ e. inl h)
        (continue-ends Removed c.open_target _ d (λ e. inl h) (present-Removed d.target d refl h))
