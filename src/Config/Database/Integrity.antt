-- ===== src/Config/Database/Integrity.antt =====
-- The tables of internal/config/database.go keep their constraints through every publication.
use data_mate.Base.{
  ◌≤◌, ◌≡◌, refl, inl, inr, Bool, true, false, not, ◌&&◌, Bool-cases, List, [], ◌∷◌, text_eq, any,
  keep, ok, state, guard-ok, subst, arith,
}
use data_mate.Config.Profile.{Profile, Profiles}
use data_mate.Config.Profiles.{Codec}
use data_mate.Config.Database.{
  Db, ProfileRow, Ciphertext, Revision, insertable_profile, insertable_bundle, overlaps,
  foreign_keys, payloads, max_total,
}
use data_mate.Config.Database.Read.{Lease}
use data_mate.Config.Database.Publish.{
  Statement, delete_bundle, insert_bundle, insert_profile, Calls, row_of, replace_bundles,
  insert_profiles, delete_unreferenced, publish,
}
use data_mate.Config.Database.Atomic.{prepare-Prepared, publish-cases}
use data_mate.Config.Database.Ran.{transaction-Ran}

-- Each row satisfies the constraints beside those below it.
abbrev pub IsBundleTable : List Ciphertext → Type 0
IsBundleTable [] = Unit {0}
IsBundleTable (b ∷ bs) = (insertable_bundle bs b ≡ true) × IsBundleTable bs

abbrev pub IsProfileTable : List ProfileRow → Type 0
IsProfileTable [] = Unit {0}
IsProfileTable (r ∷ rs) = (insertable_profile rs r ≡ true) × IsProfileTable rs

-- Unique and bounded rows, intact foreign keys, and a bounded total.
pub record IsIntact (db : Db) : Type 0 where
  pub bundles : IsBundleTable db.bundles
  pub profiles : IsProfileTable db.profiles
  pub keys : foreign_keys db.profiles db.bundles ≡ true
  pub small : payloads db.bundles ≤ max_total

any-keep {ℓ} :
    {A : Type ℓ} (p q : A → Bool) (xs : List A) → any p xs ≡ false → any p (keep q xs) ≡ false
unfolding any keep
any-keep p q [] h = refl
any-keep p q (x ∷ xs) h = ground (arith, any-keep p q xs)

insertable_bundle-keep :
    (q : Ciphertext → Bool) (bs : List Ciphertext) (b : Ciphertext)
    → insertable_bundle bs b ≡ true
    → insertable_bundle (keep q bs) b ≡ true
unfolding insertable_bundle
insertable_bundle-keep q bs b h = ground (arith, any-keep (overlaps b) q bs)

keep-IsBundleTable :
    (q : Ciphertext → Bool) (bs : List Ciphertext) → IsBundleTable bs → IsBundleTable (keep q bs)
unfolding keep
keep-IsBundleTable q [] h = tt
keep-IsBundleTable q (b ∷ bs) h = elim (Bool-cases (q b)) [
  | inl e ↦ rw (e, keep) (insertable_bundle-keep q bs b h.0, keep-IsBundleTable q bs h.1)
  | inr e ↦ rw (e, keep) (keep-IsBundleTable q bs h.1)
]

replace_bundles-IsBundleTable :
    (runs : Statement → Bool) (bs rest : List Ciphertext) {out : List Ciphertext}
    → IsBundleTable bs
    → replace_bundles runs bs rest ≡ ok out
    → IsBundleTable out
unfolding replace_bundles
replace_bundles-IsBundleTable runs bs [] t h = subst IsBundleTable (ground arith) t
replace_bundles-IsBundleTable runs bs (b ∷ rest) t h =
    let h₁ = (guard-ok (runs (delete_bundle b.connection_id)) state _ h).1 in
    let others = keep (λ (c : Ciphertext). not (text_eq c.connection_id b.connection_id)) bs in
    let (fits, h₂) =
      guard-ok (runs (insert_bundle b.connection_id) && insertable_bundle others b) state _ h₁ in
    replace_bundles-IsBundleTable runs (b ∷ others) rest
      (ground (arith, fits), keep-IsBundleTable _ bs t) h₂

insert_profiles-IsProfileTable :
    (codec : Codec) (runs : Statement → Bool) (rows : List ProfileRow) (ps : List Profile)
    {out : List ProfileRow}
    → IsProfileTable rows
    → insert_profiles codec runs rows ps ≡ ok out
    → IsProfileTable out
unfolding insert_profiles
insert_profiles-IsProfileTable codec runs rows [] t h = subst IsProfileTable (ground arith) t
insert_profiles-IsProfileTable codec runs rows (p ∷ ps) t h =
    let (fits, h₁) =
      guard-ok (runs (insert_profile p.id) && insertable_profile rows (row_of codec p)) state _ h in
    insert_profiles-IsProfileTable codec runs (row_of codec p ∷ rows) ps (ground (arith, fits), t)
      h₁

-- Whatever is published, and however its statements and its commit end, tables whose rows are unique
-- and bounded, whose foreign keys hold and whose ciphertext is within its total stay so.
pub publish-IsIntact :
    (codec : Codec) (calls : Calls) (l : Lease) (db : Db) (p : Profiles) (expected : Revision)
    (replacements : List Ciphertext)
    → IsIntact db
    → IsIntact (publish codec calls l db p expected replacements).1
publish-IsIntact codec calls l db p expected replacements intact =
    elim (publish-cases codec calls l db p expected replacements) [
      | inr refused ↦ rw refused.tables intact
      | inl (next, rev, prepared, took) ↦
          let w = prepare-Prepared codec calls l db p expected replacements prepared in
          let r = transaction-Ran codec calls.runs db w.admitted.0.connections replacements w.ran in
          rw took.tables (record {
            bundles = rw r.kept (
                unfold delete_unreferenced in
                keep-IsBundleTable _ r.bs (
                  replace_bundles-IsBundleTable calls.runs db.bundles replacements intact.bundles
                    r.replaced));
            profiles =
                insert_profiles-IsProfileTable codec calls.runs [] w.admitted.0.connections tt
                  r.inserted;
            keys = took.keys;
            small = r.small;
          })
    ]
