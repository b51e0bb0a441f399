-- ===== src/Config/Database/Atomic.antt =====
-- `Publish` of internal/config/database.go is all or nothing, and a stale revision never gets through.
use data_mate.Base.{
  ℕ, ◌+◌, ◌≡◌, ◌≢◌, refl, sym, subst, ◌∙◌, ◌⊎◌, inl, inr, Bool, true, false, Bool-cases, some, List,
  Text, Result, ok, err, Error, commit_unknown, >>=-eq-ok, err-injective, arith,
}
use data_mate.Config.Profile.{Profile, Profiles}
use data_mate.Config.Profiles.{Codec}
use data_mate.Config.Database.{Db, Installation, Ciphertext, Revision, revision_eq, foreign_keys}
use data_mate.Config.Database.Read.{Lease, read_profiles, profile_snapshot}
use data_mate.Config.Database.Publish.{
  Statement, Calls, Commit, committed, unknown, transaction, admit, finish, prepare, publish,
}

-- A publication that took place.
pub record Took (db next : Db) (rev : Revision) (out : Result Revision × Db) : Type 0 where
  pub keys : foreign_keys next.profiles next.bundles ≡ true
  pub tables : out.1 ≡ next
  pub result : (out.0 ≡ ok rev) ⊎ (out.0 ≡ err commit_unknown)

-- A publication that left no trace.
pub record Refused (db : Db) (out : Result Revision × Db) : Type 0 where
  pub error : Error
  pub tables : out.1 ≡ db
  pub result : out.0 ≡ err error

abbrev keys : Db → Bool
keys next = foreign_keys next.profiles next.bundles

finish-cases :
    (c : Commit) (after : Result (Unit {0})) (db next : Db) (rev : Revision)
    → Took db next rev (finish c after db next rev) ⊎ Refused db (finish c after db next rev)
unfolding finish
finish-cases committed (ok u) db next rev = elim (Bool-cases (keys next)) [
  | inl e ↦ rw (e, finish) (inl (record { keys = e; tables = refl; result = inl refl }))
  | inr e ↦ rw (e, finish) (inr (record { error = commit_unknown; tables = refl; result = refl }))
]
finish-cases committed (err f) db next rev = elim (Bool-cases (keys next)) [
  | inl e ↦ rw (e, finish) (inl (record { keys = e; tables = refl; result = inr refl }))
  | inr e ↦ rw (e, finish) (inr (record { error = commit_unknown; tables = refl; result = refl }))
]
finish-cases (unknown true) after db next rev = elim (Bool-cases (keys next)) [
  | inl e ↦ rw (e, finish) (inl (record { keys = e; tables = refl; result = inr refl }))
  | inr e ↦ rw (e, finish) (inr (record { error = commit_unknown; tables = refl; result = refl }))
]
finish-cases (unknown false) after db next rev =
    inr (record { error = commit_unknown; tables = refl; result = refl })

module _ (codec : Codec) (calls : Calls) (l : Lease) (db : Db) (p : Profiles) (expected : Revision)
    (replacements : List Ciphertext) where
  -- Whatever happens, a publication ends in one of two ways. Either the tables are the transaction's,
  -- with the foreign keys intact, and the result is its revision or an uncertain commit; or the
  -- tables are the old ones, and the result is an error.
  pub publish-cases :
      ((next : Db) × (rev : Revision) × (prepare codec calls l db p expected replacements
          ≡ ok (next, rev))
        × Took db next rev (publish codec calls l db p expected replacements))
      ⊎ Refused db (publish codec calls l db p expected replacements)
  unfolding publish
  publish-cases = go (prepare codec calls l db p expected replacements) refl
    where
      go :
          (r : Result (Db × Revision))
          → prepare codec calls l db p expected replacements ≡ r
          → ((next : Db) × (rev : Revision) × (prepare codec calls l db p expected replacements
                ≡ ok (next, rev))
              × Took db next rev (publish codec calls l db p expected replacements))
            ⊎ Refused db (publish codec calls l db p expected replacements)
      go (err e) h = rw (h, publish) (inr (record { error = e; tables = refl; result = refl }))
      go (ok (next, rev)) h = elim (finish-cases calls.commit calls.after_commit db next rev) [
        | inl took ↦ inl (next, rev, h, rw (h, publish) took)
        | inr refused ↦ inr (rw (h, publish) refused)
      ]

  -- An error other than an uncertain commit leaves the tables as they were.
  pub publish-atomic :
      {e : Error}
      → (publish codec calls l db p expected replacements).0 ≡ err e
      → e ≢ commit_unknown
      → (publish codec calls l db p expected replacements).1 ≡ db
  publish-atomic h certain = elim publish-cases [
    | inl (next, rev, _, took) ↦ absurd (contradiction took.result)
    | inr refused ↦ refused.tables
  ]
    where
      contradiction :
          {rev : Revision}
          → (((publish codec calls l db p expected replacements).0 ≡ ok rev)
              ⊎ ((publish codec calls l db p expected replacements).0 ≡ err commit_unknown))
          → ⊥
      contradiction (inl e) = cc
      contradiction (inr e) = certain (err-injective (sym h ∙ e))

-- The generation of a snapshot is that of its tables.
read_profiles-generation :
    (codec : Codec) (l : Lease) (db : Db) {q : Profiles} {rev : Revision}
    → profile_snapshot codec l db ≡ ok (q, rev)
    → (i : Installation) × (db.installation ≡ some i) × (i.generation ≡ rev.generation)
unfolding profile_snapshot read_profiles
read_profiles-generation codec l db h = ground arith

-- What a transaction returns is the generation of its tables, one more than before.
transaction-generation :
    (codec : Codec) (runs : Statement → Bool) (db : Db) (ps : List Profile)
    (replacements : List Ciphertext) {next : Db} {g : ℕ} (i : Installation)
    → db.installation ≡ some i
    → transaction codec runs db ps replacements ≡ ok (next, g)
    → (g ≡ i.generation + 1)
      × (next.installation ≡ some (record i { generation = i.generation + 1 }))
unfolding transaction
transaction-generation codec runs db ps replacements i e h = ground arith

admit-revision :
    (codec : Codec) (l : Lease) (db : Db) (p : Profiles) (expected : Revision)
    {out : Profiles × Text}
    → admit codec l db p expected ≡ ok out
    → (current : Profiles × Revision) × (profile_snapshot codec l db ≡ ok current)
      × (revision_eq current.1 expected ≡ true)
unfolding admit
admit-revision codec l db p expected h = ground arith

-- What `prepare` went through.
pub record Prepared (codec : Codec) (calls : Calls) (l : Lease) (db : Db) (p : Profiles)
    (expected : Revision) (replacements : List Ciphertext) (next : Db) (rev : Revision)
    : Type 0 where
  pub admitted : Profiles × Text
  pub accepted : admit codec l db p expected ≡ ok admitted
  pub ran :
      transaction codec calls.runs db admitted.0.connections replacements
      ≡ ok (next, rev.generation)
  pub digest : rev.digest ≡ admitted.1

pub prepare-Prepared :
    (codec : Codec) (calls : Calls) (l : Lease) (db : Db) (p : Profiles) (expected : Revision)
    (replacements : List Ciphertext) {next : Db} {rev : Revision}
    → prepare codec calls l db p expected replacements ≡ ok (next, rev)
    → Prepared codec calls l db p expected replacements next rev
unfolding prepare
prepare-Prepared codec calls l db p expected replacements h =
    let (a, e, rest) = >>=-eq-ok (admit codec l db p expected) _ h in
    record { admitted = a; accepted = e; ran = ground arith; digest = ground arith }

-- The generations around a publication.
prepare-generation :
    (codec : Codec) (calls : Calls) (l : Lease) (db : Db) (p : Profiles) (expected : Revision)
    (replacements : List Ciphertext) {next : Db} {rev : Revision}
    → prepare codec calls l db p expected replacements ≡ ok (next, rev)
    → (i : Installation) × (db.installation ≡ some i)
      × (i.generation ≡ expected.generation)
      × (next.installation ≡ some (record i { generation = i.generation + 1 }))
prepare-generation codec calls l db p expected replacements h =
    let w = prepare-Prepared codec calls l db p expected replacements h in
    let (current, e, same) = admit-revision codec l db p expected w.accepted in
    let (i, here, g) = read_profiles-generation codec l db e in
    let (_, after) =
      transaction-generation codec calls.runs db w.admitted.0.connections replacements i here
        w.ran in
    (i, here, unfold revision_eq in ground arith, after)

prepare-stale :
    (codec : Codec) (calls later : Calls) (l k : Lease) (db : Db) (p q : Profiles)
    (expected : Revision) (replacements others : List Ciphertext) {next : Db} {rev : Revision}
    → prepare codec calls l db p expected replacements ≡ ok (next, rev)
    → Refused next (publish codec later k next q expected others)
prepare-stale codec calls later l k db p q expected replacements others {next} h =
    elim (publish-cases codec later k next q expected others) [
      | inr refused ↦ refused
      | inl (_, _, again, _) ↦
          let before = prepare-generation codec calls l db p expected replacements h in
          let after = prepare-generation codec later k next q expected others again in
          absurd (clash before.0 after.0 before.2 after.2 (sym before.3 ∙ after.1))
    ]
  where
    clash :
        (i j : Installation)
        → i.generation ≡ expected.generation
        → j.generation ≡ expected.generation
        → some (record i { generation = i.generation + 1 }) ≡ some j
        → ⊥
    clash i j a b e = ground arith

-- After a publication from some revision, another one from the same revision is refused with an
-- error and changes nothing, whatever it publishes and however its calls end.
pub publish-stale :
    (codec : Codec) (calls later : Calls) (l k : Lease) (db : Db) (p q : Profiles)
    (expected rev : Revision) (replacements others : List Ciphertext)
    → (publish codec calls l db p expected replacements).0 ≡ ok rev
    → Refused (publish codec calls l db p expected replacements).1 (
        publish codec later k
          (publish codec calls l db p expected replacements).1
          q
          expected
          others)
publish-stale codec calls later l k db p q expected rev replacements others h =
    elim (publish-cases codec calls l db p expected replacements) [
      | inr refused ↦ absurd (not_both refused.error refused.result)
      | inl (next, _, prepared, took) ↦
          subst (λ (d : Db). Refused d (publish codec later k d q expected others))
            (sym took.tables)
            (prepare-stale codec calls later l k db p q expected replacements others prepared)
    ]
  where
    not_both : (e : Error) → (publish codec calls l db p expected replacements).0 ≡ err e → ⊥
    not_both e g = cc
