-- ===== src/Config/Database/Publish.antt =====
-- `Publish` of internal/config/database.go: one transaction over the profiles, the bundles and the
-- generation. Which statements run, and how the commit ends, are arguments.
use data_mate.Base.{
  ℕ, ◌+◌, Bool, true, false, not, ◌&&◌, Option, none, some, List, [], ◌∷◌, Text, text_eq, any, keep,
  leb, if◌then◌else◌, Result, ok, err, state, ownership, revision, commit_unknown, ◌>>=◌, ◌>>◌,
  guard,
}
use data_mate.Config.Profile.{Profile, Profiles}
use data_mate.Config.Profiles.{Codec, decode_profiles, is_set}
use data_mate.Config.Database.{
  Db, Installation, ProfileRow, Ciphertext, Revision, revision_eq, insertable_profile,
  insertable_bundle, foreign_keys, payloads, max_total, same_ref,
}
use data_mate.Config.Database.Read.{Lease, profile_snapshot}

-- The statements of the transaction, in their order; a bundle and a profile are named by their ids.
pub data Statement : Type 0 where
  begin delete_profiles delete_orphans sum_payloads next_generation : Statement
  delete_bundle insert_bundle insert_profile : Text → Statement

-- `unknown true` is a commit that is durable although it reported an error.
pub data Commit : Type 0 where
  committed : Commit
  unknown : Bool → Commit

pub record Calls : Type 0 where
  pub runs : Statement → Bool
  pub before_commit : Result (Unit {0})
  pub context : Result (Unit {0})
  pub recheck : Result (Unit {0})
  pub commit : Commit
  pub after_commit : Result (Unit {0})

unfoldable pub row_of : Codec → Profile → ProfileRow
row_of codec p = record {
  id = p.id;
  alias = p.alias;
  settings = codec.print_profile p;
  credential_ref = if is_set p.credential_ref then some p.credential_ref else none;
}

-- The loop over the replacements.
unfoldable pub replace_bundles :
    (Statement → Bool) → List Ciphertext → List Ciphertext → Result (List Ciphertext)
replace_bundles runs bs [] = ok bs
replace_bundles runs bs (b ∷ rest) = do
  guard (runs (delete_bundle b.connection_id)) state
  let others = keep (λ (c : Ciphertext). not (text_eq c.connection_id b.connection_id)) bs
  guard (runs (insert_bundle b.connection_id) && insertable_bundle others b) state
  replace_bundles runs (b ∷ others) rest

-- The loop over the profiles.
unfoldable pub insert_profiles :
    Codec → (Statement → Bool) → List ProfileRow → List Profile → Result (List ProfileRow)
unfolding row_of
insert_profiles codec runs rows [] = ok rows
insert_profiles codec runs rows (p ∷ ps) = do
  let r = row_of codec p
  guard (runs (insert_profile p.id) && insertable_profile rows r) state
  insert_profiles codec runs (r ∷ rows) ps

-- `reference NOT IN (SELECT credential_ref FROM profiles WHERE credential_ref IS NOT NULL)`.
unfoldable pub delete_unreferenced : List ProfileRow → List Ciphertext → List Ciphertext
delete_unreferenced rows = keep (λ (b : Ciphertext).
    any (λ (r : ProfileRow). same_ref r.credential_ref (some b.reference)) rows)

-- `generation=generation+1 … RETURNING generation`.
unfoldable pub advance : Option Installation → Result Installation
advance none = err state
advance (some i) = ok (record i { generation = i.generation + 1 })

-- The tables that the transaction would commit.
unfoldable pub transaction :
    Codec → (Statement → Bool) → Db → List Profile → List Ciphertext → Result (Db × ℕ)
unfolding advance
transaction codec runs db ps replacements = do
  guard (runs begin && runs delete_profiles) state
  bs ← replace_bundles runs db.bundles replacements
  rows ← insert_profiles codec runs [] ps
  guard (runs delete_orphans) state
  let kept = delete_unreferenced rows bs
  guard (runs sum_payloads && leb (payloads kept) max_total) state
  guard (runs next_generation) state
  i ← advance db.installation
  ok (record db { installation = some i; profiles = rows; bundles = kept }, i.generation)

-- What the guards before the transaction let through: the normalised profiles and their digest.
unfoldable pub admit : Codec → Lease → Db → Profiles → Revision → Result (Profiles × Text)
admit codec l db p expected = do
  guard l.write ownership
  (q, digest) ← decode_profiles codec (codec.print p)
  (_, current) ← profile_snapshot codec l db
  guard (revision_eq current expected) revision
  ok (q, digest)

-- The commit, which checks the deferred keys, and what follows it.
unfoldable pub finish : Commit → Result (Unit {0}) → Db → Db → Revision → Result Revision × Db
finish committed after db next rev = elim (foreign_keys next.profiles next.bundles) [
  | false ↦ (err commit_unknown, db)
  | true ↦ elim after [ ok _ ↦ (ok rev, next) | err e ↦ (err commit_unknown, next) ]
]
finish (unknown durable) after db next rev =
    (err commit_unknown, if durable && foreign_keys next.profiles next.bundles then next else db)

-- Everything before the commit.
unfoldable pub prepare :
    Codec → Calls → Lease → Db → Profiles → Revision → List Ciphertext → Result (Db × Revision)
prepare codec calls l db p expected replacements = do
  (q, digest) ← admit codec l db p expected
  (next, generation) ← transaction codec calls.runs db q.connections replacements
  calls.before_commit
  calls.context
  calls.recheck
  ok (next, record { digest = digest; generation = generation })

-- `Publish`: the result, and the tables that other connections then read.
unfoldable pub publish :
    Codec → Calls → Lease → Db → Profiles → Revision → List Ciphertext → Result Revision × Db
unfolding finish
publish codec calls l db p expected replacements =
    elim (prepare codec calls l db p expected replacements) [
      | err e ↦ (err e, db)
      | ok (next, rev) ↦ finish calls.commit calls.after_commit db next rev
    ]

-- `SaveProfiles`.
unfoldable pub save_profiles :
    Codec → Calls → Lease → Db → Profiles → Revision → Result Revision × Db
save_profiles codec calls l db p expected = publish codec calls l db p expected []
