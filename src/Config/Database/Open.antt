-- ===== src/Config/Database/Open.antt =====
-- `checkObsolete`, `openDatabase` and `initializeDatabase` of internal/config/database.go. How each call on the
-- file system, on SQLite and on the locks ends is an argument.
use data_mate.Base.{
  ℕ, ◌≡◌, refl, ◌⊎◌, inl, Bool, true, false, not, ◌&&◌, Option, none, some, List, [], ◌∷◌, Text,
  bytes, text_eq, all, ltb, ◌==◌, if◌then◌else◌, Result, ok, err, state, ownership, obsolete,
  recovery, not_exist, ◌>>◌, guard, arith,
}
use data_mate.Config.Identity.{Identity}
use data_mate.Config.Database.{Db}
use data_mate.Config.Database.Read.{validate_database}

-- How `Fstatat` ends.
pub data Stat : Type 0 where
  there gone failed : Stat

-- `checkObsolete`, over what it finds at each of its paths.
unfoldable pub check_obsolete : List Stat → Result (Unit {0})
check_obsolete [] = ok tt
check_obsolete (there ∷ more) = err obsolete
check_obsolete (gone ∷ more) = check_obsolete more
check_obsolete (failed ∷ more) = err ownership

abbrev pub is_gone : Stat → Bool
is_gone gone = true
is_gone there = false
is_gone failed = false

-- How the calls of `openDatabase` end.
pub record Opening : Type 0 where
  pub valid_root : Result (Unit {0})
  pub obsolete_paths : List Stat
  pub open_file : Result (Unit {0})
  pub open_journal : Result (Unit {0})
  pub wal_and_shm : List Stat
  pub create_file : Result (Unit {0})
  pub opens : Bool
  pub pings : Bool
  -- each pragma that is set
  pub sets : List Bool
  pub journal_mode : Option Text
  -- each pragma that is read, with the value that it is to have
  pub reads : List (ℕ × Option ℕ)

-- The database's file may be absent only where it is to be created; its journal may be absent.
abbrev pub may_lack : Bool → Result (Unit {0}) → Result (Unit {0})
may_lack create (ok u) = ok tt
may_lack create (err not_exist) = if create then ok tt else err state
may_lack create (err e) = err ownership

abbrev pub has_value : ℕ × Option ℕ → Bool
has_value (expected, none) = false
has_value (expected, some v) = v == expected

abbrev pub is_delete : Option Text → Bool
is_delete none = false
is_delete (some mode) = text_eq mode (bytes "delete")

-- `openDatabase`.
unfoldable pub open_database : Opening → Bool → Bool → Result (Unit {0})
open_database o write create = do
  o.valid_root
  check_obsolete o.obsolete_paths
  may_lack create o.open_file
  may_lack true o.open_journal
  guard (all is_gone o.wal_and_shm) state
  if create then o.create_file else ok tt
  guard o.opens state
  guard o.pings (if write then state else recovery)
  guard (all (λ b. b) o.sets) state
  guard (is_delete o.journal_mode) state
  guard (all has_value o.reads) state

-- How the calls of `initializeDatabase` end; `tables` is the number of the tables of the file.
pub record Initializing : Type 0 where
  pub local_state : Result (Unit {0})
  pub gate : Result (Unit {0})
  pub state_lock : Result (Unit {0})
  pub opening : Opening
  pub tables : Option ℕ
  pub begins : Bool
  pub creates : Bool
  pub inserts : Bool
  pub commits : Bool
  -- a commit that reports an error and is durable all the same
  pub durable : Bool

-- The tables of a new installation.
abbrev pub fresh : Identity → Db
fresh id = record {
  installation = some (record {
    schema_version = 1;
    installation_id = id.id;
    root_digest = id.root_digest;
    generation = 0;
  });
  profiles = [];
  bundles = [];
  keyset = none;
}

-- The locks and the file.
admit_file : Initializing → Bool → Result (Unit {0})
admit_file c established = do
  c.local_state
  c.gate
  c.state_lock
  open_database c.opening true (not established)

-- What is not committed is rolled back.
create_tables : Initializing → Identity → Db → Result (Unit {0}) × Db
create_tables c id db =
    if not (c.begins && c.creates && c.inserts)
    then (err state, db)
    else if c.commits
    then (validate_database id (fresh id), fresh id)
    else (err state, if c.durable then fresh id else db)

-- A file with tables can be an interrupted creation, but nothing is added to it.
found_tables : Initializing → Identity → Db → Option ℕ → Result (Unit {0}) × Db
unfolding create_tables
found_tables c id db none = (err state, db)
found_tables c id db (some n) =
    if ltb 0 n then (validate_database id db, db) else create_tables c id db

initialized : Initializing → Identity → Bool → Db → Result (Unit {0}) → Result (Unit {0}) × Db
unfolding found_tables
initialized c id established db (err e) = (err e, db)
initialized c id established db (ok u) =
    if established then (validate_database id db, db) else found_tables c id db c.tables

-- `initializeDatabase`, with `ProfilesEstablished` of the identity.
unfoldable pub initialize_database : Initializing → Identity → Bool → Db → Result (Unit {0}) × Db
unfolding initialized admit_file
initialize_database c id established db = initialized c id established db (admit_file c established)

initialized-cases :
    (c : Initializing) (id : Identity) (established : Bool) (db : Db) (r : Result (Unit {0}))
    → ((initialized c id established db r).1 ≡ db)
      ⊎ ((established ≡ false)
          × (c.tables ≡ some 0)
          × ((initialized c id established db r).1 ≡ fresh id))
unfolding initialized found_tables create_tables
initialized-cases c id established db (err e) = inl refl
initialized-cases c id established db (ok u) = ground arith

initialized-valid :
    (c : Initializing) (id : Identity) (established : Bool) (db : Db) (r : Result (Unit {0}))
    → (initialized c id established db r).0 ≡ ok tt
    → validate_database id (initialized c id established db r).1 ≡ ok tt
unfolding initialized found_tables create_tables
initialized-valid c id established db (err e) h = cc
initialized-valid c id established db (ok u) h = ground arith

-- However the opening of an installation ends, its tables are those that were there, unless the
-- installation was not established and the file had no table: then they may be those of a new
-- installation.
pub initialize_database-cases :
    (c : Initializing) (id : Identity) (established : Bool) (db : Db)
    → ((initialize_database c id established db).1 ≡ db)
      ⊎ ((established ≡ false)
          × (c.tables ≡ some 0)
          × ((initialize_database c id established db).1 ≡ fresh id))
unfolding initialize_database
initialize_database-cases c id established db =
    initialized-cases c id established db (admit_file c established)

-- Where the opening of an installation succeeds, its database is that of this installation.
pub initialize_database-valid :
    (c : Initializing) (id : Identity) (established : Bool) (db : Db)
    → (initialize_database c id established db).0 ≡ ok tt
    → validate_database id (initialize_database c id established db).1 ≡ ok tt
unfolding initialize_database
initialize_database-valid c id established db =
    initialized-valid c id established db (admit_file c established)
