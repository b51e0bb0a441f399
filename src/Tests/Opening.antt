-- ===== src/Tests/Opening.antt =====
-- `initializeDatabase` of internal/config/database.go on the absent file of a new installation.
use data_mate.Base.{◌≡◌, refl, ◌⊎◌, true, false, none, some, [], ◌∷◌, bytes, ok, err, not_exist}
use data_mate.Config.Database.{Db}
use data_mate.Config.Database.Read.{validate_database}
use data_mate.Config.Database.Open.{
  gone, Opening, Initializing, fresh, initialize_database, initialize_database-cases,
}
use data_mate.Tests.Publication.{owner}

abbrev no_tables : Db
no_tables = record { installation = none; profiles = []; bundles = []; keyset = none }

abbrev new_file : Opening
new_file = record {
  valid_root = ok tt;
  obsolete_paths = gone ∷ gone ∷ [];
  open_file = err not_exist;
  open_journal = err not_exist;
  wal_and_shm = gone ∷ gone ∷ [];
  create_file = ok tt;
  opens = true;
  pings = true;
  sets = true ∷ true ∷ [];
  journal_mode = some (bytes "delete");
  reads = (1, some 1) ∷ (3, some 3) ∷ [];
}

abbrev new_installation : Initializing
new_installation = record {
  local_state = ok tt;
  gate = ok tt;
  state_lock = ok tt;
  opening = new_file;
  tables = some 0;
  begins = true;
  creates = true;
  inserts = true;
  commits = true;
  durable = true;
}

initialize_database-cases_example :
    ((initialize_database new_installation owner.identity false no_tables).1 ≡ no_tables)
    ⊎ ((false ≡ false)
        × (new_installation.tables ≡ some 0)
        × ((initialize_database new_installation owner.identity false no_tables).1
            ≡ fresh owner.identity))
initialize_database-cases_example =
    initialize_database-cases new_installation owner.identity false no_tables

opening_done : (initialize_database new_installation owner.identity false no_tables).0 ≡ ok tt
unfolding initialize_database data_mate.Config.Database.Open.open_database
    data_mate.Config.Database.Open.check_obsolete data_mate.Base.all data_mate.Base.text_eq
    validate_database
opening_done = refl
