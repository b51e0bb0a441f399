-- ===== src/Tests/Publication.antt =====
-- `Publish` and `ProfileSnapshot` of internal/config/database.go on one installation, with one profile
-- and one bundle.
use data_mate.Base.{
  ℕ, ◌≡◌, ◌≢◌, ◌≤◌, refl, ap, sym, subst, ok-injective, All, total, ◌⊎◌, true, false, none, some,
  List, [], ◌∷◌, Text, Option, Result, ok, err, pending, commit_unknown, length, bytes, arith,
}
use data_mate.Config.Profile.{Profile, Profiles, default_limits}
use data_mate.Config.Profiles.{
  Codec, decode_profiles, parsed, normalise, sort, insert, canonical, max_profile_bytes,
}
use data_mate.Config.Database.{
  Db, Ciphertext, ProfileRow, Revision, revision_eq, insertable_profile, insertable_bundle,
  foreign_keys, payloads,
}
use data_mate.Config.Database.Read.{
  Lease, profile_snapshot, database, read_profiles, scan_rows, order_rows,
}
use data_mate.Config.Database.Publish.{
  Calls, committed, publish, prepare, admit, transaction, replace_bundles, insert_profiles,
  delete_unreferenced, advance, finish, row_of,
}
use data_mate.Config.Database.Atomic.{Refused, publish-atomic, publish-stale}
use data_mate.Config.Database.Saved.{CodecLaws}
use data_mate.Config.Database.RoundTrip.{profile_snapshot-publish}
use data_mate.Config.Database.Integrity.{IsIntact, publish-IsIntact}

abbrev pub main_profile : Profile
main_profile = record {
  id = bytes "7a";
  alias = bytes "main";
  driver = bytes "postgresql";
  connection = record {
    host = bytes "db";
    port = 5432;
    database = bytes "app";
    username = bytes "u";
  };
  credential_ref = bytes "c1";
  transport = record {
    tls = record { mode = bytes "verify-full"; ca_file = bytes "/ca.pem" };
    ssh = none;
    proxy = none;
  };
  limits = some default_limits;
}

abbrev pub document_of : Profile → Profiles
document_of c = record { version = 1; connections = c ∷ [] }

-- A codec that knows this document only.
abbrev pub parse_main : Text → Option Profiles
parse_main [] = none
parse_main (c ∷ s) = some (document_of main_profile)

abbrev pub one_document : Codec
one_document = record {
  parse = parse_main;
  print = λ _. bytes "{}";
  parse_profile = λ _. some main_profile;
  print_profile = λ _. bytes "p";
  digest = λ _. bytes "d";
}

abbrev pub owner : Lease
owner = record {
  write = true;
  purge = true;
  identity = record {
    id = bytes "i";
    root_digest = bytes "r";
    key_account = bytes "k";
    purging = false;
  };
  access = ok tt;
}

abbrev pub old_row : ProfileRow
old_row = record {
  id = bytes "7a";
  alias = bytes "main";
  settings = bytes "p";
  credential_ref = some (bytes "c1");
}

abbrev pub first_bundle : Ciphertext
first_bundle = record {
  reference = bytes "c1";
  connection_id = bytes "7a";
  version = 1;
  payload = bytes "x";
}

-- What replaces it.
abbrev pub second_bundle : Ciphertext
second_bundle = record first_bundle { payload = bytes "yz" }

abbrev pub before_db : Db
before_db = record {
  installation = some (record {
    schema_version = 1;
    installation_id = bytes "i";
    root_digest = bytes "r";
    generation = 4;
  });
  profiles = old_row ∷ [];
  bundles = first_bundle ∷ [];
  keyset = none;
}

abbrev pub all_well : Calls
all_well = record {
  runs = λ _. true;
  before_commit = ok tt;
  context = ok tt;
  recheck = ok tt;
  commit = committed;
  after_commit = ok tt;
}

abbrev pub revision_at : ℕ → Revision
revision_at n = record { digest = bytes "d"; generation = n }

published :
    (publish one_document all_well owner before_db
      (document_of main_profile)
      (revision_at 4)
      (second_bundle ∷ [])).0
    ≡ ok (revision_at 5)
unfolding publish prepare admit transaction replace_bundles insert_profiles delete_unreferenced
    advance finish decode_profiles parsed canonical normalise sort insert profile_snapshot database
    read_profiles scan_rows order_rows row_of insertable_profile insertable_bundle foreign_keys
    payloads revision_eq data_mate.Config.Profiles.is_duplicate data_mate.Base.contains
    data_mate.Config.Profiles.lowered data_mate.Base.to_lower data_mate.Config.Profiles.has_bad_ca
    data_mate.Base.text_eq data_mate.Base.any data_mate.Base.keep total
    data_mate.Config.Profiles.defaulted data_mate.Base.all
published = refl

-- Another process has taken the lease away before the commit.
abbrev pub lease_lost : Calls
lease_lost = record all_well { recheck = err pending }

lost :
    (publish one_document lease_lost owner before_db
      (document_of main_profile)
      (revision_at 4)
      (second_bundle ∷ [])).0
    ≡ err pending
unfolding publish prepare admit transaction replace_bundles insert_profiles delete_unreferenced
    advance finish decode_profiles parsed canonical normalise sort insert profile_snapshot database
    read_profiles scan_rows order_rows row_of insertable_profile insertable_bundle foreign_keys
    payloads revision_eq data_mate.Config.Profiles.is_duplicate data_mate.Base.contains
    data_mate.Config.Profiles.lowered data_mate.Base.to_lower data_mate.Config.Profiles.has_bad_ca
    data_mate.Base.text_eq data_mate.Base.any data_mate.Base.keep total
    data_mate.Config.Profiles.defaulted data_mate.Base.all
lost = refl

decoded :
    decode_profiles one_document (one_document.print (document_of main_profile))
    ≡ ok (document_of main_profile, bytes "d")
unfolding decode_profiles canonical data_mate.Config.Profiles.is_duplicate data_mate.Base.contains
    data_mate.Config.Profiles.lowered data_mate.Base.to_lower data_mate.Config.Profiles.has_bad_ca
    data_mate.Base.text_eq data_mate.Config.Profiles.defaulted
decoded = refl

pending-certain : pending ≢ commit_unknown
pending-certain h = cc

parsed_main : (raw : Text) (p : Profiles) → parse_main raw ≡ some p → p ≡ document_of main_profile
parsed_main [] p h = cc
parsed_main (c ∷ s) p h = cc

canonical_main :
    (raw : Text) (p q : Profiles)
    → parse_main raw ≡ some p
    → canonical p ≡ ok q
    → document_of main_profile ≡ q
unfolding canonical data_mate.Config.Profiles.is_duplicate data_mate.Base.contains
    data_mate.Config.Profiles.lowered data_mate.Base.to_lower data_mate.Config.Profiles.has_bad_ca
    data_mate.Base.text_eq data_mate.Config.Profiles.defaulted
canonical_main raw p q h e =
    ok-injective (subst (λ (r : Profiles). canonical r ≡ ok q) (parsed_main raw p h) e)

one_document-laws : CodecLaws one_document
unfolding total
one_document-laws = record {
  version_one = λ raw p h. ap (λ (r : Profiles). r.version) (parsed_main raw p h);
  at_most_128 = λ raw p h.
      subst (λ (r : Profiles). length r.connections ≤ 128) (sym (parsed_main raw p h))
        (omega arith);
  reparse = λ raw p q h e. ap some (canonical_main raw p q h e);
  profile_back = λ raw p q h e.
      subst (λ (r : Profiles). All (λ (c : Profile). some main_profile ≡ some c) r.connections)
        (canonical_main raw p q h e) (refl, tt);
  shorter = λ raw p q h e.
      subst (λ (r : Profiles). total (λ (c : Profile). 1) r.connections ≤ 2)
        (canonical_main raw p q h e) (omega arith);
}

pub before_db-IsIntact : IsIntact before_db
unfolding foreign_keys payloads insertable_profile data_mate.Base.any data_mate.Base.all total
    insertable_bundle data_mate.Base.text_eq
before_db-IsIntact = record {
  bundles = (refl, tt);
  profiles = (refl, tt);
  keys = refl;
  small = omega arith;
}

publish-IsIntact_example :
    IsIntact
      (publish one_document all_well owner before_db
        (document_of main_profile)
        (revision_at 4)
        (second_bundle ∷ [])).1
publish-IsIntact_example =
    publish-IsIntact one_document all_well owner before_db (document_of main_profile)
      (revision_at 4) (second_bundle ∷ []) before_db-IsIntact

publish-atomic_example :
    (publish one_document lease_lost owner before_db
      (document_of main_profile)
      (revision_at 4)
      (second_bundle ∷ [])).1
    ≡ before_db
publish-atomic_example =
    publish-atomic one_document lease_lost owner before_db (document_of main_profile)
      (revision_at 4) (second_bundle ∷ []) lost pending-certain

profile_snapshot-publish_example :
    profile_snapshot one_document owner
      (publish one_document all_well owner before_db
        (document_of main_profile)
        (revision_at 4)
        (second_bundle ∷ [])).1
    ≡ ok (document_of main_profile, revision_at 5)
profile_snapshot-publish_example =
    profile_snapshot-publish one_document all_well owner before_db (document_of main_profile)
      (document_of main_profile) (revision_at 4) (revision_at 5) (second_bundle ∷ []) (bytes "d")
      one_document-laws published decoded (omega arith)

publish-stale_example :
    Refused
      (publish one_document all_well owner before_db
        (document_of main_profile)
        (revision_at 4)
        (second_bundle ∷ [])).1
      (publish one_document all_well owner
        (publish one_document all_well owner before_db
          (document_of main_profile)
          (revision_at 4)
          (second_bundle ∷ [])).1
        (document_of main_profile)
        (revision_at 4)
        [])
publish-stale_example =
    publish-stale one_document all_well all_well owner owner before_db (document_of main_profile)
      (document_of main_profile) (revision_at 4) (revision_at 5) (second_bundle ∷ []) [] published
