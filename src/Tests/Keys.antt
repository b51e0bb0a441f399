-- ===== src/Tests/Keys.antt =====
-- `Unlock` and the loop of `Apply` of internal/vault/repository.go: the first key is made, and one
-- credential replaced.
use data_mate.Base.{
  ◌≢◌, refl, true, false, none, some, [], ◌∷◌, Text, bytes, ok, missing, ◌≡◌, err, canceled,
}
use data_mate.Config.Profile.{Profile}
use data_mate.Config.Database.{Db, intent, ready}
use data_mate.Vault.World.{World, Crypto}
use data_mate.Vault.Secrets.{no_secrets}
use data_mate.Vault.Unlock.{Repository, locked_state, ready_state, Calls, unlock}
use data_mate.Vault.Unlock.Known.{IsKnown}
use data_mate.Vault.Unlock.Orphans.{unlock-IsKnown}
use data_mate.Vault.Credential.{Encoding}
use data_mate.Vault.Apply.{Mutation, Turn, apply_each}
use data_mate.Vault.Apply.Main
use data_mate.Vault.Apply.Main.{apply_leased}
use data_mate.Vault.Apply.Commit.{Unpublished, apply_leased-Unpublished}
use data_mate.Vault.Apply.Budget.{Spent, apply_each-Spent}
use data_mate.Transport.Enrolment.{pin_of}
use data_mate.Tests.Pins.{toy, before, key_for}
use data_mate.Tests.Publication.{
  one_document, owner, before_db, main_profile, document_of, revision_at, all_well,
}

abbrev hex_64 : Text
hex_64 = bytes "aaaaaaaaaaaaaaaaaaaaaaaaaaaaaaaaaaaaaaaaaaaaaaaaaaaaaaaaaaaaaaaa"

-- Every key has one fingerprint, and a ciphertext is its plaintext.
abbrev pub toy_crypto : Crypto
toy_crypto = record {
  fingerprint = λ _. hex_64;
  parse_keyset = λ _. ok tt;
  encrypt = λ _ _ plain _. ok plain;
  decrypt = λ _ payload _. ok payload;
}

abbrev no_profiles : Db
no_profiles = record before_db { profiles = []; bundles = [] }

-- A key whose creation was interrupted before its intent became ready.
abbrev intent_world : World
intent_world = record {
  db = record no_profiles {
    keyset =
        some (record { account = bytes "k"; phase = intent; fingerprint = hex_64; reserved = 0 });
  };
  chain = some (bytes "key");
  hosts = none;
}

abbrev quiet_calls : Calls
quiet_calls = record {
  gate = ok tt;
  context = ok tt;
  lifecycle = ok tt;
  parsed_context = ok tt;
  last_context = ok tt;
  read_lease = ok owner;
  intent_lease = ok owner;
  ready_lease = ok owner;
  saves = true;
  promotes = true;
  load_fails = none;
  create_fails = none;
  created_fails = none;
  generate = ok (bytes "key");
  before_key_create = ok tt;
  after_key_create = ok tt;
  closes = false;
  before_intent = λ db. db;
  before_ready = λ db. db;
}

abbrev locked_repository : Repository
locked_repository = record {
  primitive = none;
  fingerprint = [];
  closed = false;
  state = locked_state;
}

honest : quiet_calls.load_fails ≢ some missing
honest h = cc

unlock-IsKnown_example :
    IsKnown toy_crypto
      (unlock toy_crypto one_document quiet_calls true none locked_repository intent_world).2
unlock-IsKnown_example =
    unlock-IsKnown toy_crypto one_document quiet_calls true none locked_repository intent_world
      honest (λ db. refl) refl

abbrev pub toy_encoding : Encoding
toy_encoding = record {
  print_bundle = λ s. s.password;
  parse_bundle = λ t. some (record no_secrets { password = t });
  print_strings = λ _. bytes "aad";
  itoa = λ _. bytes "1";
  utf8 = λ _. true;
}

abbrev pub unlocked_repository : Repository
unlocked_repository = record {
  primitive = some (bytes "key");
  fingerprint = hex_64;
  closed = false;
  state = ready_state;
}

abbrev pub unlocked_world : World
unlocked_world = record {
  db = record before_db {
    keyset =
        some (record { account = bytes "k"; phase = ready; fingerprint = hex_64; reserved = 1 });
  };
  chain = some (bytes "key");
  hosts = some before;
}

abbrev new_password : Mutation
new_password = record {
  expected = revision_at 4;
  profiles = document_of main_profile;
  patches = [];
  replacements = (bytes "7a", record no_secrets { password = bytes "s" }) ∷ [];
  host_key = some (pin_of (bytes "a") (key_for b'a'));
}

abbrev first_turn : Profile → Turn
first_turn c = record {
  new_id = ok (bytes "c2");
  nonce = bytes "n";
  reserves = true;
  after_reservation = ok tt;
  context = ok tt;
  after_encryption = ok tt;
}

apply_each-Spent_example : Spent unlocked_world (
    apply_each toy_crypto toy_encoding unlocked_repository owner new_password
      (main_profile ∷ [])
      first_turn
      (main_profile ∷ [])
      unlocked_world)
apply_each-Spent_example =
    apply_each-Spent toy_crypto toy_encoding unlocked_repository owner new_password
      (main_profile ∷ []) first_turn (main_profile ∷ []) unlocked_world

abbrev applying : Main.Calls
applying = record {
  unlocking = quiet_calls;
  write_lease = ok owner;
  before_lease = λ db. db;
  turns = first_turn;
  read_hosts = ok tt;
  replace_hosts = ok tt;
  hosts_replaced = true;
  context = ok tt;
  publication = all_well;
  after_publication = ok tt;
}

-- The context ends after the encryption, and after the host key is saved.
abbrev interrupted : Main.Calls
interrupted = record applying { context = err canceled }

not_published :
    let o =
      (apply_leased toy_crypto toy_encoding toy one_document interrupted new_password
        unlocked_repository owner
        (document_of main_profile)
        unlocked_world).0.0 in
    (o.profiles_saved ≡ false) × (o.publication_uncertain ≡ false)
unfolding apply_leased Main.prepare_all Main.save_hosts data_mate.Transport.Hosts.save_host_key
    data_mate.Transport.Hosts.read_known_hosts data_mate.Transport.Hosts.parse_hosts
    data_mate.Transport.Hosts.scan data_mate.Tests.Pins.all_ended data_mate.Tests.Pins.letters
    data_mate.Transport.Hosts.entry_name data_mate.Transport.Hosts.has_pattern
    data_mate.Transport.Hosts.lookup data_mate.Transport.Hosts.with_host_key
    data_mate.Transport.Hosts.valid_address data_mate.Transport.Hosts.check_host
    data_mate.Transport.Hosts.close data_mate.Config.Database.Read.profile_snapshot
    data_mate.Config.Database.Read.database data_mate.Base.text_eq
    data_mate.Config.Database.Read.read_profiles data_mate.Config.Database.Read.scan_rows
    data_mate.Config.Database.Read.order_rows data_mate.Config.Profiles.decode_profiles
    data_mate.Config.Profiles.canonical data_mate.Config.Profiles.is_duplicate
    data_mate.Base.contains data_mate.Config.Profiles.lowered data_mate.Base.to_lower
    data_mate.Config.Profiles.has_bad_ca data_mate.Config.Database.revision_eq apply_each
    data_mate.Vault.Apply.apply_one data_mate.Base.text_lt data_mate.Base.all data_mate.Base.any
    data_mate.Base.find data_mate.Base.keep data_mate.Base.total
    data_mate.Config.Database.Keyset.is_fingerprint data_mate.Config.Database.Keyset.keyset
    data_mate.Config.Database.Keyset.save_keyset data_mate.Config.Database.Publish.admit
    data_mate.Config.Database.Publish.advance data_mate.Config.Database.Publish.delete_unreferenced
    data_mate.Config.Database.Publish.finish data_mate.Config.Database.Publish.insert_profiles
    data_mate.Config.Database.Publish.prepare data_mate.Config.Database.Publish.publish
    data_mate.Config.Database.Publish.replace_bundles data_mate.Config.Database.Publish.row_of
    data_mate.Config.Database.Publish.transaction data_mate.Config.Database.Read.bundle
    data_mate.Config.Database.Read.decode_row data_mate.Config.Database.Read.find_bundle
    data_mate.Config.Database.Read.insert_row data_mate.Config.Database.foreign_keys
    data_mate.Config.Database.insertable_bundle data_mate.Config.Database.insertable_profile
    data_mate.Config.Database.payloads data_mate.Config.Profiles.defaulted
    data_mate.Config.Profiles.insert data_mate.Base.is_abs data_mate.Config.Profiles.mark
    data_mate.Config.Profiles.normalise data_mate.Config.Profiles.parsed
    data_mate.Config.Profiles.sort Main.publish_all data_mate.Vault.Apply.encrypt
    data_mate.Vault.Apply.replacement data_mate.Vault.Apply.reseal data_mate.Vault.Apply.reserve
    data_mate.Vault.Apply.same_secrets data_mate.Vault.Credential.aad
    data_mate.Vault.Credential.cipher data_mate.Vault.Credential.credential
    data_mate.Vault.Secrets.apply_patch data_mate.Vault.Secrets.complete data_mate.Vault.Secrets.has
    data_mate.Vault.Secrets.set_field data_mate.Vault.Secrets.valid
    data_mate.Vault.Secrets.valid_secret
not_published = (refl, refl)

apply_leased-Unpublished_example :
    Unpublished toy_crypto toy_encoding toy one_document interrupted new_password unlocked_world
      (apply_leased toy_crypto toy_encoding toy one_document interrupted new_password
        unlocked_repository owner
        (document_of main_profile)
        unlocked_world).1
apply_leased-Unpublished_example =
    apply_leased-Unpublished toy_crypto toy_encoding toy one_document interrupted new_password
      unlocked_repository owner (document_of main_profile) unlocked_world not_published.0
      not_published.1
