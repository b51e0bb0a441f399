-- ===== src/Tests/Identities.antt =====
-- `decodeIdentity` of internal/config/storage.go on one document.
use data_mate.Base.{◌≡◌, refl, some, [], ◌∷◌, Text, bytes, false, ok}
use data_mate.Config.Identity.{Document, Root, decode_identity}

abbrev home : Root
home = record {
  digest = bytes "r";
  kind = bytes "production";
  executable_path = bytes "/bin/data-mate";
  account = λ id. id;
  owned_paths = bytes "known_hosts" ∷ [];
}

abbrev document : Document
document = record {
  version = 3;
  environment = bytes "production";
  executable = bytes "/bin/data-mate";
  owned = bytes "known_hosts" ∷ [];
  identity = record {
    id = bytes "01234567-89ab-cdef-0123-456789abcdef";
    root_digest = bytes "r";
    key_account = bytes "01234567-89ab-cdef-0123-456789abcdef";
    purging = false;
  };
}

is_decoded : decode_identity home (some document) ≡ ok document
unfolding decode_identity data_mate.Base.text_eq data_mate.Base.any data_mate.Base.same_texts
is_decoded = refl
