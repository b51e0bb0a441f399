-- ===== src/Tests/Documents.antt =====
-- `checkJSON` of internal/contracts/json.go, and the profiles and limits of internal/config/profiles.go, on
-- concrete documents.
use data_mate.Base.{
  ℕ, ◌≡◌, ◌≤◌, refl, ◌⊎◌, inl, inr, ◌↔◌, true, some, none, List, [], ◌∷◌, Text, bytes, ok, pos,
  arith,
}
use data_mate.Contracts.Check.{check_json}
use data_mate.Contracts.Exact.{
  Json, leaf, text, array, object, nil, item, end, field, tokens, fault, check_json-exact,
}
use data_mate.Config.Profile.{Limits, Profile, Profiles, default_limits}
use data_mate.Config.Profiles.{canonical}
use data_mate.Config.Profiles.Ordered.{IsCanonical}
use data_mate.Config.Profiles.Normal.{canonical-IsCanonical}
use data_mate.Config.Limits.{
  RawLimits, number, IsBounded, unmarshal_limits, unmarshal_limits-IsBounded,
}
use data_mate.Tests.Publication.{main_profile}

-- {"a": [1, "x"], "b": {}}
abbrev small_object : Json
small_object = object (
    field (bytes "a") (array (item leaf (item (text (bytes "x")) nil)))
      (field (bytes "b") (object end) end))

check_json-exact_example : check_json 64 [] (tokens small_object []) ≡ fault 64 0 small_object
check_json-exact_example = check_json-exact 64 small_object

-- A second connection, which comes first in the document, with letters in upper case and no limits.
abbrev other_profile : Profile
other_profile = record main_profile {
  id = bytes "9B";
  alias = bytes "other";
  credential_ref = [];
  limits = none;
}

abbrev both : Profiles
both = record { version = 1; connections = other_profile ∷ main_profile ∷ [] }

abbrev both_normal : Profiles
both_normal = record {
  version = 1;
  connections =
      main_profile ∷ record other_profile { id = bytes "9b"; limits = some default_limits } ∷ [];
}

canonical-both : canonical both ≡ ok both_normal
unfolding canonical data_mate.Config.Profiles.is_duplicate data_mate.Base.contains
    data_mate.Config.Profiles.lowered data_mate.Base.to_lower data_mate.Config.Profiles.has_bad_ca
    data_mate.Base.text_eq data_mate.Config.Profiles.mark data_mate.Base.text_lt
    data_mate.Config.Profiles.defaulted
canonical-both = refl

canonical-IsCanonical_example : IsCanonical both_normal.connections
canonical-IsCanonical_example = canonical-IsCanonical both canonical-both

abbrev raw_limits : RawLimits
raw_limits = record {
  version = number (pos 2);
  query_timeout_ms = pos 30000;
  max_rows = pos 10;
  max_result_bytes = pos 0;
}

abbrev read_limits : Limits
read_limits = record { query_timeout_ms = 30000; max_rows = 10; max_result_bytes = 0 }

limits_read : unmarshal_limits raw_limits ≡ ok read_limits
unfolding unmarshal_limits
limits_read = refl

read_limits-IsBounded : IsBounded read_limits
read_limits-IsBounded = unmarshal_limits-IsBounded raw_limits limits_read
