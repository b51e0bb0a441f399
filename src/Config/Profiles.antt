-- ===== src/Config/Profiles.antt =====
-- `DecodeProfiles` of internal/config/profiles.go. The schema check, encoding/json and SHA-256 are
-- the parameter `Codec`.
pub mod Ordered
pub mod Normal
use data_mate.Base.{
  ℕ, Bool, true, false, not, ◌&&◌, ◌||◌, Option, none, some, List, [], ◌∷◌, Text, bytes, text_eq,
  text_lt, to_lower, contains, length, leb, if◌then◌else◌, Result, ok, err, ◌>>=◌, ◌>>◌, guard,
  document, duplicate, ca_path, is_abs,
}
use data_mate.Config.Profile.{Limits, Profile, Profiles, default_limits}

abbrev pub max_profile_bytes : ℕ
max_profile_bytes = 1048576

-- What `DecodeProfiles` and the database rows need of JSON and of SHA-256.
pub record Codec : Type 0 where
  -- `contracts.JSON` but for the size, `contracts.Validate` and `json.Unmarshal`
  pub parse : Text → Option Profiles
  -- `json.Marshal`
  pub print : Profiles → Text
  -- `DecodeStrict` into a profile but for the size, and `json.Marshal` of one
  pub parse_profile : Text → Option Profile
  pub print_profile : Profile → Text
  -- `hex.EncodeToString` of `sha256.Sum256`
  pub digest : Text → Text

-- `s != ""`.
abbrev pub is_set : Text → Bool
is_set [] = false
is_set (c ∷ s) = true

-- `filepath.IsAbs` on Unix.
pub with_limits : Option Limits → Option Limits
with_limits none = some default_limits
with_limits (some l) = some l

-- The maps `ids`, `aliases` and `refs` of the loop.
pub record Seen : Type 0 where
  pub ids : List Text
  pub aliases : List Text
  pub refs : List Text

abbrev pub nothing_seen : Seen
nothing_seen = record { ids = []; aliases = []; refs = [] }

unfoldable pub lowered : Profile → Profile
lowered c = record c { id = to_lower c.id; credential_ref = to_lower c.credential_ref }

unfoldable pub is_duplicate : Seen → Profile → Bool
is_duplicate s c =
    contains c.id s.ids
    || contains c.alias s.aliases
    || (is_set c.credential_ref && contains c.credential_ref s.refs)

unfoldable pub mark : Seen → Profile → Seen
mark s c = record {
  ids = c.id ∷ s.ids;
  aliases = c.alias ∷ s.aliases;
  refs = if is_set c.credential_ref then c.credential_ref ∷ s.refs else s.refs;
}

unfoldable pub has_bad_ca : Profile → Bool
unfolding is_abs
has_bad_ca c = is_set c.transport.tls.ca_file && not (is_abs c.transport.tls.ca_file)

unfoldable pub defaulted : Profile → Profile
unfolding with_limits
defaulted c = record c { limits = with_limits c.limits }

-- The loop over the connections.
unfoldable pub normalise : Seen → List Profile → Result (List Profile)
normalise s [] = ok []
normalise s (raw ∷ cs) = do
  let c = lowered raw
  guard (not (is_duplicate s c)) duplicate
  guard (not (has_bad_ca c)) ca_path
  rest ← normalise (mark s c) cs
  ok (defaulted c ∷ rest)

-- `slices.SortFunc` by `strings.Compare` of the ids, which are distinct there.
unfoldable pub insert : Profile → List Profile → List Profile
insert c [] = c ∷ []
insert c (d ∷ ds) = if text_lt c.id d.id then c ∷ d ∷ ds else d ∷ insert c ds

unfoldable pub sort : List Profile → List Profile
unfolding insert
sort [] = []
sort (c ∷ cs) = insert c (sort cs)

-- The document's connections, checked, normalised and in the order of their ids.
unfoldable pub canonical : Profiles → Result Profiles
unfolding normalise sort
canonical p = do cs ← normalise nothing_seen p.connections; ok (record p { connections = sort cs })

unfoldable pub parsed : Option Profiles → Result Profiles
parsed none = err document
parsed (some p) = ok p

-- The profiles and the digest of their canonical form.
unfoldable pub decode_profiles : Codec → Text → Result (Profiles × Text)
unfolding parsed
decode_profiles codec raw = do
  guard (leb (length raw) max_profile_bytes) document
  read ← parsed (codec.parse raw)
  p ← canonical read
  ok (p, codec.digest (codec.print p))
