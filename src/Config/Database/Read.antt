-- ===== src/Config/Database/Read.antt =====
-- The reads of internal/config/database.go: `ProfileSnapshot` and `Bundle`. The results of opening
-- the database and of running a statement are arguments.
use data_mate.Base.{
  ℕ, suc, ◌+◌, Bool, ◌&&◌, ◌||◌, Option, none, some, List, [], ◌∷◌, Text, text_eq, text_lt, length,
  take, find, leb, ltb, ◌==◌, if◌then◌else◌, Result, ok, err, state, not_exist, ◌>>=◌, ◌>>◌, guard,
}
use data_mate.Config.Identity.{Identity}
use data_mate.Config.Profile.{Profile, Profiles}
use data_mate.Config.Profiles.{Codec, decode_profiles, max_profile_bytes}
use data_mate.Config.Database.{Db, ProfileRow, Ciphertext, Revision, max_settings, max_payload}

-- What a lease brings to the database: its rights, the identity of its installation, and how its
-- check, the wait for a slot and the opening of the file ended.
pub record Lease : Type 0 where
  pub write : Bool
  pub purge : Bool
  pub identity : Identity
  pub access : Result (Unit {0})

-- `validateDatabase`: the file belongs to this installation.
unfoldable pub validate_database : Identity → Db → Result (Unit {0})
validate_database id db = elim db.installation [
  | none ↦ err state
  | some i ↦
      guard
        (i.schema_version == 1
          && text_eq (take 37 i.installation_id) id.id
          && text_eq (take 65 i.root_digest) id.root_digest)
        state
]

-- `Lease.database`.
unfoldable pub database : Lease → Db → Result (Unit {0})
unfolding validate_database
database l db = do l.access; validate_database l.identity db

-- `ref.String` of a NULL is empty.
abbrev pub ref_string : Option Text → Text
ref_string none = []
ref_string (some r) = r

-- `ORDER BY id`.
unfoldable pub insert_row : ProfileRow → List ProfileRow → List ProfileRow
insert_row r [] = r ∷ []
insert_row r (s ∷ ss) = if text_lt r.id s.id then r ∷ s ∷ ss else s ∷ insert_row r ss

unfoldable pub order_rows : List ProfileRow → List ProfileRow
unfolding insert_row
order_rows [] = []
order_rows (r ∷ rs) = insert_row r (order_rows rs)

-- `DecodeStrict` of the settings, which must agree with the row's columns.
abbrev agrees : ProfileRow → Profile → Bool
agrees r p =
    text_eq p.id r.id
    && text_eq p.alias r.alias
    && text_eq p.credential_ref (ref_string r.credential_ref)

checked : ProfileRow → Option Profile → Result Profile
checked r none = err state
checked r (some p) = if agrees r p then ok p else err state

unfoldable pub decode_row : Codec → ProfileRow → Result Profile
unfolding checked
decode_row codec r = do
  let raw = take (suc max_settings) r.settings
  guard (leb (length raw) max_profile_bytes) state
  checked r (codec.parse_profile raw)

-- The loop over the rows; `size` and `count` are those of the rows before.
unfoldable pub scan_rows : Codec → ℕ → ℕ → List ProfileRow → Result (List Profile)
unfolding decode_row
scan_rows codec size count [] = ok []
scan_rows codec size count (r ∷ rs) = do
  let size' = size + length (take (suc max_settings) r.settings)
  guard (leb size' max_profile_bytes && ltb count 128) state
  p ← decode_row codec r
  rest ← scan_rows codec size' (suc count) rs
  ok (p ∷ rest)

-- The rows as a document, with its revision.
unfoldable pub read_profiles : Codec → Db → Result (Profiles × Revision)
read_profiles codec db = elim db.installation [
  | none ↦ err state
  | some i ↦ do
    cs ← scan_rows codec 0 0 (take 129 (order_rows db.profiles))
    (p, digest) ← decode_profiles codec (codec.print (record { version = 1; connections = cs }))
    ok (p, record { digest = digest; generation = i.generation })
]

-- `ProfileSnapshot`.
unfoldable pub profile_snapshot : Codec → Lease → Db → Result (Profiles × Revision)
profile_snapshot codec l db = do database l db; read_profiles codec db

-- A row that is not there is an error of its own, which an edit can repair.
unfoldable pub find_bundle : Db → Text → Result Ciphertext
find_bundle db ref = elim (find (λ (b : Ciphertext). text_eq b.reference ref) db.bundles) [
  | none ↦ err not_exist
  | some b ↦
      if ltb (length b.payload) 1 || ltb max_payload (length b.payload)
      then err state
      else ok (record b { connection_id = take 37 b.connection_id })
]

unfoldable pub bundle : Lease → Db → Text → Result Ciphertext
bundle l db ref = do database l db; find_bundle db ref
