-- ===== src/Config/Database.antt =====
-- The tables of internal/config/database.go. A statement of SQL in the source is a function on the
-- tables; a table is the list of its rows. What SQLite promises of the declared constraints is
-- written out: a statement that breaks one fails, and the deferred foreign keys are checked by
-- the commit.
pub mod Read
pub mod Open
pub mod Keyset
pub mod Publish
pub mod Atomic
pub mod Ran
pub mod Saved
pub mod RoundTrip
pub mod Integrity
use data_mate.Base.{
  ℕ, ◌+◌, ◌*◌, Bool, true, false, not, ◌&&◌, ◌||◌, Option, none, some, List, [], ◌∷◌, Text, text_eq,
  length, any, all, keep, total, leb, ltb, ◌==◌, if◌then◌else◌,
}

pub record Installation : Type 0 where
  pub schema_version : ℕ
  pub installation_id : Text
  pub root_digest : Text
  pub generation : ℕ

pub record ProfileRow : Type 0 where
  pub id : Text
  pub alias : Text
  pub settings : Text
  pub credential_ref : Option Text

-- An opaque authenticated bundle.
pub record Ciphertext : Type 0 where
  pub reference : Text
  pub connection_id : Text
  pub version : ℕ
  pub payload : Text

-- `no_key` is the empty phase of the zero `KeysetMetadata`, which no row has.
pub data Phase : Type 0 where
  no_key intent ready : Phase

pub record KeysetMetadata : Type 0 where
  pub account : Text
  pub phase : Phase
  pub fingerprint : Text
  pub reserved : ℕ

pub record Db : Type 0 where
  pub installation : Option Installation
  pub profiles : List ProfileRow
  pub bundles : List Ciphertext
  pub keyset : Option KeysetMetadata

-- The digest of the profiles and the generation: `databaseRevision` joins them by a colon, which no
-- hexadecimal digest holds.
pub record Revision : Type 0 where
  pub digest : Text
  pub generation : ℕ

unfoldable pub revision_eq : Revision → Revision → Bool
revision_eq a b = text_eq a.digest b.digest && a.generation == b.generation

abbrev pub max_settings : ℕ
max_settings = 1048576

abbrev pub max_payload : ℕ
max_payload = 4194337

abbrev pub max_total : ℕ
max_total = 8388608

pub same_ref : Option Text → Option Text → Bool
same_ref none r = false
same_ref (some s) none = false
same_ref (some s) (some t) = text_eq s t

-- The constraints of `profiles` on a new row.
pub clashes : ProfileRow → ProfileRow → Bool
unfolding same_ref
clashes r s =
    text_eq r.id s.id || text_eq r.alias s.alias || same_ref r.credential_ref s.credential_ref

unfoldable pub insertable_profile : List ProfileRow → ProfileRow → Bool
unfolding clashes
insertable_profile rows r = leb (length r.settings) max_settings && not (any (clashes r) rows)

-- The constraints of `bundles` on a new row.
pub overlaps : Ciphertext → Ciphertext → Bool
overlaps b c = text_eq b.reference c.reference || text_eq b.connection_id c.connection_id

unfoldable pub insertable_bundle : List Ciphertext → Ciphertext → Bool
unfolding overlaps
insertable_bundle rows b =
    b.version == 1
    && ltb 0 (length b.payload)
    && leb (length b.payload) max_payload
    && not (any (overlaps b) rows)

-- A profile's reference names its own bundle, and a bundle's identity its own profile.
pub names : Ciphertext → ProfileRow → Bool
unfolding same_ref
names b r = text_eq b.connection_id r.id && same_ref (some b.reference) r.credential_ref

pub has_ref : ProfileRow → Bool
has_ref r = elim r.credential_ref [ none ↦ false | some s ↦ true ]

pub profile_key : List Ciphertext → ProfileRow → Bool
unfolding has_ref names
profile_key bs r = not (has_ref r) || any (λ b. names b r) bs

pub bundle_key : List ProfileRow → Ciphertext → Bool
unfolding names
bundle_key rs b = any (names b) rs

-- The deferred foreign keys, which the commit checks.
unfoldable pub foreign_keys : List ProfileRow → List Ciphertext → Bool
unfolding profile_key bundle_key
foreign_keys rs bs = all (profile_key bs) rs && all (bundle_key rs) bs

unfoldable pub payloads : List Ciphertext → ℕ
payloads = total (λ b. length b.payload)
