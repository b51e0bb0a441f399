-- ===== src/Config/Database/Keyset.antt =====
-- `Keyset`, `SaveKeyset` and `HasKeysetForPurge` of internal/config/database.go.
use data_mate.Base.{
  ℕ, Bool, true, false, not, ◌&&◌, ◌||◌, none, some, List, [], Text, text_eq, length, take, all,
  leb, ◌==◌, if◌then◌else◌, Result, ok, err, Error, state, ownership, not_exist, ◌>>◌, guard,
}
use data_mate.Config.Identity.{Identity}
use data_mate.Config.Database.{
  Db, Ciphertext, KeysetMetadata, Phase, no_key, intent, ready, payloads, max_total,
}
use data_mate.Config.Database.Read.{Lease, database}

abbrev pub max_reservations : ℕ
max_reservations = 1000000

is_hex : ℕ → Bool
is_hex c = (leb b'0' c && leb c b'9') || (leb b'a' c && leb c b'f')

-- 64 hexadecimal digits in lower case, which is when decoding and encoding gives the text back.
unfoldable pub is_fingerprint : Text → Bool
unfolding is_hex
is_fingerprint s = length s == 64 && all is_hex s

abbrev pub is_ready : Phase → Bool
is_ready ready = true
is_ready intent = false
is_ready no_key = false

abbrev pub is_absent : Phase → Bool
is_absent no_key = true
is_absent intent = false
is_absent ready = false

abbrev pub zero_keyset : KeysetMetadata
zero_keyset = record { account = []; phase = no_key; fingerprint = []; reserved = 0 }

-- What the metadata allows of the bundles: keys come first, and each bundle was reserved.
covers : KeysetMetadata → List Ciphertext → Bool
covers k bs =
    leb (length bs) 128
    && leb (payloads bs) max_total
    && (length bs == 0 || (is_ready k.phase && leb (length bs) k.reserved))

read_keyset : Identity → Db → Result KeysetMetadata
unfolding is_fingerprint covers
read_keyset id db = elim db.keyset [
  | none ↦ do guard (length db.bundles == 0) state; ok zero_keyset
  | some row ↦ do
    let k = record row { account = take 65 row.account; fingerprint = take 65 row.fingerprint }
    guard
        (text_eq k.account id.key_account
          && not (is_absent k.phase)
          && leb k.reserved max_reservations)
        state
    guard (is_fingerprint k.fingerprint) state
    guard (covers k db.bundles) state
    ok k
]

-- `Keyset`.
unfoldable pub keyset : Lease → Db → Result KeysetMetadata
unfolding read_keyset
keyset l db = do database l db; read_keyset l.identity db

-- `SaveKeyset`; `ran` says whether the statement ran, and the checks of the table bound `reserved`
-- and the phase.
unfoldable pub save_keyset : Bool → Lease → Db → KeysetMetadata → Result Db
save_keyset ran l db k = do
  guard (l.write && text_eq k.account l.identity.key_account) ownership
  database l db
  guard (ran && not (is_absent k.phase) && leb k.reserved max_reservations) state
  ok (record db { keyset = some k })

-- How the file of the database opened, on a purge.
pub data Opened : Type 0 where
  there gone : Opened
  failed : Error → Opened

-- A keyset that cannot be read cannot prove that there is no key.
has_key : Result KeysetMetadata → Bool
has_key (ok k) = not (is_absent k.phase)
has_key (err e) = true

-- `HasKeysetForPurge`; `closed` is how the database closed.
unfoldable pub has_keyset_for_purge :
    Lease → Result (Unit {0}) → Opened → Result (Unit {0}) → Db → Result Bool
unfolding has_key
has_keyset_for_purge l check there closed db = do check; closed; ok (has_key (keyset l db))
has_keyset_for_purge l check gone closed db = do
  check
  if l.identity.purging then ok false else err not_exist
has_keyset_for_purge l check (failed e) closed db = do check; err e
