-- ===== src/Vault/Purge.antt =====
-- `PurgeCredentials` and `PurgeLocked` of internal/vault/repository.go, and `BeginPurge` of internal/config/locks.go: the key
-- goes before the database that names it, and the tombstone is there before both.
pub mod Order
use data_mate.Base.{
  ◌≡◌, refl, ◌⊎◌, inl, inr, Bool, true, false, Option, none, some, Text, if◌then◌else◌, Result, ok,
  err, Error, ownership, guard,
}
use data_mate.Config.Database.{Db}
use data_mate.Config.Database.Read.{Lease}
use data_mate.Config.Database.Keyset.{Opened, there, gone, failed, has_keyset_for_purge}
use data_mate.Vault.Unlock.{provider_error}

-- What a purge takes away: the stored key, the database and its journal; and the tombstone.
pub record Site : Type 0 where
  pub purging : Bool
  pub chain : Option Text
  pub journal : Bool
  pub database : Bool

-- How the calls of one purge end.
pub record Calls : Type 0 where
  pub purge_lease : Result Lease
  -- those of `HasKeysetForPurge`
  pub check : Result (Unit {0})
  pub opened : Opened
  pub closed : Result (Unit {0})
  -- whether SQLite has found a hot journal there, and has rolled it back and deleted it
  pub rolls_back : Bool
  -- those of `BeginPurge`, whose `replace` may have published what it reports as an error
  pub check_again : Result (Unit {0})
  pub replace : Result (Unit {0})
  pub replaced : Bool
  pub before_key_delete : Result (Unit {0})
  -- an error of the key store after which the key may be gone all the same
  pub delete : Result (Unit {0})
  pub deleted : Bool
  pub after_key_delete : Result (Unit {0})
  -- `Remove` of the journal and of the database
  pub remove_journal : Result (Unit {0})
  pub journal_removed : Bool
  pub remove_database : Result (Unit {0})
  pub database_removed : Bool

abbrev pub Act : Type 0
Act = Site → Result (Unit {0}) × Site

abbrev pub proceed : Result (Unit {0}) → Act → Act
proceed (ok u) f s = f s
proceed (err e) f s = (err e, s)

infixl 5 ◌>>◌
abbrev pub ◌>>◌ : Act → Act → Act
◌>>◌ m f s = proceed (m s).0 f (m s).1

abbrev pub call : Result (Unit {0}) → Act
call r s = (r, s)

-- A change that is made, also where its call reports an error, if the second argument says so.
abbrev pub effect : Result (Unit {0}) → Bool → (Site → Site) → Act
effect (ok u) done f s = (ok tt, f s)
effect (err e) done f s = (err e, if done then f s else s)

abbrev pub hidden : Result (Unit {0}) → Result (Unit {0})
hidden (ok u) = ok tt
hidden (err e) = err (provider_error e)

abbrev pub mark_purging : Site → Site
mark_purging s = record s { purging = true }

abbrev pub lose_key : Site → Site
lose_key s = record s { chain = none }

abbrev pub lose_journal : Site → Site
lose_journal s = record s { journal = false }

abbrev pub lose_database : Site → Site
lose_database s = record s { database = false }

-- `BeginPurge`.
unfoldable pub begin_purge : Calls → Lease → Act
begin_purge c l = do
  call (guard l.purge ownership)
  call c.check_again
  effect c.replace c.replaced mark_purging

-- The rest of `PurgeLocked`, where it knows whether there may be a key.
unfoldable pub purge_all : Calls → Lease → Bool → Act
purge_all c l has_key = do
  begin_purge c l
  call c.before_key_delete
  if has_key then effect (hidden c.delete) c.deleted lose_key else call (ok tt)
  call c.after_key_delete
  effect c.remove_journal c.journal_removed lose_journal
  effect c.remove_database c.database_removed lose_database

-- What `HasKeysetForPurge` does to the files, where it comes to open the database.
abbrev pub roll_back : Calls → Site → Site
roll_back c s = elim c.check [
  | err e ↦ s
  | ok u ↦ elim c.opened [
    | there ↦ if c.rolls_back then lose_journal s else s
    | gone ↦ s
    | failed e ↦ s
  ]
]

known_key : Calls → Lease → Result Bool → Act
known_key c l (err e) s = (err e, s)
known_key c l (ok has_key) s = purge_all c l has_key s

-- `PurgeLocked`.
unfoldable pub purge_locked : Calls → Lease → Db → Act
unfolding known_key
purge_locked c l db s =
    known_key c l (has_keyset_for_purge l c.check c.opened c.closed db) (roll_back c s)

-- `PurgeCredentials`.
unfoldable pub purge_credentials : Calls → Db → Act
purge_credentials c db s = elim c.purge_lease [ err e ↦ (err e, s) | ok l ↦ purge_locked c l db s ]
