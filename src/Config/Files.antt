-- ===== src/Config/Files.antt =====
-- `replace` and `remove` of internal/config/storage.go: the durable publication of an owned document. How each
-- call on the file system ends is an argument, so a stop at any call is an end of these functions.
pub mod Whole
use data_mate.Base.{
  Bool, true, false, Option, none, some, Text, [], if◌then◌else◌, Result, ok, err, stale, guard,
}

-- `synced` says that the bytes are on the disk.
pub record File : Type 0 where
  pub content : Text
  pub synced : Bool

-- The document, and its sibling with the suffix ".tmp".
pub record Folder : Type 0 where
  pub target : Option File
  pub sibling : Option File

abbrev pub Act : Type 0
Act = Folder → Result (Unit {0}) × Folder

abbrev pub continue : Result (Unit {0}) → Act → Act
continue (ok u) f d = f d
continue (err e) f d = (err e, d)

infixl 5 ◌>>◌
abbrev pub ◌>>◌ : Act → Act → Act
◌>>◌ m f d = continue (m d).0 f (m d).1

abbrev pub call : Result (Unit {0}) → Act
call r d = (r, d)

-- A call that changes the folder where it succeeds.
abbrev pub change : Result (Unit {0}) → (Folder → Folder) → Act
change (ok u) f d = (ok tt, f d)
change (err e) f d = (err e, d)

-- How the calls end; opening a file that is not there is no error here.
pub record Calls : Type 0 where
  pub directory : Result (Unit {0})
  pub open_target : Result (Unit {0})
  pub open_sibling : Result (Unit {0})
  pub same_sibling : Bool
  pub unlink_sibling : Result (Unit {0})
  pub create : Result (Unit {0})
  -- a write that fails may have written a part
  pub write : Result (Unit {0})
  pub written : Text
  pub before_file_sync : Result (Unit {0})
  pub sync : Result (Unit {0})
  pub after_file_sync : Result (Unit {0})
  pub valid_root : Result (Unit {0})
  pub same_directory : Bool
  pub open_again : Result (Unit {0})
  pub before_rename : Result (Unit {0})
  pub rename : Result (Unit {0})
  pub after_rename : Result (Unit {0})
  pub before_directory_sync : Result (Unit {0})
  pub sync_directory : Result (Unit {0})
  pub after_directory_sync : Result (Unit {0})
  -- the deferred unlinking, whose error is ignored
  pub cleans : Bool

abbrev pub set_sibling : Option File → Folder → Folder
set_sibling s d = record d { sibling = s }

-- What is written, in part where the write fails.
abbrev pub write_sibling : Calls → Text → Act
write_sibling c b d = elim c.write [
  | ok u ↦ (ok tt, set_sibling (some (record { content = b; synced = false })) d)
  | err e ↦ (err e, set_sibling (some (record { content = c.written; synced = false })) d)
]

abbrev pub marked : Option File → Option File
marked none = none
marked (some f) = some (record f { synced = true })

abbrev pub sync_sibling : Folder → Folder
sync_sibling d = record d { sibling = marked d.sibling }

-- The sibling takes the name of the document.
abbrev pub rename_sibling : Folder → Folder
rename_sibling d = record { target = d.sibling; sibling = none }

abbrev pub unlink_target : Folder → Folder
unlink_target d = record d { target = none }

-- A sibling that a crash left.
abbrev pub recover : Calls → Act
recover c d = elim d.sibling [
  | none ↦ (ok tt, d)
  | some f ↦ (call (guard c.same_sibling stale) >> change c.unlink_sibling (set_sibling none)) d
]

module _ (c : Calls) (b : Text) where
  -- After the rename.
  unfoldable pub confirm : Act
  confirm = do
    call c.after_rename
    call c.before_directory_sync
    call c.sync_directory
    call c.after_directory_sync

  -- From the creation of the sibling.
  unfoldable pub fill : Act
  fill = do
    write_sibling c b
    call c.before_file_sync
    change c.sync sync_sibling
    call c.after_file_sync
    call c.valid_root
    call (guard c.same_directory stale)
    call c.open_again
    call c.before_rename
    change c.rename rename_sibling
    confirm

  -- The deferred function.
  unfoldable pub clean : Folder → Folder
  clean d = if c.cleans then set_sibling none d else d

  created : Result (Unit {0}) → Act
  created (err e) d = (err e, d)
  created (ok u) d =
      let d' = set_sibling (some (record { content = []; synced = false })) d in
      ((fill d').0, clean (fill d').1)

  -- `replace`.
  unfoldable pub replace : Act
  unfolding created
  replace = do
    call c.directory
    call c.open_target
    call c.open_sibling
    recover c
    created c.create

  present : Option File → Act
  present none d = (ok tt, d)
  present (some f) d =
      (do
        call (guard c.same_directory stale)
        call c.before_rename
        change c.rename unlink_target
        confirm)
        d

  -- `remove`; `rename` is its unlinking here, with the fault points around it.
  unfoldable pub remove : Act
  unfolding present
  remove = do call c.directory; call c.open_target; λ d. present d.target d
