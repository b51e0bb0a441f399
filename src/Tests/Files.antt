-- ===== src/Tests/Files.antt =====
-- `replace` and `remove` of internal/config/storage.go over an old document, with what a crash left beside it.
use data_mate.Base.{refl, true, some, bytes, [], ok, err, other}
use data_mate.Config.Files.{Folder, Calls, replace}
use data_mate.Config.Files.Whole.{durable, Published, replace-Published}

abbrev old_folder : Folder
old_folder = record {
  target = durable (bytes "old");
  sibling = some (record { content = bytes "ne"; synced = true });
}

-- Every call succeeds but the rename.
abbrev no_rename : Calls
no_rename = record {
  directory = ok tt;
  open_target = ok tt;
  open_sibling = ok tt;
  same_sibling = true;
  unlink_sibling = ok tt;
  create = ok tt;
  write = ok tt;
  written = [];
  before_file_sync = ok tt;
  sync = ok tt;
  after_file_sync = ok tt;
  valid_root = ok tt;
  same_directory = true;
  open_again = ok tt;
  before_rename = ok tt;
  rename = err other;
  after_rename = ok tt;
  before_directory_sync = ok tt;
  sync_directory = ok tt;
  after_directory_sync = ok tt;
  cleans = true;
}

replace-Published_example :
    Published (durable (bytes "old")) (bytes "new") (replace no_rename (bytes "new") old_folder)
replace-Published_example =
    replace-Published no_rename (bytes "new") (durable (bytes "old")) old_folder refl
