-- ===== src/Tests/Purge.antt =====
-- A purge of internal/vault/repository.go whose key store refuses.
use data_mate.Base.{true, false, some, bytes, ok, err, denied}
use data_mate.Config.Database.Keyset.{there}
use data_mate.Vault.Purge.{Site, Calls, purge_locked}
use data_mate.Vault.Purge.Order.{Ordered, purge_locked-Ordered}
use data_mate.Tests.Publication.{owner, before_db}

abbrev full_site : Site
full_site = record { purging = false; chain = some (bytes "key"); journal = true; database = true }

abbrev refused_delete : Calls
refused_delete = record {
  purge_lease = ok owner;
  check = ok tt;
  opened = there;
  closed = ok tt;
  rolls_back = true;
  check_again = ok tt;
  replace = ok tt;
  replaced = true;
  before_key_delete = ok tt;
  delete = err denied;
  deleted = false;
  after_key_delete = ok tt;
  remove_journal = ok tt;
  journal_removed = true;
  remove_database = ok tt;
  database_removed = true;
}

purge_locked-Ordered_example :
    Ordered true full_site (purge_locked refused_delete owner before_db full_site)
purge_locked-Ordered_example = purge_locked-Ordered refused_delete owner before_db full_site
