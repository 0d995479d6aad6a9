-- ===== src/Storage/MetadataDb/Accounts.antt =====
-- The account operations of crates/blobstore-storage/src/metadata_db.rs.
use mathlib.Core.Option
use mert_blob_storage.Base.{Option, none}
use mert_blob_storage.Base.Lists.{find}
use mert_blob_storage.Base.Text.{Text}
use mert_blob_storage.Core.Error.{AzureError}
use mert_blob_storage.Storage.Externals.{Externals}
use mert_blob_storage.Storage.Db.{AccountsRow, is_account}
use mert_blob_storage.Storage.Exec.{Exec, ◌>>=◌, fetch, execute, ignore, or_default}
use mert_blob_storage.Storage.MetadataDb.Rows.{now_iso}
use mert_blob_storage.Storage.MetadataDb.Statements.{upsert_account}

-- the two columns that are selected
abbrev pub keys_of : AccountsRow → Text × Option Text
keys_of r = (r.key1_base64, r.key2_base64)

unfoldable pub account_keys : Text → Exec AzureError (Option (Text × Option Text))
account_keys account =
    or_default none (fetch (λ db. Option.map keys_of (find (is_account account) db.accounts)))

module _ (x : Externals) where
  unfoldable pub ensure_account : Text → Text → Option Text → Exec AzureError (Unit {0})
  ensure_account account key1 key2 = do
    created_at ← now_iso x
    ignore (
        execute (
          upsert_account (record {
            account_name = account;
            key1_base64 = key1;
            key2_base64 = key2;
            created_at = created_at;
          })))
