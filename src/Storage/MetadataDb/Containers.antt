-- ===== src/Storage/MetadataDb/Containers.antt =====
-- The container operations of crates/blobstore-storage/src/metadata_db.rs.
use mathlib.Core.Option
use mert_blob_storage.Base.{Option, none, List, map}
use mert_blob_storage.Base.Text.{Text}
use mert_blob_storage.Core.Error.{
  AzureError, azure_error, container_already_exists, container_not_found,
}
use mert_blob_storage.Core.Model.{PublicAccessLevel, as_db_str}
use mert_blob_storage.Storage.Externals.{Externals, Metadata}
use mert_blob_storage.Storage.Db.{BlobsRow}
use mert_blob_storage.Storage.Exec.{
  Exec, IoError, unique_violation, pure, ok_or, ok, ◌>>=◌, ◌>>◌, map_err, or_default, call, fetch,
  try_execute, execute, transaction,
}
use mert_blob_storage.Storage.MetadataDb.Rows.{
  ContainerRow, dump_metadata, generate_etag, now_rfc1123, now_iso, to_internal, or_internal,
  row_to_container,
}
use mert_blob_storage.Storage.MetadataDb.Statements.{
  insert_container, select_container, update_container, delete_container_row, delete_committed_in,
  delete_staged_in, delete_blobs_in, select_blobs_in,
}

-- BEGIN and COMMIT of a transaction, as calls that may fail
unfoldable pub marker : Exec IoError (Unit {0})
unfolding call
marker = call (λ w. (ok tt, w))

abbrev path_of : BlobsRow → Text
path_of r = r.storage_path

module _ (x : Externals) where
  -- the arms of the `match res` of `create_container`
  unfoldable pub on_insert_error : IoError → AzureError
  on_insert_error unique_violation = azure_error container_already_exists
  on_insert_error e = to_internal x e

  unfoldable pub create_container :
      Text → Text → PublicAccessLevel → Metadata → Exec AzureError ContainerRow
  create_container account container public_access metadata = do
    etag ← generate_etag x
    last_modified ← now_rfc1123 x
    created_at ← now_iso x
    map_err on_insert_error (
        try_execute (
          insert_container (record {
            account_name = account;
            container_name = container;
            public_access_level = as_db_str public_access;
            metadata_json = dump_metadata x metadata;
            etag = etag;
            last_modified = last_modified;
            created_at = created_at;
          })))
    pure (record {
      name = container;
      public_access_level = public_access;
      metadata = metadata;
      etag = etag;
      last_modified = last_modified;
    })

  unfoldable pub get_container : Text → Text → Exec AzureError (Option ContainerRow)
  get_container account container =
      or_default none
        (fetch (λ db. Option.map (row_to_container x) (select_container account container db)))

  unfoldable pub require_container : Text → Text → Exec AzureError ContainerRow
  unfolding get_container
  require_container account container = do
    found ← get_container account container
    ok_or (azure_error container_not_found) found

  -- the statements between `begin` and `commit`
  unfoldable pub delete_container_tx : Text → Text → Exec AzureError (List Text)
  delete_container_tx account container = do
    or_internal x marker
    blob_paths ← or_internal x (fetch (λ db. map path_of (select_blobs_in account container db)))
    or_internal x (execute (delete_committed_in account container))
    or_internal x (execute (delete_staged_in account container))
    or_internal x (execute (delete_blobs_in account container))
    or_internal x (try_execute (delete_container_row account container))
    or_internal x marker
    pure blob_paths

  unfoldable pub delete_container : Text → Text → Exec AzureError (List Text)
  unfolding delete_container_tx
  delete_container account container = do
    require_container account container
    transaction (delete_container_tx account container)

  unfoldable pub set_container_metadata : Text → Text → Metadata → Exec AzureError ContainerRow
  set_container_metadata account container metadata = do
    require_container account container
    etag ← generate_etag x
    last_modified ← now_rfc1123 x
    or_internal x (
        execute (
          update_container account container (λ r. record r {
            metadata_json = dump_metadata x metadata;
            etag = etag;
            last_modified = last_modified;
          })))
    require_container account container

  unfoldable pub set_container_acl : Text → Text → PublicAccessLevel → Exec AzureError ContainerRow
  set_container_acl account container public_access = do
    require_container account container
    etag ← generate_etag x
    last_modified ← now_rfc1123 x
    or_internal x (
        execute (
          update_container account container (λ r. record r {
            public_access_level = as_db_str public_access;
            etag = etag;
            last_modified = last_modified;
          })))
    require_container account container
