-- ===== src/Storage/MetadataDb/Blobs.antt =====
-- The blob operations of crates/blobstore-storage/src/metadata_db.rs.
use mathlib.Core.Option
use mert_blob_storage.Base.{ℕ, Option, none}
use mert_blob_storage.Base.Text.{Text, codes}
use mert_blob_storage.Core.Error.{AzureError, azure_error, blob_not_found}
use mert_blob_storage.Storage.Externals.{Externals, Metadata}
use mert_blob_storage.Storage.Db.{BlobsRow}
use mert_blob_storage.Storage.Exec.{
  Exec, pure, ok_or, ◌>>=◌, ◌>>◌, or_default, fetch, try_execute, execute, ignore,
}
use mert_blob_storage.Storage.MetadataDb.Rows.{
  BlobRow, dump_metadata, generate_etag, now_rfc1123, now_iso, or_internal, row_to_blob,
}
use mert_blob_storage.Storage.MetadataDb.Statements.{
  select_blob, upsert_blob, update_blob, delete_blob_row, delete_committed_of, delete_staged_of,
}
use mert_blob_storage.Storage.MetadataDb.Containers.{require_container}

-- the values that INSERT INTO blobs binds; the columns that it does not name are NULL
unfoldable pub new_blob :
    Text → Text → Text → ℕ → Option Text → Option Text → Text → Text → Text → Text → Text → BlobsRow
new_blob account container blob size content_type content_md5 json etag last_modified created_at
      storage_path =
    record {
      account_name = account;
      container_name = container;
      blob_name = blob;
      blob_type = codes "BlockBlob";
      content_length = size;
      content_type = content_type;
      content_md5 = content_md5;
      content_encoding = none;
      content_language = none;
      cache_control = none;
      content_disposition = none;
      metadata_json = json;
      etag = etag;
      last_modified = last_modified;
      created_at = created_at;
      committed = 1;
      storage_path = storage_path;
    }

-- the columns that UPDATE blobs SET … writes in `set_blob_properties`
unfoldable pub write_properties :
    Option Text
    → Option Text
    → Option Text
    → Option Text
    → Option Text
    → Option Text
    → Text
    → Text
    → BlobsRow
    → BlobsRow
write_properties content_type content_md5 content_encoding content_language cache_control
      content_disposition etag last_modified r =
    record r {
      content_type = content_type;
      content_md5 = content_md5;
      content_encoding = content_encoding;
      content_language = content_language;
      cache_control = cache_control;
      content_disposition = content_disposition;
      etag = etag;
      last_modified = last_modified;
    }

module _ (x : Externals) where
  unfoldable pub get_blob : Text → Text → Text → Exec AzureError (Option BlobRow)
  get_blob account container blob =
      or_default none
        (fetch (λ db. Option.map (row_to_blob x) (select_blob account container blob db)))

  unfoldable pub require_blob : Text → Text → Text → Exec AzureError BlobRow
  unfolding get_blob
  require_blob account container blob = do
    found ← get_blob account container blob
    ok_or (azure_error blob_not_found) found

  unfoldable pub upsert_blob_single_shot :
      Text → Text → Text → Text → ℕ → Option Text → Option Text → Metadata → Exec AzureError BlobRow
  upsert_blob_single_shot account container blob storage_path content_length content_type
        content_md5 metadata =
      do
        require_container x account container
        etag ← generate_etag x
        last_modified ← now_rfc1123 x
        created_at ← now_iso x
        or_internal x (
            try_execute (
              upsert_blob (
                new_blob account container blob content_length content_type content_md5
                  (dump_metadata x metadata) etag last_modified created_at storage_path)))
        require_blob account container blob

  unfoldable pub set_blob_properties :
      Text
      → Text
      → Text
      → Option Text
      → Option Text
      → Option Text
      → Option Text
      → Option Text
      → Option Text
      → Exec AzureError BlobRow
  set_blob_properties account container blob content_type content_md5 content_encoding
        content_language cache_control content_disposition =
      do
        require_blob account container blob
        etag ← generate_etag x
        last_modified ← now_rfc1123 x
        or_internal x (
            execute (
              update_blob account container blob (
                write_properties content_type content_md5 content_encoding content_language
                  cache_control content_disposition etag last_modified)))
        require_blob account container blob

  unfoldable pub set_blob_metadata : Text → Text → Text → Metadata → Exec AzureError BlobRow
  set_blob_metadata account container blob metadata = do
    require_blob account container blob
    etag ← generate_etag x
    last_modified ← now_rfc1123 x
    or_internal x (
        execute (
          update_blob account container blob (λ r. record r {
            metadata_json = dump_metadata x metadata;
            etag = etag;
            last_modified = last_modified;
          })))
    require_blob account container blob

  unfoldable pub delete_blob : Text → Text → Text → Exec AzureError Text
  delete_blob account container blob = do
    row ← require_blob account container blob
    or_internal x (execute (delete_blob_row account container blob))
    ignore (execute (delete_committed_of account container blob))
    ignore (execute (delete_staged_of account container blob))
    pure row.storage_path
