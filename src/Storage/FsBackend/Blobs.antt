-- ===== src/Storage/FsBackend/Blobs.antt =====
-- The blob operations of crates/blobstore-storage/src/fs_backend.rs.
use mert_blob_storage.Base.{
  ℕ, ◌+◌, ◌-◌, Bool, true, false, not, ◌||◌, Option, none, some, min, ltb, leb, if◌then◌else◌,
}
use mert_blob_storage.Base.Lists.{take, drop}
use mert_blob_storage.Base.Text.{Text, ◌==◌}
use mert_blob_storage.Core.Error.{AzureError, azure_error, invalid_range, md5_mismatch}
use mert_blob_storage.Storage.Externals.{Externals, Metadata}
use mert_blob_storage.Storage.Exec.{Exec, Result, ok, err, pure, raise, lift, ◌>>=◌, ◌>>◌, ignore}
use mert_blob_storage.Storage.Types.{
  ByteStream, BlobProps, BlobPropertiesPatch, ByteRange, BlobPayload,
}
use mert_blob_storage.Storage.PathLayout.{join}
use mert_blob_storage.Storage.FsIo.{sys, open_file, remove_file_if_exists, write_stream_atomic}
use mert_blob_storage.Storage.MetadataDb
use mert_blob_storage.Storage.MetadataDb.Rows.{or_internal}
use mert_blob_storage.Storage.FsBackend.Common.{
  blob_paths, tmp_dir, blob_row_to_props, md5_hex_to_base64,
}

-- `Some(expected) != md5_b64.as_ref()`, where a header was sent
unfoldable pub md5_differs : Option Text → Option Text → Bool
md5_differs none md5_b64 = false
md5_differs (some expected) none = true
md5_differs (some expected) (some actual) = not (expected == actual)

-- the `match range` of `get_blob`
unfoldable pub resolve_range : Option (ℕ × ℕ) → ℕ → Result AzureError (Option ByteRange)
resolve_range none total_len = ok none
resolve_range (some (start, end)) total_len =
    let end' = min end (total_len - 1) in
    if ltb end' start || leb total_len start
    then err (azure_error invalid_range)
    else ok (some (record { start = start; end = end' }))

-- what is read of the file, from where, and how far
unfoldable pub take_range : Option ByteRange → ℕ → Text → Text
take_range none total_len content = take total_len content
take_range (some r) total_len content = take (r.end - r.start + 1) (drop r.start content)

module _ (x : Externals) (storage_root : Text) where
  -- a range seeks first
  unfoldable pub seek_range : Option ByteRange → Exec AzureError (Unit {0})
  seek_range none = pure tt
  seek_range (some r) = or_internal x sys

  -- the file is in place by now; a digest that differs takes it away again
  unfoldable pub check_md5 : Option Text → Option Text → Text → Exec AzureError (Unit {0})
  unfolding md5_differs
  check_md5 content_md5_header md5_b64 abs_path =
      if md5_differs content_md5_header md5_b64
      then (do ignore (remove_file_if_exists abs_path); raise (azure_error md5_mismatch))
      else pure tt

  unfoldable pub put_blob :
      Text
      → Text
      → Text
      → ByteStream
      → Option Text
      → Option Text
      → Metadata
      → Exec AzureError BlobProps
  unfolding check_md5
  put_blob account container blob body content_type content_md5_header metadata = do
    MetadataDb.Containers.require_container x account container
    let (abs_path, rel_path) = blob_paths x storage_root account container blob
    (size, md5_hex) ←
        or_internal x (write_stream_atomic x (tmp_dir storage_root account) abs_path body)
    check_md5 content_md5_header (md5_hex_to_base64 x md5_hex) abs_path
    row ←
        MetadataDb.Blobs.upsert_blob_single_shot x account container blob rel_path size content_type
          (md5_hex_to_base64 x md5_hex) metadata
    pure (blob_row_to_props row)

  unfoldable pub get_blob : Text → Text → Text → Option (ℕ × ℕ) → Exec AzureError BlobPayload
  unfolding resolve_range take_range seek_range
  get_blob account container blob range = do
    row ← MetadataDb.Blobs.require_blob x account container blob
    resolved_range ← lift (resolve_range range row.content_length)
    content ← or_internal x (open_file (join storage_root row.storage_path))
    seek_range resolved_range
    pure (record {
      props = blob_row_to_props row;
      total_len = row.content_length;
      range = resolved_range;
      reader = take_range resolved_range row.content_length content;
    })

  unfoldable pub get_blob_properties : Text → Text → Text → Exec AzureError BlobProps
  get_blob_properties account container blob = do
    row ← MetadataDb.Blobs.require_blob x account container blob
    pure (blob_row_to_props row)

  unfoldable pub set_blob_properties :
      Text → Text → Text → BlobPropertiesPatch → Exec AzureError BlobProps
  set_blob_properties account container blob patch = do
    row ←
        MetadataDb.Blobs.set_blob_properties x account container blob patch.content_type
          patch.content_md5 patch.content_encoding patch.content_language patch.cache_control
          patch.content_disposition
    pure (blob_row_to_props row)

  unfoldable pub set_blob_metadata : Text → Text → Text → Metadata → Exec AzureError BlobProps
  set_blob_metadata account container blob metadata = do
    row ← MetadataDb.Blobs.set_blob_metadata x account container blob metadata
    pure (blob_row_to_props row)

  unfoldable pub delete_blob : Text → Text → Text → Exec AzureError (Unit {0})
  delete_blob account container blob = do
    rel_path ← MetadataDb.Blobs.delete_blob x account container blob
    ignore (remove_file_if_exists (join storage_root rel_path))
