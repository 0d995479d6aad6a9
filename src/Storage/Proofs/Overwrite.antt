-- ===== src/Storage/Proofs/Overwrite.antt =====
-- What happens to a blob that is there already: an upload with a wrong digest, and Set Blob
-- Properties.
use mert_blob_storage.Base.{ℕ, ◌+◌, ◌<◌, ◌≡◌, refl, true, false, Option, none, some, List, map}
use mert_blob_storage.Base.Lists.{length, flatten}
use mert_blob_storage.Base.Tables.{find-update}
use mert_blob_storage.Base.Text.{Text, contains, eq_refl}
use mert_blob_storage.Core.Time
use mert_blob_storage.Core.Error.{azure_error, md5_mismatch}
use mert_blob_storage.Storage.Externals.{Externals, Metadata}
use mert_blob_storage.Storage.Db.{Db, ContainersRow, BlobsRow, is_blob}
use mert_blob_storage.Storage.Exec.{ok, err, not_found, ◌>>=◌, execute, ignore}
use mert_blob_storage.Storage.Types.{BlobProps, BlobPropertiesPatch}
use mert_blob_storage.Storage.PathLayout.{join, blob_rel_path}
use mert_blob_storage.Storage.FsIo.{
  Files, read_file, store_file, erase_file, open_file, remove_file_if_exists, u64_mod,
}
use mert_blob_storage.Storage.MetadataDb
use mert_blob_storage.Storage.MetadataDb.Rows.{
  or_internal, to_internal, row_to_blob, parse_metadata, generate_etag, now_rfc1123,
}
use mert_blob_storage.Storage.MetadataDb.Statements.{
  select_container, select_blob, is_live, update_blob,
}
use mert_blob_storage.Storage.MetadataDb.Blobs.{write_properties}
use mert_blob_storage.Storage.FsBackend.Common.{
  container_rel, blob_paths, tmp_dir, blob_row_to_props, md5_hex_to_base64,
}
use mert_blob_storage.Storage.FsBackend.Blobs.{md5_differs, put_blob, get_blob, set_blob_properties}
use mert_blob_storage.Storage.Proofs.Calm.{
  calm, read-erase, read-store_self, erase-store, require_container-calm, tmp_path,
  write_stream_atomic-calm,
}
use mert_blob_storage.Storage.Proofs.Rows.{is_blob_of_is_live}
use mert_blob_storage.Storage.Proofs.RoundTrip.{require_blob-calm, recorded_path}

remove_file-calm :
    (p content : Text) (db : Db) (fs : Files) (t : ℕ)
    → read_file p fs ≡ some content
    → remove_file_if_exists p (calm db fs t) ≡ (ok tt, calm db (erase_file p fs) t)
unfolding remove_file_if_exists
remove_file-calm p content db fs t h = rw h

open_file-gone :
    (p : Text) (db : Db) (fs : Files) (t : ℕ)
    → open_file p (calm db (erase_file p fs) t) ≡ (err not_found, calm db (erase_file p fs) t)
unfolding open_file
open_file-gone p db fs t = rw read-erase (rw eq_refl)

module _ (x : Externals) (root a c b : Text) (chunks : List Text)
    (content_type header : Option Text) (metadata : Metadata) (db : Db) (fs : Files) (t : ℕ) where
  -- The upload with a wrong digest has put its bytes in place of the old ones, and then removed them.
  mismatch-calm :
      (r : ContainersRow)
      → select_container a c db ≡ some r
      → length (flatten chunks) < u64_mod
      → md5_differs header (md5_hex_to_base64 x (x.hex_encode (x.md5 (flatten chunks)))) ≡ true
      → put_blob x root a c b (map ok chunks) content_type header metadata (calm db fs t) ≡ (
        err (azure_error md5_mismatch),
        calm db
            (erase_file (blob_paths x root a c b).0 (erase_file (tmp_path x (tmp_dir root a) t) fs))
            (t + 1),
      )
  unfolding put_blob ◌>>=◌ or_internal ignore
  mismatch-calm r h fits differs =
      let (abs, rel) = blob_paths x root a c b in
      let rest = erase_file (tmp_path x (tmp_dir root a) t) fs in
      rw (require_container-calm x a c r db fs t h) (
        rw (write_stream_atomic-calm x (tmp_dir root a) abs chunks db fs t fits) (
          rw differs (
            rw
              (remove_file-calm abs (flatten chunks) db (store_file abs (flatten chunks) rest)
                (t + 1) (read-store_self abs (flatten chunks) rest))
              (rw erase-store))))

-- An upload over an existing blob, with a Content-MD5 that does not agree with the body and no other
-- fault: Put Blob answers Md5Mismatch and leaves the blob's row as it was, but the file of the old
-- bytes is gone, and the next Get Blob of the whole blob fails with InternalError.
pub put_blob_mismatch_loses_blob :
    (x : Externals) (root a c b : Text) (chunks : List Text) (content_type header : Option Text)
    (metadata : Metadata) (db : Db) (fs : Files) (t : ℕ) (r : ContainersRow) (old : BlobsRow)
    → select_container a c db ≡ some r
    → select_blob a c b db ≡ some old
    → old.storage_path ≡ (blob_paths x root a c b).1
    → contains b'\\' (join (container_rel a c) (blob_rel_path x b)) ≡ false
    → length (flatten chunks) < u64_mod
    → md5_differs header (md5_hex_to_base64 x (x.hex_encode (x.md5 (flatten chunks)))) ≡ true
    → ((put_blob x root a c b (map ok chunks) content_type header metadata (calm db fs t)).0
        ≡ err (azure_error md5_mismatch))
      × ((put_blob x root a c b (map ok chunks) content_type header metadata (calm db fs t)).1.db
          ≡ db)
      × ((get_blob x root a c b none
            (put_blob x root a c b (map ok chunks) content_type header metadata (calm db fs t)).1).0
          ≡ err (to_internal x not_found))
unfolding get_blob ◌>>=◌ or_internal row_to_blob
put_blob_mismatch_loses_blob x root a c b chunks content_type header metadata db fs t r old h k same
      plain fits differs =
    let e =
      mismatch-calm x root a c b chunks content_type header metadata db fs t r h fits differs in
    let rest = erase_file (tmp_path x (tmp_dir root a) t) fs in
    (
      rw e,
      rw e,
      rw e (
          rw (require_blob-calm x a c b old db _ _ k) (
            rw same (
              rw (recorded_path x root a c b chunks content_type header metadata db fs t plain)
                (rw (open_file-gone (blob_paths x root a c b).0 db rest (t + 1)))))),
    )

is_live-write :
    (a c b : Text) (p q s u v y : Option Text) (etag modified : Text) (r : BlobsRow)
    → is_live a c b (write_properties p q s u v y etag modified r) ≡ is_live a c b r
unfolding is_live is_blob write_properties
is_live-write a c b p q s u v y etag modified r = refl

abbrev patched : BlobPropertiesPatch → Text → Text → BlobsRow → BlobsRow
patched patch =
    write_properties patch.content_type patch.content_md5 patch.content_encoding
      patch.content_language patch.cache_control patch.content_disposition

select_blob-patch :
    (a c b : Text) (patch : BlobPropertiesPatch) (etag modified : Text) (old : BlobsRow) (db : Db)
    → select_blob a c b db ≡ some old
    → select_blob a c b (update_blob a c b (patched patch etag modified) db)
      ≡ some (patched patch etag modified old)
unfolding select_blob update_blob
select_blob-patch a c b patch etag modified old db k =
    let f = patched patch etag modified in
    rw
      (find-update (is_blob a c b) (is_live a c b) f (is_blob_of_is_live a c b)
        (is_live-write a c b _ _ _ _ _ _ etag modified) db.blobs)
      (rw k)

-- Set Blob Properties, with no fault, sets each of the six properties to what the patch holds: a
-- header that was not sent clears its property. The length and the metadata stay.
pub set_blob_properties_replaces :
    (x : Externals) (root a c b : Text) (patch : BlobPropertiesPatch) (db : Db) (fs : Files) (t : ℕ)
    (old : BlobsRow)
    → select_blob a c b db ≡ some old
    → (props : BlobProps) × ((set_blob_properties x root a c b patch (calm db fs t)).0 ≡ ok props)
      × (props.content_type ≡ patch.content_type)
      × (props.content_md5 ≡ patch.content_md5)
      × (props.content_encoding ≡ patch.content_encoding)
      × (props.content_language ≡ patch.content_language)
      × (props.cache_control ≡ patch.cache_control)
      × (props.content_disposition ≡ patch.content_disposition)
      × (props.content_length ≡ old.content_length)
      × (props.metadata ≡ parse_metadata x old.metadata_json)
unfolding set_blob_properties MetadataDb.Blobs.set_blob_properties ◌>>=◌ or_internal execute
    generate_etag now_rfc1123 row_to_blob write_properties blob_row_to_props
set_blob_properties_replaces x root a c b patch db fs t old k =
    let etag = Time.generate_etag (x.clock t) in
    let modified = Time.format_http_date (x.calendar (x.clock (t + 1))) in
    (
      blob_row_to_props (row_to_blob x (patched patch etag modified old)),
      rw (require_blob-calm x a c b old db fs t k) (
          rw (
            require_blob-calm x a c b (patched patch etag modified old)
              (update_blob a c b (patched patch etag modified) db) fs (t + 1 + 1)
              (select_blob-patch a c b patch etag modified old db k))),
      refl,
      refl,
      refl,
      refl,
      refl,
      refl,
      refl,
      refl,
    )
