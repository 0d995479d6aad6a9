-- ===== src/Storage/Proofs/RoundTrip.antt =====
-- A blob that was put is read back.
use mathlib.Core.Option
use mert_blob_storage.Base.{
  ℕ, ◌+◌, ◌-◌, ◌≤◌, ◌<◌, ◌≡◌, refl, false, Option, none, some, List, [], ◌∷◌, map, min, arith, ◌⊎◌,
}
use mert_blob_storage.Base.Lists.{length, flatten, take, drop, take_all, length-take, length-drop}
use mert_blob_storage.Base.Text.{Text, contains}
use mert_blob_storage.Core.Error.{azure_error, invalid_range}
use mert_blob_storage.Core.Time
use mert_blob_storage.Storage.Externals.{Externals, Metadata}
use mert_blob_storage.Storage.Db.{Db, ContainersRow, BlobsRow}
use mert_blob_storage.Storage.Exec.{World, ok, err, ◌>>=◌, or_default, fetch, try_execute}
use mert_blob_storage.Storage.Types.{ByteRange, BlobProps, BlobPayload}
use mert_blob_storage.Storage.PathLayout.{join, blob_rel_path}
use mert_blob_storage.Storage.FsIo.{Files, erase_file, store_file, open_file, sys, u64_mod}
use mert_blob_storage.Storage.MetadataDb.Rows.{
  row_to_blob, or_internal, dump_metadata, generate_etag, now_rfc1123, now_iso,
}
use mert_blob_storage.Storage.MetadataDb.Statements.{select_container, select_blob}
use mert_blob_storage.Storage.MetadataDb.Blobs.{new_blob, require_blob, upsert_blob_single_shot}
use mert_blob_storage.Storage.FsBackend.Common.{
  container_rel, blob_paths, tmp_dir, slashes, blob_row_to_props, md5_hex_to_base64,
}
use mert_blob_storage.Storage.FsBackend.Blobs.{
  md5_differs, resolve_range, take_range, seek_range, put_blob, get_blob,
}
use mert_blob_storage.Storage.Proofs.Calm.{
  calm, read-store_self, require_container-calm, tmp_path, write_stream_atomic-calm,
}
use mert_blob_storage.Storage.Proofs.Rows.{
  has_container_of_select, stored, with_blob, upsert_blob_lem, select_blob-upsert, stored-columns,
}

module _ (x : Externals) where
  pub require_blob-calm :
      (a c b : Text) (r : BlobsRow) (db : Db) (fs : Files) (t : ℕ)
      → select_blob a c b db ≡ some r
      → require_blob x a c b (calm db fs t) ≡ (ok (row_to_blob x r), calm db fs t)
  unfolding require_blob ◌>>=◌ or_default fetch
  require_blob-calm a c b r db fs t h = rw h

  seek_range-calm :
      (root : Text) (r : Option ByteRange) (db : Db) (fs : Files) (t : ℕ)
      → seek_range x root r (calm db fs t) ≡ (ok tt, calm db fs t)
  unfolding seek_range or_internal sys ◌>>=◌
  seek_range-calm root none db fs t = refl
  seek_range-calm root (some r) db fs t = refl

  -- The row that an upload at the t-th reading of the clock inserts.
  abbrev pub uploaded :
      Text → Text → Text → Text → ℕ → Option Text → Option Text → Metadata → ℕ → BlobsRow
  uploaded a c b path size content_type content_md5 metadata t =
      new_blob a c b size content_type content_md5 (dump_metadata x metadata)
        (Time.generate_etag (x.clock t)) (Time.format_http_date (x.calendar (x.clock (t + 1))))
        (Option.get_or (x.rfc3339 (x.clock (t + 1 + 1))) []) path

  pub upsert-calm :
      (a c b path : Text) (size : ℕ) (content_type content_md5 : Option Text) (metadata : Metadata)
      (r : ContainersRow) (db : Db) (fs : Files) (t : ℕ)
      → select_container a c db ≡ some r
      → upsert_blob_single_shot x a c b path size content_type content_md5 metadata (calm db fs t)
        ≡ (
          ok (
              row_to_blob x
                (stored (uploaded a c b path size content_type content_md5 metadata t) db)),
          calm
              (with_blob (uploaded a c b path size content_type content_md5 metadata t) db)
              fs
              (t + 1 + 1 + 1),
        )
  unfolding upsert_blob_single_shot ◌>>=◌ generate_etag now_rfc1123 now_iso or_internal try_execute
      new_blob
  upsert-calm a c b path size content_type content_md5 metadata r db fs t h =
      let n = uploaded a c b path size content_type content_md5 metadata t in
      rw (require_container-calm x a c r db fs t h) (
        rw (upsert_blob_lem n db (has_container_of_select a c r db h)) (
          require_blob-calm a c b (stored n db) (with_blob n db) fs (t + 1 + 1 + 1)
            (select_blob-upsert n db refl)))

slashes_of_plain : (s : Text) → contains b'\\' s ≡ false → slashes s ≡ s
unfolding slashes contains
slashes_of_plain [] h = refl
slashes_of_plain (ch ∷ s) h = ground (arith, slashes_of_plain s)

-- A body that arrives whole at a container that exists.
module _ (x : Externals) (root a c b : Text) (chunks : List Text)
    (content_type header : Option Text) (metadata : Metadata) (db : Db) (fs : Files) (t : ℕ) where
  abbrev pub body : Text
  body = flatten chunks

  abbrev pub digest : Option Text
  digest = md5_hex_to_base64 x (x.hex_encode (x.md5 body))

  abbrev pub new_row : BlobsRow
  new_row =
      uploaded x a c b (blob_paths x root a c b).1 (length body) content_type digest metadata
        (t + 1)

  abbrev pub after_put : World
  after_put =
      calm (with_blob new_row db)
        (store_file (blob_paths x root a c b).0 body
          (erase_file (tmp_path x (tmp_dir root a) t) fs))
        (t + 1 + 1 + 1 + 1)

  pub put_blob-calm :
      (r : ContainersRow)
      → select_container a c db ≡ some r
      → length body < u64_mod
      → md5_differs header digest ≡ false
      → put_blob x root a c b (map ok chunks) content_type header metadata (calm db fs t)
        ≡ (ok (blob_row_to_props (row_to_blob x (stored new_row db))), after_put)
  unfolding put_blob ◌>>=◌ or_internal
  put_blob-calm r h fits same =
      let (abs, rel) = blob_paths x root a c b in
      let files = store_file abs body (erase_file (tmp_path x (tmp_dir root a) t) fs) in
      rw (require_container-calm x a c r db fs t h) (
        rw (write_stream_atomic-calm x (tmp_dir root a) abs chunks db fs t fits) (
          rw same (
            rw (
              upsert-calm x a c b rel (length body) content_type digest metadata r db files (t + 1)
                h))))

  -- The path under the storage root, before the database's copy of it has its backslashes replaced.
  abbrev pub rel_path : Text
  rel_path = join (container_rel a c) (blob_rel_path x b)

  pub recorded_path :
      contains b'\\' rel_path ≡ false
      → join root (blob_paths x root a c b).1 ≡ (blob_paths x root a c b).0
  unfolding blob_paths
  recorded_path plain = rw (slashes_of_plain rel_path plain)

  -- The next reader finds the row, and the file under the path that the row names.
  pub get_blob-after_put :
      (range : Option (ℕ × ℕ)) (resolved : Option ByteRange)
      → contains b'\\' rel_path ≡ false
      → resolve_range range (length body) ≡ ok resolved
      → get_blob x root a c b range after_put ≡ (
        ok (record {
          props = blob_row_to_props (row_to_blob x (stored new_row db));
          total_len = length body;
          range = resolved;
          reader = take_range resolved (length body) body;
        }),
        after_put,
      )
  unfolding get_blob ◌>>=◌ or_internal new_blob row_to_blob open_file
  get_blob-after_put range resolved plain fine =
      rw
        (require_blob-calm x a c b (stored new_row db) (with_blob new_row db) _ _
          (select_blob-upsert new_row db refl))
        (rw ((stored-columns new_row db).0) (
          rw fine (
            rw ((stored-columns new_row db).1) (
              rw (recorded_path plain) (
                rw read-store_self
                  (rw (seek_range-calm x root resolved (with_blob new_row db) _ _)))))))

-- Put Blob and then Get Blob, with no fault in between: where the container exists, the body is
-- shorter than 2^64 bytes, a Content-MD5 header (if any) agrees with the body, and no path component
-- holds a backslash, Put Blob succeeds, and Get Blob returns the same properties and the whole body.
pub get_blob-put_blob :
    (x : Externals) (root a c b : Text) (chunks : List Text) (content_type header : Option Text)
    (metadata : Metadata) (db : Db) (fs : Files) (t : ℕ) (r : ContainersRow)
    → select_container a c db ≡ some r
    → length (flatten chunks) < u64_mod
    → md5_differs header (md5_hex_to_base64 x (x.hex_encode (x.md5 (flatten chunks)))) ≡ false
    → contains b'\\' (join (container_rel a c) (blob_rel_path x b)) ≡ false
    → (props : BlobProps) × (w : World) × (put_blob x root a c b
          (map ok chunks)
          content_type
          header
          metadata
          (calm db fs t)
        ≡ (ok props, w))
      × (get_blob x root a c b none w ≡ (
        ok (record {
          props = props;
          total_len = length (flatten chunks);
          range = none;
          reader = flatten chunks;
        }),
        w,
      ))
unfolding resolve_range take_range
get_blob-put_blob x root a c b chunks content_type header metadata db fs t r h fits same plain =
    let new = new_row x root a c b chunks content_type header metadata db fs t in
    (
      blob_row_to_props (row_to_blob x (stored new db)),
      after_put x root a c b chunks content_type header metadata db fs t,
      put_blob-calm x root a c b chunks content_type header metadata db fs t r h fits same,
      rw
          (get_blob-after_put x root a c b chunks content_type header metadata db fs t none none
            plain refl)
          (rw (take_all (length (flatten chunks)) (flatten chunks) (omega arith))),
    )

-- The bytes that a range covers, both ends included.
abbrev pub slice : ℕ → ℕ → Text → Text
slice start end content = take (end - start + 1) (drop start content)

-- A range is resolved to lie in the blob exactly when it starts in it and is not reversed; the end is
-- cut to the last byte. Any other range is InvalidRange.
pub resolve_range_exact :
    (start end total : ℕ)
    → (start ≤ end
        → start < total
        → resolve_range (some (start, end)) total
          ≡ ok (some (record { start = start; end = min end (total - 1) })))
      × ((end < start) ⊎ (total ≤ start)
          → resolve_range (some (start, end)) total ≡ err (azure_error invalid_range))
unfolding resolve_range
resolve_range_exact start end total = (λ h k. ground arith, λ h. ground arith)

-- A ranged Get Blob after a Put Blob, with no fault: for a range that starts in the blob and is not
-- reversed, the reader yields exactly the bytes of the range, cut to the end of the blob, and as many
-- as Content-Range announces.
pub get_blob_range-put_blob :
    (x : Externals) (root a c b : Text) (chunks : List Text) (content_type header : Option Text)
    (metadata : Metadata) (db : Db) (fs : Files) (t : ℕ) (r : ContainersRow) (start end : ℕ)
    → select_container a c db ≡ some r
    → length (flatten chunks) < u64_mod
    → md5_differs header (md5_hex_to_base64 x (x.hex_encode (x.md5 (flatten chunks)))) ≡ false
    → contains b'\\' (join (container_rel a c) (blob_rel_path x b)) ≡ false
    → start ≤ end
    → start < length (flatten chunks)
    → (payload : BlobPayload) × ((get_blob x root a c b
          (some (start, end))
          (put_blob x root a c b (map ok chunks) content_type header metadata (calm db fs t)).1).0
        ≡ ok payload)
      × (payload.range
          ≡ some (record { start = start; end = min end (length (flatten chunks) - 1) }))
      × (payload.reader ≡ slice start (min end (length (flatten chunks) - 1)) (flatten chunks))
      × (length payload.reader ≡ min end (length (flatten chunks) - 1) - start + 1)
unfolding take_range
get_blob_range-put_blob x root a c b chunks content_type header metadata db fs t r start end h fits
      same plain ordered inside =
    let resolved : ByteRange = record {
      start = start;
      end = min end (length (flatten chunks) - 1);
    } in
    let fine = (resolve_range_exact start end (length (flatten chunks))).0 ordered inside in
    (
      record {
        props = blob_row_to_props (
            row_to_blob x
              (stored (new_row x root a c b chunks content_type header metadata db fs t) db));
        total_len = length (flatten chunks);
        range = some resolved;
        reader = take_range (some resolved) (length (flatten chunks)) (flatten chunks);
      },
      rw (put_blob-calm x root a c b chunks content_type header metadata db fs t r h fits same) (
          rw (
            get_blob-after_put x root a c b chunks content_type header metadata db fs t
              (some (start, end)) (some resolved) plain fine)),
      refl,
      refl,
      omega (
        arith,
        length-take (min end (length (flatten chunks) - 1) - start + 1)
            (drop start (flatten chunks)),
        length-drop start (flatten chunks),
      ),
    )
