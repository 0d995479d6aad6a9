-- ===== src/Api/Helpers.antt =====
-- crates/blobstore-api/src/helpers.rs: bodies, metadata headers, property headers, ranges.
use mert_blob_storage.Base.{ℕ, Option, none, some, [], ◌∷◌, ◌++◌, map, if◌then◌else◌}
use mert_blob_storage.Base.Lists.{upsert}
use mert_blob_storage.Base.Numbers.{parse_unsigned, max_u64}
use mert_blob_storage.Base.Text.{
  Text, codes, is_empty, contains, strip_prefix, split_once, to_string,
}
use mert_blob_storage.Core.Model.{as_str}
use mert_blob_storage.Storage.Externals.{Metadata}
use mert_blob_storage.Storage.Exec.{Exec, Result, ok, err, IoError, other, pure, ◌>>=◌}
use mert_blob_storage.Storage.Types.{ByteStream, BlobProps}
use mert_blob_storage.Auth.Externals.{Unicode}
use mert_blob_storage.Api.Http.{
  Headers, Body, HttpLibrary, Failure, is_header, replace_value, insert_header, unwrap,
}

abbrev pub to_chunk : Result Text Text → Result IoError Text
to_chunk (ok chunk) = ok chunk
to_chunk (err message) = err (other message)

unfoldable pub body_to_stream : Body → ByteStream
body_to_stream body = map to_chunk body

-- `HashMap::insert`
unfoldable pub insert_metadata : Text → Text → Metadata → Metadata
insert_metadata key value m = upsert (is_header key) (key, value) (replace_value value) m

module _ (l : HttpLibrary) (u : Unicode) where
  -- the two `if let` of the loop
  unfoldable pub add_metadata : Option Text → Option Text → Metadata → Metadata
  unfolding insert_metadata
  add_metadata (some key) (some value) out = insert_metadata key value out
  add_metadata (some key) none out = out
  add_metadata none value out = out

  -- the loop over the headers
  unfoldable pub metadata_of : Headers → Metadata → Metadata
  unfolding add_metadata
  metadata_of [] out = out
  metadata_of ((name, value) ∷ headers) out =
      metadata_of headers (
        add_metadata (strip_prefix (codes "x-ms-meta-") (u.to_lowercase name)) (l.to_str value) out)

  unfoldable pub extract_metadata : Headers → Metadata
  unfolding metadata_of
  extract_metadata headers = metadata_of headers []

module _ (l : HttpLibrary) where
  abbrev pub insert_both : Option Text → Option Text → Headers → Headers
  insert_both (some name) (some value) headers = insert_header name value headers
  insert_both (some name) none headers = headers
  insert_both none value headers = headers

  unfoldable pub apply_metadata_headers : Headers → Metadata → Headers
  apply_metadata_headers headers [] = headers
  apply_metadata_headers headers ((k, v) ∷ metadata) =
      apply_metadata_headers
        (insert_both (l.name_from_bytes (codes "x-ms-meta-" ++ k)) (l.from_str v) headers) metadata

  -- `if let Ok(v) = HeaderValue::from_str(…) { headers.insert(name, v) }`
  unfoldable pub insert_if_valid : Text → Text → Headers → Headers
  insert_if_valid name value headers = elim (l.from_str value) [
    | none ↦ headers
    | some v ↦ insert_header name v headers
  ]

  -- `if let Some(v) = … { if let Ok(hv) = … }`
  unfoldable pub insert_if_some : Text → Option Text → Headers → Headers
  unfolding insert_if_valid
  insert_if_some name none headers = headers
  insert_if_some name (some value) headers = insert_if_valid name value headers

  unfoldable pub apply_blob_property_headers : Headers → BlobProps → Exec Failure Headers
  unfolding insert_if_some insert_if_valid
  apply_blob_property_headers headers props = do
    let h1 = insert_if_valid (codes "etag") props.etag headers
    let h2 = insert_if_valid (codes "last-modified") props.last_modified h1
    size ← unwrap (l.from_str (to_string props.content_length))
    let h3 = insert_header (codes "content-length") size h2
    let h4 = insert_if_some (codes "content-type") props.content_type h3
    let h5 = insert_if_some (codes "content-md5") props.content_md5 h4
    let h6 = insert_if_some (codes "content-encoding") props.content_encoding h5
    let h7 = insert_if_some (codes "content-language") props.content_language h6
    let h8 = insert_if_some (codes "cache-control") props.cache_control h7
    let h9 = insert_if_some (codes "content-disposition") props.content_disposition h8
    let h10 = insert_header (codes "x-ms-blob-type") (as_str props.blob_type) h9
    pure (apply_metadata_headers h10 props.metadata)

-- the end of a range; the sentinel of an open one is the largest u64
unfoldable pub range_end : Text → Option ℕ
range_end [] = some max_u64
range_end (c ∷ s) = parse_unsigned max_u64 (c ∷ s)

abbrev pub both : Option ℕ → Option ℕ → Option (ℕ × ℕ)
both (some start) (some end) = some (start, end)
both (some start) none = none
both none end = none

-- the part behind the split at the minus sign
unfoldable pub range_bounds : Option (Text × Text) → Option (ℕ × ℕ)
unfolding range_end
range_bounds none = none
range_bounds (some (start, end)) =
    if is_empty start then none else both (parse_unsigned max_u64 start) (range_end end)

-- the part behind the prefix
unfoldable pub single_range : Option Text → Option (ℕ × ℕ)
unfolding range_bounds
single_range none = none
single_range (some value) =
    if contains b',' value then none else range_bounds (split_once b'-' value)

unfoldable pub parse_range : Text → Option (ℕ × ℕ)
unfolding single_range
parse_range value = single_range (strip_prefix (codes "bytes=") value)
