-- ===== src/Api/Handlers/BlobReads.antt =====
-- `blob_get` of crates/blobstore-api/src/handlers/blobs.rs
use mert_blob_storage.Base.{ℕ, ◌+◌, ◌-◌, Option, none, some, [], ◌∷◌, ◌++◌, if◌then◌else◌}
use mert_blob_storage.Base.Text.{Text, codes, to_string}
use mert_blob_storage.Storage.Exec.{Exec, ◌>>=◌, pure}
use mert_blob_storage.Storage.Types.{ByteRange, BlobPayload}
use mert_blob_storage.Xml.BlockList.{render_block_list_response}
use mert_blob_storage.Api.Http.{
  Headers, Method, head, Request, Response, Failure, get_header, insert_header, or_fail, unwrap,
}
use mert_blob_storage.Api.State.{AppState, Libraries}
use mert_blob_storage.Api.Query.{get_param}
use mert_blob_storage.Api.Helpers.{apply_metadata_headers, apply_blob_property_headers, parse_range}
use mert_blob_storage.Api.Middleware.{or_else}
use mert_blob_storage.Api.Handlers.Common.{
  ok_status, partial_content_status, is_comp, to_str_of, params_of, version_headers, empty_response,
  xml_response,
}

-- `.and_then(parse_range)`
abbrev pub parse_range_of : Option Text → Option (ℕ × ℕ)
parse_range_of none = none
parse_range_of (some value) = parse_range value

-- `bytes {start}-{end}/{total_len}`
unfoldable pub content_range : ByteRange → ℕ → Text
content_range r total_len =
    codes "bytes "
    ++ (to_string r.start ++ (b'-' ∷ (to_string r.end ++ (b'/' ∷ to_string total_len))))

module _ (env : Libraries) (state : AppState) (account container blob : Text) (req : Request) where
  -- the arms of `blob_get`
  unfoldable pub get_metadata : Exec Failure Response
  get_metadata = do
    props ← or_fail (state.backend.get_blob_properties account container blob)
    headers ← version_headers env.http props.etag props.last_modified
    pure (empty_response ok_status (apply_metadata_headers env.http headers props.metadata))

  unfoldable pub get_block_list : Exec Failure Response
  get_block_list = do
    result ← or_fail (state.backend.get_block_list account container blob)
    pure (xml_response (render_block_list_response result))

  unfoldable pub head_blob : Exec Failure Response
  head_blob = do
    props ← or_fail (state.backend.get_blob_properties account container blob)
    headers ← apply_blob_property_headers env.http [] props
    pure (empty_response ok_status headers)

  unfoldable pub range_of : Option (ℕ × ℕ)
  range_of = parse_range_of (
      to_str_of env.http (
        or_else (get_header (codes "x-ms-range") req.headers)
          (get_header (codes "range") req.headers)))

  -- `if let Some(r) = payload.range`
  unfoldable pub range_headers :
      BlobPayload → Option ByteRange → Headers → Exec Failure (ℕ × Headers)
  unfolding content_range
  range_headers payload none headers = pure (ok_status, headers)
  range_headers payload (some r) headers = do
    range ← unwrap (env.http.from_str (content_range r payload.total_len))
    size ← unwrap (env.http.from_str (to_string (r.end - r.start + 1)))
    pure (
      partial_content_status,
      insert_header (codes "content-length") size
          (insert_header (codes "content-range") range headers),
    )

  unfoldable pub get_whole : Exec Failure Response
  unfolding range_of range_headers
  get_whole = do
    payload ← or_fail (state.backend.get_blob account container blob range_of)
    headers ← apply_blob_property_headers env.http [] payload.props
    (status, all_headers) ← range_headers payload payload.range headers
    pure (record { status = status; headers = all_headers; body = payload.reader })

  abbrev pub head_or_get : Method → Exec Failure Response
  head_or_get head = head_blob
  head_or_get _ = get_whole

  unfoldable pub blob_get : Exec Failure Response
  unfolding get_metadata get_block_list head_blob get_whole
  blob_get =
      let comp = get_param (params_of env.http req) (codes "comp") in
      if is_comp (codes "metadata") comp
      then get_metadata
      else if is_comp (codes "blocklist") comp
      then get_block_list
      else head_or_get req.method
