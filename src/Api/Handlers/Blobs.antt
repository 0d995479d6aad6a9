-- ===== src/Api/Handlers/Blobs.antt =====
-- The writing operations of crates/blobstore-api/src/handlers/blobs.rs
use mathlib.Core.Option
use mert_blob_storage.Base.{ℕ, ◌*◌, ◌&&◌, not, Option, none, some, [], if◌then◌else◌}
use mert_blob_storage.Base.Text.{Text, codes, ◌==◌, is_empty}
use mert_blob_storage.Core.Error.{azure_error, invalid_xml_document, feature_not_supported}
use mert_blob_storage.Storage.Exec.{Exec, ◌>>=◌, ◌>>◌, pure, raise, lift, ok_or}
use mert_blob_storage.Storage.Types.{BlobPropertiesPatch}
use mert_blob_storage.Xml.BlockList.{parse_block_list_request}
use mert_blob_storage.Api.Http.{
  Headers, Request, Response, Failure, api_error, insert_header, or_fail, unwrap,
}
use mert_blob_storage.Api.State.{AppState, Libraries}
use mert_blob_storage.Api.Query.{get_param}
use mert_blob_storage.Api.Helpers.{body_to_stream, extract_metadata}
use mert_blob_storage.Api.Handlers.Common.{
  ok_status, created_status, accepted_status, is_comp, header_opt, params_of, version_headers,
  empty_response,
}

-- the largest body of a block list
abbrev pub block_list_limit : ℕ
block_list_limit = 64 * 1024 * 1024

module _ (env : Libraries) (state : AppState) (account container blob : Text) (req : Request) where
  -- `headers.insert("content-md5", HeaderValue::from_str(&md5).unwrap())`
  unfoldable pub with_md5 : Text → Headers → Exec Failure Headers
  with_md5 md5 headers = do
    v ← unwrap (env.http.from_str md5)
    pure (insert_header (codes "content-md5") v headers)

  -- the arms of `blob_put`
  unfoldable pub put_block : Exec Failure Response
  unfolding with_md5
  put_block = do
    let block_id = Option.get_or (get_param (params_of env.http req) (codes "blockid")) []
    md5 ←
        or_fail (state.backend.put_block account container blob block_id (body_to_stream req.body))
    headers ← if is_empty md5 then pure [] else with_md5 md5 []
    pure (empty_response created_status headers)

  unfoldable pub put_block_list : Exec Failure Response
  put_block_list = do
    body ←
        ok_or (api_error (azure_error invalid_xml_document))
          (env.http.to_bytes block_list_limit req.body)
    refs ← or_fail (lift (parse_block_list_request env.xml body))
    props ← or_fail (
        state.backend.put_block_list account container blob refs
          (header_opt env.http req.headers (codes "content-type"))
          (extract_metadata env.http env.unicode req.headers))
    headers ← version_headers env.http props.etag props.last_modified
    pure (empty_response created_status headers)

  abbrev pub patch : BlobPropertiesPatch
  patch = record {
    content_type = header_opt env.http req.headers (codes "x-ms-blob-content-type");
    content_md5 = header_opt env.http req.headers (codes "x-ms-blob-content-md5");
    content_encoding = header_opt env.http req.headers (codes "x-ms-blob-content-encoding");
    content_language = header_opt env.http req.headers (codes "x-ms-blob-content-language");
    cache_control = header_opt env.http req.headers (codes "x-ms-blob-cache-control");
    content_disposition = header_opt env.http req.headers (codes "x-ms-blob-content-disposition");
  }

  unfoldable pub put_properties : Exec Failure Response
  put_properties = do
    props ← or_fail (state.backend.set_blob_properties account container blob patch)
    headers ← version_headers env.http props.etag props.last_modified
    pure (empty_response ok_status headers)

  unfoldable pub put_metadata : Exec Failure Response
  put_metadata = do
    props ← or_fail (
        state.backend.set_blob_metadata account container blob
          (extract_metadata env.http env.unicode req.headers))
    headers ← version_headers env.http props.etag props.last_modified
    pure (empty_response ok_status headers)

  -- `if let Some(md5) = &props.content_md5`
  unfoldable pub with_md5_of : Option Text → Headers → Exec Failure Headers
  unfolding with_md5
  with_md5_of none headers = pure headers
  with_md5_of (some md5) headers = with_md5 md5 headers

  unfoldable pub put_whole : Exec Failure Response
  unfolding with_md5_of
  put_whole = do
    let blob_type = Option.get_or (header_opt env.http req.headers (codes "x-ms-blob-type")) []
    if not (is_empty blob_type) && not (blob_type == codes "BlockBlob")
        then raise (api_error (azure_error feature_not_supported))
        else pure tt
    props ← or_fail (
        state.backend.put_blob account container blob (body_to_stream req.body)
          (header_opt env.http req.headers (codes "content-type"))
          (header_opt env.http req.headers (codes "content-md5"))
          (extract_metadata env.http env.unicode req.headers))
    headers ← version_headers env.http props.etag props.last_modified
    all_headers ← with_md5_of props.content_md5 headers
    pure (empty_response created_status all_headers)

  unfoldable pub blob_put : Exec Failure Response
  unfolding put_block put_block_list put_properties put_metadata put_whole
  blob_put =
      let comp = get_param (params_of env.http req) (codes "comp") in
      if is_comp (codes "block") comp
      then put_block
      else if is_comp (codes "blocklist") comp
      then put_block_list
      else if is_comp (codes "properties") comp
      then put_properties
      else if is_comp (codes "metadata") comp
      then put_metadata
      else put_whole

  unfoldable pub blob_delete : Exec Failure Response
  blob_delete = do
    or_fail (state.backend.delete_blob account container blob)
    pure (empty_response accepted_status [])
