-- ===== src/Api/Handlers/Containers.antt =====
-- crates/blobstore-api/src/handlers/containers.rs
use mert_blob_storage.Base.{Option, none, some, [], ◌++◌, if◌then◌else◌}
use mert_blob_storage.Base.Text.{Text, codes}
use mert_blob_storage.Core.Model.{from_header_value, as_header_value}
use mert_blob_storage.Storage.Exec.{Exec, ◌>>=◌, ◌>>◌, pure}
use mert_blob_storage.Xml.BlockList.{declaration}
use mert_blob_storage.Xml.Listings.{render_list_blobs}
use mert_blob_storage.Api.Http.{
  Headers, Method, head, Request, Response, Failure, insert_header, or_fail,
}
use mert_blob_storage.Api.State.{AppState, Libraries}
use mert_blob_storage.Api.Query.{get_param}
use mert_blob_storage.Api.Helpers.{extract_metadata, apply_metadata_headers}
use mert_blob_storage.Api.Handlers.Common.{
  ok_status, created_status, accepted_status, is_comp, max_results_of, header_opt, params_of,
  version_headers, empty_response, xml_response,
}

-- `if let Some(pa) = …as_header_value()`
unfoldable pub insert_level : Option Text → Headers → Headers
insert_level none headers = headers
insert_level (some level) headers = insert_header (codes "x-ms-blob-public-access") level headers

abbrev pub no_identifiers : Text
no_identifiers = declaration ++ codes "<SignedIdentifiers/>"

-- a HEAD request gets no body
abbrev pub body_unless_head : Method → Text → Text
body_unless_head head body = []
body_unless_head _ body = body

module _ (env : Libraries) (state : AppState) (account container : Text) (req : Request) where
  -- the arms of `container_put`
  unfoldable pub put_metadata : Exec Failure Response
  put_metadata = do
    props ← or_fail (
        state.backend.set_container_metadata account container
          (extract_metadata env.http env.unicode req.headers))
    headers ← version_headers env.http props.etag props.last_modified
    pure (empty_response ok_status headers)

  unfoldable pub put_acl : Exec Failure Response
  put_acl = do
    let level =
        from_header_value (header_opt env.http req.headers (codes "x-ms-blob-public-access"))
    props ← or_fail (state.backend.set_container_acl account container level)
    headers ← version_headers env.http props.etag props.last_modified
    pure (empty_response ok_status headers)

  unfoldable pub put_container : Exec Failure Response
  put_container = do
    let level =
        from_header_value (header_opt env.http req.headers (codes "x-ms-blob-public-access"))
    props ← or_fail (
        state.backend.create_container account container level
          (extract_metadata env.http env.unicode req.headers))
    headers ← version_headers env.http props.etag props.last_modified
    pure (empty_response created_status headers)

  unfoldable pub container_put : Exec Failure Response
  unfolding put_metadata put_acl put_container
  container_put =
      let comp = get_param (params_of env.http req) (codes "comp") in
      if is_comp (codes "metadata") comp
      then put_metadata
      else if is_comp (codes "acl") comp
      then put_acl
      else put_container

  unfoldable pub container_delete : Exec Failure Response
  container_delete = do
    or_fail (state.backend.delete_container account container)
    pure (empty_response accepted_status [])

  -- the arms of `container_get`
  unfoldable pub get_list : Exec Failure Response
  get_list = do
    let params = params_of env.http req
    let prefix = get_param params (codes "prefix")
    let delimiter = get_param params (codes "delimiter")
    let marker = get_param params (codes "marker")
    let max_results = max_results_of params
    page ← state.backend.list_blobs account container prefix delimiter marker max_results
    pure (
        xml_response (
          render_list_blobs state.service_endpoint container prefix delimiter marker max_results
            page))

  unfoldable pub get_acl : Exec Failure Response
  get_acl = do
    props ← or_fail (state.backend.get_container_properties account container)
    headers ← version_headers env.http props.etag props.last_modified
    pure (record {
      status = ok_status;
      headers =
          insert_header (codes "content-type") (codes "application/xml")
            (insert_level (as_header_value props.public_access) headers);
      body = body_unless_head req.method no_identifiers;
    })

  unfoldable pub get_container : Exec Failure Response
  get_container = do
    props ← or_fail (state.backend.get_container_properties account container)
    headers ← version_headers env.http props.etag props.last_modified
    pure (
        empty_response ok_status (
          apply_metadata_headers env.http
            (insert_level (as_header_value props.public_access) headers) props.metadata))

  unfoldable pub container_get : Exec Failure Response
  unfolding get_list get_acl get_container
  container_get =
      let comp = get_param (params_of env.http req) (codes "comp") in
      if is_comp (codes "list") comp
      then get_list
      else if is_comp (codes "acl") comp
      then get_acl
      else get_container
