-- ===== src/Api/Proofs/Handlers.antt =====
-- The handlers keep what the backend's operations keep: those of GET and HEAD call reading operations
-- only.
use mert_blob_storage.Base.{Option, none, some}
use mert_blob_storage.Base.Text.{Text}
use mert_blob_storage.Storage.Db.{Db}
use mert_blob_storage.Storage.Exec.{Exec, Result, ok, err}
use mert_blob_storage.Storage.Types.{ByteRange, BlobProps, BlobPayload}
use mert_blob_storage.Storage.Proofs.Keeps.{Keeps, Keeps-map_err, keeps_rules}
use mert_blob_storage.Core.Error.{AzureError}
use mert_blob_storage.Api.Http.{
  HttpLibrary, Headers, Method, get, head, put, delete_method, other_method, Request, Response,
  Failure, api_error, panicking, unwrap, or_fail,
}
use mert_blob_storage.Api.State.{AppState, Libraries}
use mert_blob_storage.Api.Helpers.{apply_blob_property_headers}
use mert_blob_storage.Api.ErrorResponse.{into_response, response_of, azure_error_response}
use mert_blob_storage.Api.Handlers.Common.{version_headers}
use mert_blob_storage.Api.Handlers.Account.{list_containers}
use mert_blob_storage.Api.Handlers.Containers
use mert_blob_storage.Api.Handlers.Blobs
use mert_blob_storage.Api.Handlers.BlobReads
use mert_blob_storage.Xml.ErrorXml.{render_error}
use mert_blob_storage.Api.Proofs.Contract.{ReadsKeep, WritesKeep}

module _ {P : Db → Type 0} where
  module _ {A : Type 0} where
    pub Keeps-unwrap : (o : Option A) → Keeps P (unwrap o)
    unfolding unwrap
    Keeps-unwrap none = record { at = λ w h. h }
    Keeps-unwrap (some a) = record { at = λ w h. h }

    pub Keeps-or_fail : (m : Exec AzureError A) → Keeps P m → Keeps P (or_fail m)
    unfolding or_fail
    Keeps-or_fail m k = Keeps-map_err api_error m k

  pub Keeps-version_headers :
      (l : HttpLibrary) (etag last_modified : Text) → Keeps P (version_headers l etag last_modified)
  unfolding version_headers
  Keeps-version_headers l etag last_modified = search (keeps_rules, Keeps-unwrap)

  pub Keeps-apply_blob_property_headers :
      (l : HttpLibrary) (headers : Headers) (props : BlobProps)
      → Keeps P (apply_blob_property_headers l headers props)
  unfolding apply_blob_property_headers
  Keeps-apply_blob_property_headers l headers props = search (keeps_rules, Keeps-unwrap)

  module _ (env : Libraries) where
    response_of-Keeps : (r : Result Failure Response) → Keeps P (response_of env r)
    unfolding azure_error_response render_error
    response_of-Keeps (ok resp) = record { at = λ w h. h }
    response_of-Keeps (err panicking) = record { at = λ w h. h }
    response_of-Keeps (err (api_error e)) = record { at = λ w h. h }

    pub Keeps-into_response :
        (handler : Exec Failure Response) → Keeps P handler → Keeps P (into_response env handler)
    unfolding into_response
    Keeps-into_response handler k = record {
      at = λ w h. (response_of-Keeps (handler w).0).at (handler w).1 (k.at w h);
    }

ruleset handler_rules = (
  keeps_rules, Keeps-unwrap, Keeps-or_fail, Keeps-version_headers,
  Keeps-apply_blob_property_headers,
)

-- the arms of the handlers of GET and HEAD
module _ {P : Db → Type 0} (env : Libraries) (state : AppState)
    (k : ReadsKeep P state.backend) where
  pub Keeps-list_containers :
      (account : Text) (req : Request) → Keeps P (list_containers env state account req)
  unfolding list_containers
  Keeps-list_containers account req = search (handler_rules, k.list_containers_keep)

  pub Keeps-container_get :
      (a c : Text) (req : Request) → Keeps P (Containers.container_get env state a c req)
  unfolding Containers.container_get Containers.get_list Containers.get_acl Containers.get_container
  Keeps-container_get a c req =
      search (handler_rules, k.list_blobs_keep, k.get_container_properties_keep) depth 9

  range_headers-Keeps :
      (a c b : Text) (req : Request) (p : BlobPayload) (r : Option ByteRange) (headers : Headers)
      → Keeps P (BlobReads.range_headers env state a c b req p r headers)
  unfolding BlobReads.range_headers
  range_headers-Keeps a c b req p none headers = search handler_rules
  range_headers-Keeps a c b req p (some r) headers = search handler_rules

  head_or_get-Keeps :
      (a c b : Text) (req : Request) (m : Method)
      → Keeps P (BlobReads.head_or_get env state a c b req m)
  unfolding BlobReads.head_blob BlobReads.get_whole
  head_or_get-Keeps a c b req head = search (handler_rules, k.get_blob_properties_keep)
  head_or_get-Keeps a c b req get =
      search (handler_rules, k.get_blob_keep, range_headers-Keeps) depth 9
  head_or_get-Keeps a c b req put =
      search (handler_rules, k.get_blob_keep, range_headers-Keeps) depth 9
  head_or_get-Keeps a c b req delete_method =
      search (handler_rules, k.get_blob_keep, range_headers-Keeps) depth 9
  head_or_get-Keeps a c b req (other_method name) =
      search (handler_rules, k.get_blob_keep, range_headers-Keeps) depth 9

  pub Keeps-blob_get :
      (a c b : Text) (req : Request) → Keeps P (BlobReads.blob_get env state a c b req)
  unfolding BlobReads.blob_get BlobReads.get_metadata BlobReads.get_block_list
  Keeps-blob_get a c b req =
      search (handler_rules, k.get_blob_properties_keep, k.get_block_list_keep, head_or_get-Keeps)
        depth 9

module _ {P : Db → Type 0} (env : Libraries) (state : AppState)
    (k : WritesKeep P state.backend) where
  pub Keeps-container_put :
      (a c : Text) (req : Request) → Keeps P (Containers.container_put env state a c req)
  unfolding Containers.container_put Containers.put_metadata Containers.put_acl
      Containers.put_container
  Keeps-container_put a c req =
      search
        (
          handler_rules, k.set_container_metadata_keep, k.set_container_acl_keep,
          k.create_container_keep,
        )
        depth 9

  pub Keeps-container_delete :
      (a c : Text) (req : Request) → Keeps P (Containers.container_delete env state a c req)
  unfolding Containers.container_delete
  Keeps-container_delete a c req = search (handler_rules, k.delete_container_keep)

  with_md5-Keeps :
      (a c b : Text) (req : Request) (md5 : Text) (headers : Headers)
      → Keeps P (Blobs.with_md5 env state a c b req md5 headers)
  unfolding Blobs.with_md5
  with_md5-Keeps a c b req md5 headers = search handler_rules

  with_md5_of-Keeps :
      (a c b : Text) (req : Request) (md5 : Option Text) (headers : Headers)
      → Keeps P (Blobs.with_md5_of env state a c b req md5 headers)
  unfolding Blobs.with_md5_of
  with_md5_of-Keeps a c b req none headers = search handler_rules
  with_md5_of-Keeps a c b req (some md5) headers = with_md5-Keeps a c b req md5 headers

  pub Keeps-blob_put : (a c b : Text) (req : Request) → Keeps P (Blobs.blob_put env state a c b req)
  unfolding Blobs.blob_put Blobs.put_block Blobs.put_block_list Blobs.put_properties
      Blobs.put_metadata Blobs.put_whole
  Keeps-blob_put a c b req =
      search
        (
          handler_rules, k.put_block_keep, k.put_block_list_keep, k.set_blob_properties_keep,
          k.set_blob_metadata_keep, k.put_blob_keep, with_md5-Keeps, with_md5_of-Keeps,
        )
        depth 14

  pub Keeps-blob_delete :
      (a c b : Text) (req : Request) → Keeps P (Blobs.blob_delete env state a c b req)
  unfolding Blobs.blob_delete
  Keeps-blob_delete a c b req = search (handler_rules, k.delete_blob_keep)
