-- ===== src/Api/Handlers/Account.antt =====
-- crates/blobstore-api/src/handlers/account.rs
use mert_blob_storage.Base.Text.{Text, codes}
use mert_blob_storage.Storage.Exec.{Exec, ◌>>=◌, pure}
use mert_blob_storage.Xml.Listings.{render_list_containers}
use mert_blob_storage.Api.Http.{Request, Response, Failure, or_fail}
use mert_blob_storage.Api.State.{AppState, Libraries}
use mert_blob_storage.Api.Query.{get_param}
use mert_blob_storage.Api.Handlers.Common.{max_results_of, params_of, xml_response}

module _ (env : Libraries) (state : AppState) where
  unfoldable pub list_containers : Text → Request → Exec Failure Response
  list_containers account req = do
    let params = params_of env.http req
    let prefix = get_param params (codes "prefix")
    let marker = get_param params (codes "marker")
    let max_results = max_results_of params
    page ← or_fail (state.backend.list_containers account prefix marker max_results)
    pure (
        xml_response (render_list_containers state.service_endpoint prefix marker max_results page))
