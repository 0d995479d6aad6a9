-- ===== src/Api/Router.antt =====
-- crates/blobstore-api/src/lib.rs and handlers/health.rs: the routes and the layers around them. The
-- bodies that axum strips from the responses to HEAD are as the handlers made them.
use mert_blob_storage.Base.{[], if◌then◌else◌}
use mert_blob_storage.Base.Text.{Text, codes, ◌==◌}
use mert_blob_storage.Storage.Exec.{Exec, ok}
use mert_blob_storage.Auth.Types.{AuthContext}
use mert_blob_storage.Api.Http.{
  Method, get, head, put, delete_method, other_method, Request, Response, RouteMatch, account_route,
  container_route, blob_route, no_route, Panic,
}
use mert_blob_storage.Api.State.{AppState, Libraries}
use mert_blob_storage.Api.ErrorResponse.{into_response}
use mert_blob_storage.Api.Middleware.{auth_middleware}
use mert_blob_storage.Api.AccountResolve.{account_resolve_middleware}
use mert_blob_storage.Api.Handlers.Common.{ok_status, empty_response}
use mert_blob_storage.Api.Handlers.Account.{list_containers}
use mert_blob_storage.Api.Handlers.Containers.{container_put, container_delete, container_get}
use mert_blob_storage.Api.Handlers.Blobs.{blob_put, blob_delete}
use mert_blob_storage.Api.Handlers.BlobReads.{blob_get}

-- axum's own answer
abbrev pub respond : Response → Exec Panic Response
respond resp w = (ok resp, w)

unfoldable pub healthz : Response
healthz = empty_response ok_status []

unfoldable pub readyz : Response
readyz = empty_response ok_status []

-- the method router of a health route, where `get` serves HEAD too
abbrev pub health_route : Method → Response → Response → Response
health_route get resp denied = resp
health_route head resp denied = resp
health_route _ resp denied = denied

module _ (env : Libraries) (state : AppState) where
  -- the method router of each route; `get` serves HEAD too
  unfoldable pub serve_account : Text → Request → Method → Exec Panic Response
  unfolding list_containers into_response
  serve_account account req get = into_response env (list_containers env state account req)
  serve_account account req head = into_response env (list_containers env state account req)
  serve_account account req _ = respond env.http.method_not_allowed

  unfoldable pub serve_container : Text → Text → Request → Method → Exec Panic Response
  unfolding container_put container_delete container_get into_response
  serve_container account container req put =
      into_response env (container_put env state account container req)
  serve_container account container req delete_method =
      into_response env (container_delete env state account container req)
  serve_container account container req get =
      into_response env (container_get env state account container req)
  serve_container account container req head =
      into_response env (container_get env state account container req)
  serve_container account container req (other_method name) = respond env.http.method_not_allowed

  unfoldable pub serve_blob : Text → Text → Text → Request → Method → Exec Panic Response
  unfolding blob_put blob_delete blob_get into_response
  serve_blob account container blob req put =
      into_response env (blob_put env state account container blob req)
  serve_blob account container blob req get =
      into_response env (blob_get env state account container blob req)
  serve_blob account container blob req head =
      into_response env (blob_get env state account container blob req)
  serve_blob account container blob req delete_method =
      into_response env (blob_delete env state account container blob req)
  serve_blob account container blob req (other_method name) = respond env.http.method_not_allowed

  unfoldable pub serve_match : RouteMatch → Request → Exec Panic Response
  unfolding serve_account serve_container serve_blob
  serve_match (account_route account) req = serve_account account req req.method
  serve_match (container_route account container) req =
      serve_container account container req req.method
  serve_match (blob_route account container blob) req =
      serve_blob account container blob req req.method
  serve_match (no_route resp) req = respond resp

  -- no handler reads the context that the middleware found
  unfoldable pub api_routes : Request → AuthContext → Exec Panic Response
  unfolding serve_match
  api_routes req ctx = serve_match (env.http.route_match req.path) req

  -- `api_routes` with the two layers around it
  unfoldable pub api_service : Request → Exec Panic Response
  unfolding auth_middleware account_resolve_middleware
  api_service =
      account_resolve_middleware env state (λ req. auth_middleware env state api_routes req)

  unfoldable pub build_router : Request → Exec Panic Response
  unfolding healthz readyz api_service
  build_router req =
      if req.path == codes "/healthz"
      then respond (health_route req.method healthz env.http.method_not_allowed)
      else if req.path == codes "/readyz"
      then respond (health_route req.method readyz env.http.method_not_allowed)
      else api_service req
