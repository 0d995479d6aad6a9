-- ===== src/Api/Proofs/Serving.antt =====
-- The server as a whole: what a request that passes the layers and the routes does to the database.
use mert_blob_storage.Base.{
  ◌≡◌, ◌⊎◌, inl, inr, refl, true, Option, none, some, List, [], ◌∷◌, arith, Bool-cases,
  Option-cases,
}
use mert_blob_storage.Base.Text.{Text, codes, ◌==◌}
use mert_blob_storage.Storage.Db.{Db}
use mert_blob_storage.Storage.Exec.{World, Exec}
use mert_blob_storage.Storage.Backend.{fs_backend}
use mert_blob_storage.Storage.Proofs.Keeps.{Keeps}
use mert_blob_storage.Storage.Proofs.Placed.{IsPlaced}
use mert_blob_storage.Auth.Types.{AuthError}
use mert_blob_storage.Auth.Bearer.{Claims}
use mert_blob_storage.Api.Auth.{is_read}
use mert_blob_storage.Api.Http.{
  HttpLibrary, Method, get, head, put, delete_method, other_method, Request, Response, RouteMatch,
  account_route, container_route, blob_route, no_route,
}
use mert_blob_storage.Api.State.{AppState, Libraries}
use mert_blob_storage.Api.Middleware.{auth_middleware}
use mert_blob_storage.Api.AccountResolve.{rewritten, with_target, new_path_and_query}
use mert_blob_storage.Api.Router.{
  respond, serve_account, serve_container, serve_blob, serve_match, api_routes, api_service,
  build_router,
}
use mert_blob_storage.Api.Proofs.Contract.{
  ReadsKeep, WritesKeep, fs_backend-ReadsKeep, fs_backend-WritesKeep,
}
use mert_blob_storage.Api.Proofs.Handlers.{
  Keeps-into_response, Keeps-list_containers, Keeps-container_get, Keeps-blob_get,
  Keeps-container_put, Keeps-container_delete, Keeps-blob_put, Keeps-blob_delete,
}
use mert_blob_storage.Api.Proofs.Layers.{
  ValidationKeeps, Keeps-auth_middleware, Keeps-account_resolve_middleware,
}

pub Keeps-respond : {P : Db → Type 0} (resp : Response) → Keeps P (respond resp)
Keeps-respond resp = record { at = λ w h. h }

module _ {P : Db → Type 0} (env : Libraries) (state : AppState)
    (k : ReadsKeep P state.backend) where
  serve_account-Keeps :
      (a : Text) (req : Request) (m : Method) → Keeps P (serve_account env state a req m)
  unfolding serve_account
  serve_account-Keeps a req get =
      Keeps-into_response env _ (Keeps-list_containers env state k a req)
  serve_account-Keeps a req head =
      Keeps-into_response env _ (Keeps-list_containers env state k a req)
  serve_account-Keeps a req put = Keeps-respond _
  serve_account-Keeps a req delete_method = Keeps-respond _
  serve_account-Keeps a req (other_method name) = Keeps-respond _

  serve_container-Keeps :
      (a c : Text) (req : Request) (m : Method)
      → WritesKeep P state.backend ⊎ (is_read m ≡ true)
      → Keeps P (serve_container env state a c req m)
  unfolding serve_container
  serve_container-Keeps a c req get h =
      Keeps-into_response env _ (Keeps-container_get env state k a c req)
  serve_container-Keeps a c req head h =
      Keeps-into_response env _ (Keeps-container_get env state k a c req)
  serve_container-Keeps a c req put (inl u) =
      Keeps-into_response env _ (Keeps-container_put env state u a c req)
  serve_container-Keeps a c req put (inr e) = absurd (ground arith)
  serve_container-Keeps a c req delete_method (inl u) =
      Keeps-into_response env _ (Keeps-container_delete env state u a c req)
  serve_container-Keeps a c req delete_method (inr e) = absurd (ground arith)
  serve_container-Keeps a c req (other_method name) h = Keeps-respond _

  serve_blob-Keeps :
      (a c b : Text) (req : Request) (m : Method)
      → WritesKeep P state.backend ⊎ (is_read m ≡ true)
      → Keeps P (serve_blob env state a c b req m)
  unfolding serve_blob
  serve_blob-Keeps a c b req get h =
      Keeps-into_response env _ (Keeps-blob_get env state k a c b req)
  serve_blob-Keeps a c b req head h =
      Keeps-into_response env _ (Keeps-blob_get env state k a c b req)
  serve_blob-Keeps a c b req put (inl u) =
      Keeps-into_response env _ (Keeps-blob_put env state u a c b req)
  serve_blob-Keeps a c b req put (inr e) = absurd (ground arith)
  serve_blob-Keeps a c b req delete_method (inl u) =
      Keeps-into_response env _ (Keeps-blob_delete env state u a c b req)
  serve_blob-Keeps a c b req delete_method (inr e) = absurd (ground arith)
  serve_blob-Keeps a c b req (other_method name) h = Keeps-respond _

  serve_match-Keeps :
      (route : RouteMatch) (req : Request)
      → WritesKeep P state.backend ⊎ (is_read req.method ≡ true)
      → Keeps P (serve_match env state route req)
  unfolding serve_match
  serve_match-Keeps (account_route a) req h = serve_account-Keeps a req req.method
  serve_match-Keeps (container_route a c) req h = serve_container-Keeps a c req req.method h
  serve_match-Keeps (blob_route a c b) req h = serve_blob-Keeps a c b req req.method h
  serve_match-Keeps (no_route resp) req h = Keeps-respond resp

pub rewritten-method :
    (l : HttpLibrary) (target : Option Text) (req : Request)
    → ((rewritten l target req).method ≡ req.method)
      × ((rewritten l target req).headers ≡ req.headers)
unfolding rewritten with_target
rewritten-method l none req = (refl, refl)
rewritten-method l (some account) req =
    elim (Option-cases (l.path_and_query (new_path_and_query account req))) [
      | inl e ↦ rw e (refl, refl)
      | inr ((path, query), e) ↦ elim (Bool-cases (l.from_parts req (path, query))) [
        | inl f ↦ rw (e, f) (refl, refl)
        | inr f ↦ rw (e, f) (refl, refl)
      ]
    ]

module _ {P : Db → Type 0} (env : Libraries) (state : AppState)
    (k : ReadsKeep P state.backend) where
  -- the health routes answer themselves
  Keeps-routed :
      (req : Request)
      → ((target : Option Text)
          → Keeps P
              (auth_middleware env state (api_routes env state) (rewritten env.http target req)))
      → Keeps P (build_router env state req)
  unfolding build_router api_service
  Keeps-routed req kt =
      let api =
        Keeps-account_resolve_middleware env state k
          (λ r. auth_middleware env state (api_routes env state) r) req kt in
      elim (Bool-cases (req.path == codes "/healthz")) [
        | inl e ↦ rw e (Keeps-respond _)
        | inr e ↦ elim (Bool-cases (req.path == codes "/readyz")) [
          | inl f ↦ rw (e, f) (Keeps-respond _)
          | inr f ↦ rw (e, f) api
        ]
      ]

  pub Keeps-build_router :
      (v : ValidationKeeps P state.oidc) (req : Request)
      → WritesKeep P state.backend ⊎ (is_read req.method ≡ true)
      → Keeps P (build_router env state req)
  unfolding api_routes
  Keeps-build_router v req h = Keeps-routed req (λ target.
      let next = rewritten env.http target req in
      Keeps-auth_middleware env state k (api_routes env state) next v (λ ctx.
        serve_match-Keeps env state k _ next (rw ((rewritten-method env.http target req).0) h)))

-- the requests that a server serves, one after another
unfoldable pub serve_all : Libraries → AppState → List Request → World → World
serve_all env state [] w = w
serve_all env state (req ∷ reqs) w = serve_all env state reqs (build_router env state req w).1

module _ (env : Libraries) (root version endpoint : Text) (default_account : Option Text)
    (validate : Option (Text → Exec AuthError Claims)) where
  -- a server over the file-system backend
  abbrev pub fs_state : AppState
  fs_state = record {
    backend = fs_backend env.externals root;
    oidc = validate;
    service_version = version;
    service_endpoint = endpoint;
    default_account = default_account;
  }

  -- Whatever requests reach a server over the file-system backend one after another, and whatever
  -- calls of SQLite and of the file system fail, every staged and every committed block stays in a
  -- container that exists, if it was, though no key of the tables demands it. The validation of bearer
  -- tokens, if there is one, must not break this itself.
  pub serve_all-IsPlaced :
      (reqs : List Request) (w : World)
      → ValidationKeeps IsPlaced validate
      → IsPlaced w.db
      → IsPlaced (serve_all env fs_state reqs w).db
  unfolding serve_all
  serve_all-IsPlaced [] w v h = h
  serve_all-IsPlaced (req ∷ reqs) w v h =
      let k = fs_backend-ReadsKeep IsPlaced env.externals root in
      let writes = fs_backend-WritesKeep env.externals root in
      serve_all-IsPlaced reqs (build_router env fs_state req w).1 v
        ((Keeps-build_router env fs_state k v req (inl writes)).at w h)

  -- A GET or HEAD request, whatever its path, query, headers and credentials, and whatever calls of
  -- SQLite and of the file system fail, leaves the database as it was, where the validation of bearer
  -- tokens does.
  pub build_router_reads :
      (req : Request) (w : World)
      → is_read req.method ≡ true
      → ValidationKeeps (λ db. db ≡ w.db) validate
      → (build_router env fs_state req w).1.db ≡ w.db
  build_router_reads req w m v =
      let k = fs_backend-ReadsKeep (λ db. db ≡ w.db) env.externals root in
      (Keeps-build_router env fs_state k v req (inr m)).at w refl
