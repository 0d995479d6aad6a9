-- ===== src/Api/Proofs/Anonymous.antt =====
-- Requests without credentials, from the socket to the database.
use mert_blob_storage.Base.{◌≡◌, inl, inr, refl, true, false, Option, none, [], arith, Bool-cases}
use mathlib.Core.Option
use mert_blob_storage.Base.Text.{Text, codes, ◌==◌, strip_prefix}
use mert_blob_storage.Storage.Db.{Db}
use mert_blob_storage.Storage.Exec.{World, Exec, ok}
use mert_blob_storage.Storage.Proofs.Keeps.{Keeps}
use mert_blob_storage.Auth.Types.{AuthError, AuthContext}
use mert_blob_storage.Auth.Bearer.{Claims}
use mert_blob_storage.Auth.Sas.{parse_sas_query}
use mert_blob_storage.Api.Auth.{is_read, verify_anonymous}
use mert_blob_storage.Api.Http.{Request, Response, Panic}
use mert_blob_storage.Api.State.{AppState, Libraries}
use mert_blob_storage.Api.Query.{parse_query}
use mert_blob_storage.Api.Middleware.{is_some, header_str, auth_middleware, authenticate}
use mert_blob_storage.Api.AccountResolve.{resolved_request, account_resolve_middleware}
use mert_blob_storage.Api.Router.{respond, api_routes, api_service, build_router}
use mert_blob_storage.Api.Proofs.Access.{verify_anonymous_reads}
use mert_blob_storage.Api.Proofs.Contract.{ReadsKeep, fs_backend-ReadsKeep}
use mert_blob_storage.Api.Proofs.Admission.{Admitted, auth_middleware_gate}
use mert_blob_storage.Api.Proofs.Layers.{
  resolved_request-keeps, ValidationKeeps, Keeps-auth_middleware,
}
use mert_blob_storage.Api.Proofs.Serving.{
  fs_state, build_router_reads, Keeps-respond, rewritten-method,
}

-- No scheme in the Authorization header, and no signature in the query.
pub record IsAnonymous (env : Libraries) (req : Request) : Type 0 where
  pub no_shared_key :
      strip_prefix (codes "SharedKey ") (header_str env req.headers (codes "authorization")) ≡ none
  pub no_shared_key_lite :
      strip_prefix (codes "SharedKeyLite ") (header_str env req.headers (codes "authorization"))
      ≡ none
  pub no_token :
      strip_prefix (codes "Bearer ") (header_str env req.headers (codes "authorization")) ≡ none
  pub no_signature : parse_sas_query (parse_query env.http (Option.get_or req.query [])) ≡ none

IsAnonymous-transport :
    (env : Libraries) (req seen : Request)
    → seen.headers ≡ req.headers
    → seen.query ≡ req.query
    → IsAnonymous env req
    → IsAnonymous env seen
IsAnonymous-transport env req seen h q a = record {
  no_shared_key = rw h a.no_shared_key;
  no_shared_key_lite = rw h a.no_shared_key_lite;
  no_token = rw h a.no_token;
  no_signature = rw q a.no_signature;
}

resolved_request-kept :
    (env : Libraries) (state : AppState) (req : Request) (w : World)
    → ((resolved_request env state req w).0.method ≡ req.method)
      × ((resolved_request env state req w).0.headers ≡ req.headers)
unfolding resolved_request
resolved_request-kept env state req w = rewritten-method env.http _ req

module _ (env : Libraries) (state : AppState) (req : Request) where
  authenticate_anonymous :
      (account key1 : Text) (key2 : Option Text) (container blob : Option Text)
      → IsAnonymous env req
      → authenticate env state req account key1 key2 container blob
          (parse_query env.http (Option.get_or req.query []))
        ≡ verify_anonymous state.backend account container (is_some blob) req.method
  unfolding authenticate
  authenticate_anonymous account key1 key2 container blob h =
      rw (h.no_shared_key, h.no_shared_key_lite, h.no_token, h.no_signature) refl

  Admitted-is_read :
      (w : World) → IsAnonymous env req → Admitted env state req w → is_read req.method ≡ true
  Admitted-is_read w h a =
      let e = authenticate_anonymous a.account a.key1 a.key2 a.container a.blob h in
      let granted : (verify_anonymous state.backend a.account a.container (is_some a.blob)
            req.method a.known).0
          ≡ ok a.context =
        rw e at a.grants in
      let (_, m, _) =
        verify_anonymous_reads state.backend a.account a.container (is_some a.blob) req.method
          a.known a.context granted in
      elim m [ inl p ↦ rw p refl | inr p ↦ rw p refl ]

module _ {P : Db → Type 0} (env : Libraries) (state : AppState)
    (k : ReadsKeep P state.backend) where
  -- a request that is not admitted meets a handler that does nothing
  turned_away-Keeps :
      (v : ValidationKeeps P state.oidc) (next : Request → AuthContext → Exec Panic Response)
      (req : Request)
      → ((w : World) → ¬ Admitted env state req w)
      → Keeps P (auth_middleware env state next req)
  turned_away-Keeps v next req refused = record {
    at = λ w h.
        let idle : Request → AuthContext → Exec Panic Response =
          λ r ctx. respond env.http.method_not_allowed in
        let idle_keeps = Keeps-auth_middleware env state k idle req v (λ ctx. Keeps-respond _) in
        elim (auth_middleware_gate env state next idle req w) [
          | inl e ↦ rw e (idle_keeps.at w h)
          | inr a ↦ absurd (refused w a)
        ];
  }

  -- behind the account resolution, a change by a request without credentials is not admitted
  resolved-keeps :
      (v : ValidationKeeps P state.oidc) (req : Request) (w : World)
      → IsAnonymous env req
      → (resolved_request env state req w).0.query ≡ req.query
      → is_read req.method ≡ false
      → P w.db
      → P (build_router env state req w).1.db
  unfolding build_router api_service account_resolve_middleware
  resolved-keeps v req w h q e p =
      let (seen, w') = resolved_request env state req w in
      let (method, headers) = resolved_request-kept env state req w in
      let unsigned = IsAnonymous-transport env req seen headers q h in
      let shut =
        turned_away-Keeps v (api_routes env state) seen
          (λ u a. let reads = Admitted-is_read env state seen u unsigned a in ground arith) in
      let behind = shut.at w' (resolved_request-keeps env state k req w p) in
      elim (Bool-cases (req.path == codes "/healthz")) [
        | inl f ↦ rw f p
        | inr f ↦ elim (Bool-cases (req.path == codes "/readyz")) [
          | inl g ↦ rw (f, g) p
          | inr g ↦ rw (f, g) behind
        ]
      ]

module _ (env : Libraries) (root version endpoint : Text) (default_account : Option Text)
    (validate : Option (Text → Exec AuthError Claims)) where
  -- A request without credentials, whatever its method, path and body, and whatever calls of SQLite
  -- and of the file system fail, leaves the database of a server over the file-system backend as it
  -- was, where the validation of bearer tokens does: public access never allows a change. Without
  -- credentials means that the Authorization header names none of the schemes and the query carries no
  -- signature, and that the account resolution, where it rewrites the request, keeps its query, as it
  -- does for an account without question marks and number signs.
  pub build_router_anonymous :
      (req : Request) (w : World)
      → IsAnonymous env req
      → (resolved_request env
          (fs_state env root version endpoint default_account validate)
          req
          w).0.query
        ≡ req.query
      → ValidationKeeps (λ db. db ≡ w.db) validate
      → (build_router env (fs_state env root version endpoint default_account validate) req w).1.db
        ≡ w.db
  build_router_anonymous req w h q v =
      let state = fs_state env root version endpoint default_account validate in
      let k = fs_backend-ReadsKeep (λ db. db ≡ w.db) env.externals root in
      elim (Bool-cases (is_read req.method)) [
        | inl e ↦ build_router_reads env root version endpoint default_account validate req w e v
        | inr e ↦ resolved-keeps env state k v req w h q e refl
      ]
