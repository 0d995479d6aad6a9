-- ===== src/Api/Proofs/Layers.antt =====
-- The two layers around the handlers keep what the backend's reading operations and the next layer
-- keep.
use mert_blob_storage.Base.{Bool, Option, none, some}
use mert_blob_storage.Base.Text.{Text}
use mert_blob_storage.Storage.Db.{Db}
use mert_blob_storage.Storage.Exec.{World, Exec, Result, ok, err}
use mert_blob_storage.Storage.Proofs.Keeps.{Keeps, keeps_rules}
use mert_blob_storage.Core.Error.{AzureError}
use mert_blob_storage.Auth.Types.{AuthError, AuthContext}
use mert_blob_storage.Auth.Bearer.{Claims}
use mert_blob_storage.Auth.Sas.{Query, SasParams}
use mert_blob_storage.Xml.ErrorXml.{render_error}
use mert_blob_storage.Api.Auth.{verify_anonymous, split_path}
use mert_blob_storage.Api.Http.{Request, Response, Panic}
use mert_blob_storage.Api.State.{AppState, Libraries}
use mert_blob_storage.Api.ErrorResponse.{azure_error_response}
use mert_blob_storage.Api.Middleware
use mert_blob_storage.Api.Middleware.{found_keys, auth_middleware, authenticate, finalize_response}
use mert_blob_storage.Api.AccountResolve.{
  first_segment, is_known, rewritten, has_keys, resolved_request, account_resolve_middleware,
}
use mert_blob_storage.Api.Proofs.Contract.{ReadsKeep}

-- the validation of a bearer token, if there is one
abbrev pub ValidationKeeps : (Db → Type 0) → Option (Text → Exec AuthError Claims) → Type 0
ValidationKeeps P none = Unit
ValidationKeeps P (some validate) = (token : Text) → Keeps P (validate token)

module _ {P : Db → Type 0} (env : Libraries) (state : AppState)
    (k : ReadsKeep P state.backend) where
  module _ (v : ValidationKeeps P state.oidc) (req : Request) (account key1 : Text)
      (key2 : Option Text) (container blob : Option Text) (query : Query) where
    anonymous-Keeps :
        (is_blob_scope : Bool) (c : Option Text)
        → Keeps P (verify_anonymous state.backend account c is_blob_scope req.method)
    unfolding verify_anonymous
    anonymous-Keeps is_blob_scope none = search keeps_rules
    anonymous-Keeps is_blob_scope (some c) = search (keeps_rules, k.get_container_properties_keep)

    by_query-Keeps :
        (o : Option SasParams)
        → Keeps P (Middleware.by_query env state req account key1 key2 container blob query o)
    by_query-Keeps (some params) = search keeps_rules
    by_query-Keeps none = anonymous-Keeps _ container

    validate_with-Keeps :
        (o : Option (Text → Exec AuthError Claims)) (token : Text)
        → ValidationKeeps P o
        → Keeps P (Middleware.validate_with env state account o token)
    validate_with-Keeps none token u = search keeps_rules
    validate_with-Keeps (some validate) token u = search (keeps_rules, u)

    by_token-Keeps :
        (o : Option Text)
        → Keeps P (Middleware.by_token env state req account key1 key2 container blob query o)
    unfolding Middleware.verify_bearer
    by_token-Keeps (some token) = validate_with-Keeps state.oidc token v
    by_token-Keeps none = by_query-Keeps _

    by_header-Keeps :
        (header : Text) (o : Option Text)
        → Keeps P
            (Middleware.by_header env state req account key1 key2 container blob query header o)
    by_header-Keeps header (some rest) = search keeps_rules
    by_header-Keeps header none = by_token-Keeps _

    pub Keeps-authenticate :
        Keeps P (authenticate env state req account key1 key2 container blob query)
    unfolding authenticate
    Keeps-authenticate = by_header-Keeps _ _

  module _ (next : Request → AuthContext → Exec Panic Response) (req : Request) where
    finalized-keeps :
        (r : Result Panic Response) (w : World)
        → P w.db
        → P (Middleware.finalized env state next req (r, w)).1.db
    unfolding finalize_response
    finalized-keeps (ok resp) w h = h
    finalized-keeps (err p) w h = h

    continue_with-keeps :
        (r : Result AzureError AuthContext) (w : World)
        → ((ctx : AuthContext) → Keeps P (next req ctx))
        → P w.db
        → P (Middleware.continue_with env state next req r w).1.db
    unfolding azure_error_response render_error
    continue_with-keeps (ok ctx) w kn h = (kn ctx).at w h
    continue_with-keeps (err e) w kn h = h

    with_keys-Keeps :
        (v : ValidationKeeps P state.oidc) (account : Text) (container blob : Option Text)
        (keys : Option (Text × Option Text))
        → ((ctx : AuthContext) → Keeps P (next req ctx))
        → Keeps P (Middleware.with_keys env state next req account container blob keys)
    unfolding azure_error_response render_error
    with_keys-Keeps v account container blob none kn = record { at = λ w h. h }
    with_keys-Keeps v account container blob (some (key1, key2)) kn = record {
      at = λ w h.
          let (r, w') = authenticate env state req account key1 key2 container blob _ w in
          let (r2, w2) = Middleware.continue_with env state next req r w' in
          finalized-keeps r2 w2 (
            continue_with-keeps r w' kn
              ((Keeps-authenticate v req account key1 key2 container blob _).at w h));
    }

    for_account-Keeps :
        (v : ValidationKeeps P state.oidc) (account container blob : Option Text)
        → ((ctx : AuthContext) → Keeps P (next req ctx))
        → Keeps P (Middleware.for_account env state next req account container blob)
    unfolding azure_error_response render_error
    for_account-Keeps v none container blob kn = record { at = λ w h. h }
    for_account-Keeps v (some account) container blob kn = record {
      at = λ w h.
          let (keys, w') = found_keys (state.backend.account_keys account) w in
          (with_keys-Keeps v account container blob keys kn).at w'
            ((k.account_keys_keep account).at w h);
    }

    pub Keeps-auth_middleware :
        (v : ValidationKeeps P state.oidc)
        → ((ctx : AuthContext) → Keeps P (next req ctx))
        → Keeps P (auth_middleware env state next req)
    unfolding auth_middleware
    Keeps-auth_middleware v kn =
        let (account, container, blob) = split_path req.path in
        for_account-Keeps v account container blob kn

has_keys-keeps :
    (P : Db → Type 0) (o : Option (Text × Option Text)) (w : World)
    → P w.db
    → P (has_keys (o, w)).1.db
has_keys-keeps P none w h = h
has_keys-keeps P (some keys) w h = h

module _ {P : Db → Type 0} (env : Libraries) (state : AppState)
    (k : ReadsKeep P state.backend) where
  is_known-keeps : (o : Option Text) (w : World) → P w.db → P (is_known state.backend o w).1.db
  unfolding is_known
  is_known-keeps none w h = h
  is_known-keeps (some name) w h =
      let (keys, w') = found_keys (state.backend.account_keys name) w in
      has_keys-keeps P keys w' ((k.account_keys_keep name).at w h)

  pub resolved_request-keeps :
      (req : Request) (w : World) → P w.db → P (resolved_request env state req w).1.db
  unfolding resolved_request
  resolved_request-keeps req w h =
      let first = is_known-keeps (first_segment req.path) w h in
      is_known-keeps _ (is_known state.backend (first_segment req.path) w).1 first

  -- the next layer sees the request as it is or with a new path
  pub Keeps-account_resolve_middleware :
      (next : Request → Exec Panic Response) (req : Request)
      → ((target : Option Text) → Keeps P (next (rewritten env.http target req)))
      → Keeps P (account_resolve_middleware env state next req)
  unfolding account_resolve_middleware resolved_request
  Keeps-account_resolve_middleware next req kn = record {
    at = λ w h. (kn _).at (resolved_request env state req w).1 (resolved_request-keeps req w h);
  }
