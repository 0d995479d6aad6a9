-- ===== src/Api/Proofs/Admission.antt =====
-- Which requests the authentication lets through to the handlers.
use mert_blob_storage.Base.{
  ◌≡◌, ◌⊎◌, inl, inr, refl, Bool, Option, none, some, [], arith, Option-cases, Bool-cases,
}
use mathlib.Core.Option
use mert_blob_storage.Base.Text.{Text, ◌==◌, split_once}
use mert_blob_storage.Core.Error.{AzureError}
use mert_blob_storage.Storage.Exec.{World, Exec, Result, ok, err, ◌>>=◌, map_err}
use mert_blob_storage.Auth.Types.{AuthError, AuthContext, Permission}
use mert_blob_storage.Auth.Externals.{Crypto}
use mert_blob_storage.Auth.Bearer.{Claims}
use mert_blob_storage.Auth.Sas.{Query, SasParams}
use mert_blob_storage.Storage.Backend.{StorageBackend}
use mert_blob_storage.Auth.Proofs.Bearer.{Result-cases}
use mert_blob_storage.Api.Auth.{split_path, verify_sas, verify_anonymous, anonymous_allowed}
use mert_blob_storage.Api.Http.{Method, Request, Response, Panic}
use mert_blob_storage.Api.State.{AppState, Libraries}
use mert_blob_storage.Api.Query.{parse_query}
use mert_blob_storage.Api.Middleware
use mert_blob_storage.Api.Middleware.{found_keys, auth_middleware, authenticate}

-- a check that succeeds, succeeds for this account
abbrev pub GrantsOnly : Text → Exec AzureError AuthContext → Type 0
GrantsOnly account m = (w : World) (ctx : AuthContext) → (m w).0 ≡ ok ctx → ctx.account ≡ account

verify_sas-account :
    (x : Crypto) (account key1 : Text) (key2 : Option Text) (params : SasParams)
    (container blob : Option Text) (is_blob_scope : Bool) (permission : Permission)
    (ctx : AuthContext)
    → verify_sas x account key1 key2 params container blob is_blob_scope permission ≡ ok ctx
    → ctx.account ≡ account
unfolding verify_sas
verify_sas-account x account key1 key2 params none blob is_blob_scope permission ctx h =
    ground arith
verify_sas-account x account key1 key2 params (some c) blob is_blob_scope permission ctx h =
    ground arith

verify_anonymous-account :
    (s : StorageBackend) (account : Text) (container : Option Text) (is_blob_scope : Bool)
    (method : Method)
    → GrantsOnly account (verify_anonymous s account container is_blob_scope method)
unfolding verify_anonymous anonymous_allowed map_err ◌>>=◌
verify_anonymous-account s account none is_blob_scope method w ctx h = ground arith
verify_anonymous-account s account (some c) is_blob_scope method w ctx h = ground arith

module _ (env : Libraries) (state : AppState) (req : Request) (account key1 : Text)
    (key2 : Option Text) (container blob : Option Text) (query : Query) where
  shared_key_context-account :
      (r : Result AuthError (Unit {0})) (ctx : AuthContext)
      → Middleware.shared_key_context env account key1 key2 req query r ≡ ok ctx
      → ctx.account ≡ account
  shared_key_context-account (ok u) ctx h = ground arith
  shared_key_context-account (err e) ctx h = ground arith

  verify_shared_key-account :
      (rest : Text) (ctx : AuthContext)
      → Middleware.verify_shared_key env account key1 key2 req query rest ≡ ok ctx
      → ctx.account ≡ account
  unfolding Middleware.verify_shared_key
  verify_shared_key-account rest ctx h = elim (Option-cases (split_once b':' rest)) [
    | inl e ↦ ground arith
    | inr ((hdr_account, signature), e) ↦ elim (Bool-cases (hdr_account == account)) [
      | inr q ↦ ground arith
      | inl q ↦ shared_key_context-account _ ctx (rw (e, q) at h)
    ]
  ]

  validate_with-account :
      (o : Option (Text → Exec AuthError Claims)) (token : Text)
      → GrantsOnly account (Middleware.validate_with env state account o token)
  unfolding ◌>>=◌ map_err
  validate_with-account none token w ctx h = ground arith
  validate_with-account (some validate) token w ctx h = elim (Result-cases (validate token w).0) [
    | inl (claims, e) ↦ ground arith
    | inr (a, e) ↦ ground arith
  ]

  by_query-account :
      (o : Option SasParams)
      → GrantsOnly account
          (Middleware.by_query env state req account key1 key2 container blob query o)
  unfolding ◌>>=◌
  by_query-account (some params) w ctx h =
      verify_sas-account env.crypto account key1 key2 params container blob _ _ ctx h
  by_query-account none w ctx h =
      verify_anonymous-account state.backend account container _ req.method w ctx h

  by_token-account :
      (o : Option Text)
      → GrantsOnly account
          (Middleware.by_token env state req account key1 key2 container blob query o)
  unfolding Middleware.verify_bearer
  by_token-account (some token) w ctx h = validate_with-account state.oidc token w ctx h
  by_token-account none w ctx h = by_query-account _ w ctx h

  by_header-account :
      (header : Text) (o : Option Text)
      → GrantsOnly account
          (Middleware.by_header env state req account key1 key2 container blob query header o)
  unfolding ◌>>=◌
  by_header-account header (some rest) w ctx h = verify_shared_key-account rest ctx h
  by_header-account header none w ctx h = by_token-account _ w ctx h

  pub authenticate-account :
      GrantsOnly account (authenticate env state req account key1 key2 container blob query)
  unfolding authenticate
  authenticate-account w ctx h = by_header-account _ _ w ctx h

-- That a request passes the authentication: the account that its path names exists, and one of the
-- schemes grants access to it.
pub record Admitted (env : Libraries) (state : AppState) (req : Request) (w : World) : Type 0 where
  pub account : Text
  pub container : Option Text
  pub blob : Option Text
  pub key1 : Text
  pub key2 : Option Text
  pub context : AuthContext
  -- the world when the scheme is tried
  pub known : World
  pub path_names : split_path req.path ≡ (some account, container, blob)
  pub keys_found : found_keys (state.backend.account_keys account) w ≡ (some (key1, key2), known)
  pub grants :
      (authenticate env state req account key1 key2 container blob
        (parse_query env.http (Option.get_or req.query []))
        known).0
      ≡ ok context
  pub for_account : context.account ≡ account

module _ (env : Libraries) (state : AppState)
    (next next' : Request → AuthContext → Exec Panic Response) (req : Request) (w : World) where
  abbrev Outcome : Exec Panic Response → Exec Panic Response → World → Type 0
  Outcome m n u = (m u ≡ n u) ⊎ Admitted env state req w

  by_keys :
      (account : Text) (container blob : Option Text) (keys : Option (Text × Option Text))
      (known : World)
      → split_path req.path ≡ (some account, container, blob)
      → found_keys (state.backend.account_keys account) w ≡ (keys, known)
      → Outcome
          (Middleware.with_keys env state next req account container blob keys)
          (Middleware.with_keys env state next' req account container blob keys)
          known
  by_keys account container blob none known p q = inl refl
  by_keys account container blob (some (key1, key2)) known p q =
      let query = parse_query env.http (Option.get_or req.query []) in
      let run = authenticate env state req account key1 key2 container blob query known in
      elim (Result-cases run.0) [
        | inr (e, r) ↦ inl (rw r refl)
        | inl (context, r) ↦ inr (record {
          account = account;
          container = container;
          blob = blob;
          key1 = key1;
          key2 = key2;
          context = context;
          known = known;
          path_names = p;
          keys_found = q;
          grants = r;
          for_account =
              authenticate-account env state req account key1 key2 container blob query known
                context r;
        })
      ]

  by_account :
      (account container blob : Option Text)
      → split_path req.path ≡ (account, container, blob)
      → Outcome
          (Middleware.for_account env state next req account container blob)
          (Middleware.for_account env state next' req account container blob)
          w
  by_account none container blob p = inl refl
  by_account (some account) container blob p =
      let found = found_keys (state.backend.account_keys account) w in
      by_keys account container blob found.0 found.1 p refl

  -- What the handlers are has no effect on the response to a request, nor on what it leaves in the
  -- world, unless the account that the path names exists, and the Shared Key, the bearer token, the
  -- shared access signature or the anonymous access grants a context for just this account: a request
  -- that fails authentication never reaches a handler.
  pub auth_middleware_gate :
      (auth_middleware env state next req w ≡ auth_middleware env state next' req w)
      ⊎ Admitted env state req w
  unfolding auth_middleware
  auth_middleware_gate =
      let (account, container, blob) = split_path req.path in by_account account container blob refl
