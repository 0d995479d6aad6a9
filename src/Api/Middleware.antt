-- ===== src/Api/Middleware.antt =====
-- crates/blobstore-api/src/auth.rs: the choice among the schemes, Shared Key, bearer tokens, and the
-- middleware itself.
use mathlib.Core.Option
use mert_blob_storage.Base.{
  ◌+◌, Bool, true, false, not, Option, none, some, List, [], ◌∷◌, if◌then◌else◌,
}
use mert_blob_storage.Base.Text.{Text, codes, ◌==◌, strip_prefix, split_once}
use mert_blob_storage.Core.Time
use mert_blob_storage.Core.Error.{
  AzureError, azure_error, with_message, authentication_failed, invalid_authentication_info,
  request_url_failed_to_parse,
}
use mert_blob_storage.Storage.Exec.{World, Exec, Result, ok, err, ◌>>=◌, pure, lift, raise, map_err}
use mert_blob_storage.Auth.Types.{AuthError, AuthContext, shared_key, bearer}
use mert_blob_storage.Auth.Bearer.{Claims}
use mert_blob_storage.Auth.SharedKey.{SharedKeyRequest, verify}
use mert_blob_storage.Auth.Sas.{Query, SasParams, parse_sas_query}
use mert_blob_storage.Api.Http.{
  Headers, method_str, Request, Response, Panic, get_header, contains_key, insert_header,
}
use mert_blob_storage.Api.State.{AppState, Libraries}
use mert_blob_storage.Api.Query.{parse_query, get_param}
use mert_blob_storage.Api.ErrorResponse.{azure_error_response, answer}
use mert_blob_storage.Api.Auth.{
  split_path, required_permission, verify_sas, verify_anonymous, map_auth_error,
}

-- `is_some`
abbrev pub is_some : Option Text → Bool
is_some none = false
is_some (some s) = true

-- `.or_else(…)`
abbrev pub or_else : Option Text → Option Text → Option Text
or_else none other = other
or_else (some s) other = some s

abbrev pub or_none : Result AzureError (Option (Text × Option Text)) → Option (Text × Option Text)
or_none (ok keys) = keys
or_none (err e) = none

-- a failed lookup of the keys finds none
abbrev pub found_keys :
    Exec AzureError (Option (Text × Option Text)) → World → Option (Text × Option Text) × World
found_keys m w = let (r, w') = m w in (or_none r, w')

module _ (env : Libraries) where
  abbrev pub str_or_empty : Option Text → Text
  str_or_empty none = []
  str_or_empty (some value) = Option.get_or (env.http.to_str value) []

  unfoldable pub header_str : Headers → Text → Text
  unfolding get_header
  header_str headers name = str_or_empty (get_header name headers)

  -- the `filter` and `map` that make `x_ms_headers`
  unfoldable pub ms_headers : Headers → List (Text × Text)
  ms_headers [] = []
  ms_headers ((k, v) ∷ headers) =
      let rest = ms_headers headers in
      if is_some (strip_prefix (codes "x-ms-") (env.unicode.to_lowercase k))
      then (k, Option.get_or (env.http.to_str v) []) ∷ rest
      else rest

  -- the struct literal `sk_req`
  unfoldable pub shared_key_request : Request → Query → SharedKeyRequest
  unfolding header_str ms_headers
  shared_key_request req query_params = record {
    verb = method_str req.method;
    content_encoding = header_str req.headers (codes "content-encoding");
    content_language = header_str req.headers (codes "content-language");
    content_length = header_str req.headers (codes "content-length");
    content_md5 = header_str req.headers (codes "content-md5");
    content_type = header_str req.headers (codes "content-type");
    date =
        if contains_key (codes "x-ms-date") req.headers
        then []
        else header_str req.headers (codes "date");
    if_modified_since = header_str req.headers (codes "if-modified-since");
    if_match = header_str req.headers (codes "if-match");
    if_none_match = header_str req.headers (codes "if-none-match");
    if_unmodified_since = header_str req.headers (codes "if-unmodified-since");
    range = header_str req.headers (codes "range");
    x_ms_headers = ms_headers req.headers;
    canonical_path = Option.get_or req.signed_path req.path;
    query_params = query_params;
  }

  module _ (account key1 : Text) (key2 : Option Text) (req : Request) (query_params : Query) where
    abbrev pub shared_key_context : Result AuthError (Unit {0}) → Result AzureError AuthContext
    shared_key_context (ok _) = ok (record { account = account; method = shared_key })
    shared_key_context (err e) = err (map_auth_error e)

    abbrev pub check_shared_key : Option (Text × Text) → Result AzureError AuthContext
    check_shared_key none = err (azure_error invalid_authentication_info)
    check_shared_key (some (hdr_account, signature)) =
        if not (hdr_account == account)
        then err (azure_error authentication_failed)
        else shared_key_context (
            verify env.crypto env.unicode account (shared_key_request req query_params) signature
              key1 key2)

    unfoldable pub verify_shared_key : Text → Result AzureError AuthContext
    unfolding shared_key_request
    verify_shared_key header_rest = check_shared_key (split_once b':' header_rest)

  module _ (state : AppState) (account : Text) where
    abbrev pub bearer_context : Claims → AuthContext
    bearer_context claims = record { account = account; method = bearer claims.sub }

    abbrev pub validate_with :
        Option (Text → Exec AuthError Claims) → Text → Exec AzureError AuthContext
    validate_with none token = raise (
        with_message authentication_failed
          (codes "Bearer authentication is not configured on this server."))
    validate_with (some validate_token) token = do
      claims ← map_err map_auth_error (validate_token token)
      pure (bearer_context claims)

    unfoldable pub verify_bearer : Text → Exec AzureError AuthContext
    verify_bearer token = validate_with state.oidc token

  module _ (state : AppState) (req : Request) (account key1 : Text) (key2 : Option Text)
      (container blob : Option Text) (query_params : Query) where
    -- the last two arms: a signature in the query, or nothing
    abbrev pub by_query : Option SasParams → Exec AzureError AuthContext
    by_query (some params) = lift (
        verify_sas env.crypto account key1 key2 params container blob (is_some blob)
          (required_permission req.method (get_param query_params (codes "comp"))))
    by_query none = verify_anonymous state.backend account container (is_some blob) req.method

    abbrev pub by_token : Option Text → Exec AzureError AuthContext
    by_token (some token) = verify_bearer state account token
    by_token none = by_query (parse_sas_query query_params)

    abbrev pub by_header : Text → Option Text → Exec AzureError AuthContext
    by_header auth_header (some rest) =
        lift (verify_shared_key account key1 key2 req query_params rest)
    by_header auth_header none = by_token (strip_prefix (codes "Bearer ") auth_header)

    -- the chain of `if let` that makes `ctx_result`
    unfoldable pub authenticate : Exec AzureError AuthContext
    unfolding verify_shared_key verify_bearer header_str
    authenticate =
        let auth_header = header_str req.headers (codes "authorization") in
        by_header auth_header (
          or_else (strip_prefix (codes "SharedKey ") auth_header)
            (strip_prefix (codes "SharedKeyLite ") auth_header))

  -- `if !h.contains_key(name) { if let Ok(v) = HeaderValue::from_str(value) { … } }`
  unfoldable pub default_header : Text → Text → Headers → Headers
  default_header name value headers =
      if contains_key name headers
      then headers
      else elim (env.http.from_str value) [ none ↦ headers | some v ↦ insert_header name v headers ]

  -- the clock is read where the response has no date
  unfoldable pub finalize_response : Text → Text → Response → World → Response × World
  unfolding default_header
  finalize_response request_id version resp w =
      let dated =
        default_header (codes "date")
          (Time.format_http_date (env.externals.calendar (env.externals.clock w.ticks)))
          resp.headers in
      (
        record resp {
          headers =
              default_header (codes "x-ms-request-id") request_id
                (default_header (codes "x-ms-version") version dated);
        },
        record w {
          ticks = if contains_key (codes "date") resp.headers then w.ticks else w.ticks + 1;
        },
      )

  module _ (state : AppState) (next : Request → AuthContext → Exec Panic Response)
      (req : Request) where
    -- the `match ctx_result`
    abbrev pub continue_with : Result AzureError AuthContext → Exec Panic Response
    continue_with (ok ctx) w = next req ctx w
    continue_with (err e) w = answer env (azure_error_response env e env.http.request_id w)

    abbrev pub finalized : Result Panic Response × World → Result Panic Response × World
    finalized (err p, w) = (err p, w)
    finalized (ok resp, w) =
        answer env (finalize_response env.http.request_id state.service_version resp w)

    abbrev pub with_keys :
        Text → Option Text → Option Text → Option (Text × Option Text) → Exec Panic Response
    with_keys account container blob none w =
        answer env
          (azure_error_response env (azure_error authentication_failed) env.http.request_id w)
    with_keys account container blob (some (key1, key2)) w =
        let query_params = parse_query env.http (Option.get_or req.query []) in
        let (result, w') = authenticate state req account key1 key2 container blob query_params w in
        finalized (continue_with result w')

    abbrev pub for_account : Option Text → Option Text → Option Text → Exec Panic Response
    for_account none container blob w =
        answer env
          (azure_error_response env (azure_error request_url_failed_to_parse) env.http.request_id w)
    for_account (some account) container blob w =
        let (keys, w') = found_keys (state.backend.account_keys account) w in
        with_keys account container blob keys w'

    unfoldable pub auth_middleware : Exec Panic Response
    unfolding authenticate finalize_response
    auth_middleware =
        let (account, container, blob) = split_path req.path in for_account account container blob
