-- ===== src/Api/Http.antt =====
-- The parts of the http and axum crates that the handlers see: requests, responses, header maps. What
-- these crates do with single values is a parameter.
use mathlib.Core.Option
use mert_blob_storage.Base.{ℕ, Bool, Option, none, some, List}
use mert_blob_storage.Base.Lists.{find, upsert, exists}
use mert_blob_storage.Base.Text.{Text, codes, ◌==◌}
use mert_blob_storage.Core.Error.{AzureError}
pub use mert_blob_storage.Storage.Types.{Failure, api_error, panicking}
use mert_blob_storage.Storage.Exec.{Exec, Result, ok, err, map_err}

-- `http::Method`, as far as the router and the middleware tell methods apart
pub data Method : Type 0 where
  get head put delete_method : Method
  other_method : Text → Method

-- `Method::as_str`
unfoldable pub method_str : Method → Text
method_str get = codes "GET"
method_str head = codes "HEAD"
method_str put = codes "PUT"
method_str delete_method = codes "DELETE"
method_str (other_method name) = name

-- a header map, by its entries; the names are in lower case
abbrev pub Headers : Type 0
Headers = List (Text × Text)

abbrev pub value_of : Text × Text → Text
value_of (name, value) = value

abbrev pub is_header : Text → Text × Text → Bool
is_header name (n, value) = n == name

abbrev pub replace_value : Text → Text × Text → Text × Text
replace_value value (n, old) = (n, value)

-- `HeaderMap::get`, the first value, `contains_key` and `insert`
unfoldable pub get_header : Text → Headers → Option Text
get_header name headers = Option.map value_of (find (is_header name) headers)

unfoldable pub contains_key : Text → Headers → Bool
contains_key name headers = exists (is_header name) headers

unfoldable pub insert_header : Text → Text → Headers → Headers
insert_header name value headers =
    upsert (is_header name) (name, value) (replace_value value) headers

-- the body of a request by its chunks, of which any may be an error with its text
abbrev pub Body : Type 0
Body = List (Result Text Text)

pub record Request : Type 0 where
  pub method : Method
  pub path : Text
  pub query : Option Text
  -- the host of an absolute URI
  pub uri_host : Option Text
  pub headers : Headers
  pub body : Body
  -- the extension `SignedPath`
  pub signed_path : Option Text

pub record Response : Type 0 where
  pub status : ℕ
  pub headers : Headers
  pub body : Text

-- what the router finds in a path; axum itself answers where no route fits, or a name is not a text
pub data RouteMatch : Type 0 where
  account_route : Text → RouteMatch
  container_route : Text → Text → RouteMatch
  blob_route : Text → Text → Text → RouteMatch
  no_route : Response → RouteMatch

pub record HttpLibrary : Type 0 where
  -- HeaderValue::to_str, HeaderValue::from_str, and HeaderName::from_bytes with the name in lower case
  pub to_str : Text → Option Text
  pub from_str : Text → Option Text
  pub name_from_bytes : Text → Option Text
  -- urlencoding::decode
  pub url_decode : Text → Option Text
  -- axum::body::to_bytes with a limit
  pub to_bytes : ℕ → Body → Option Text
  -- the match of a path against /:account, /:account/:container and /:account/:container/*blob
  pub route_match : Text → RouteMatch
  -- axum's answer where a route has no handler for the method
  pub method_not_allowed : Response
  -- the parse of a text as PathAndQuery, to its path and query, and whether Uri::from_parts accepts
  -- these with the other parts of a request's URI
  pub path_and_query : Text → Option (Text × Option Text)
  pub from_parts : Request → Text × Option Text → Bool
  -- whether a host is an IP address
  pub is_ip_addr : Text → Bool
  -- the two identifiers that are drawn for a request: by the middleware, and by an error response
  pub request_id : Text
  pub error_id : Text

-- `unwrap` on an error
pub data Panic : Type 0 where
  panicked : Panic

module _ {A : Type 0} where
  -- `?` on a result of the backend
  unfoldable pub or_fail : Exec AzureError A → Exec Failure A
  unfolding map_err
  or_fail m = map_err api_error m

  -- `.unwrap()`
  unfoldable pub unwrap : Option A → Exec Failure A
  unwrap none w = (err panicking, w)
  unwrap (some a) w = (ok a, w)
