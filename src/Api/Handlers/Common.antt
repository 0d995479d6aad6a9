-- ===== src/Api/Handlers/Common.antt =====
-- What the handlers of crates/blobstore-api/src/handlers share: their queries, and the responses that
-- they build.
use mathlib.Core.Option
use mert_blob_storage.Base.{ℕ, Bool, false, Option, none, some, [], ◌∷◌}
use mert_blob_storage.Base.Numbers.{parse_unsigned, max_u32}
use mert_blob_storage.Base.Text.{Text, codes, ◌==◌}
use mert_blob_storage.Storage.Exec.{Exec, ◌>>=◌, pure}
use mert_blob_storage.Auth.Sas.{Query}
use mert_blob_storage.Api.Http.{
  Headers, HttpLibrary, Request, Response, Failure, get_header, insert_header, unwrap,
}
use mert_blob_storage.Api.Query.{parse_query, get_param}

abbrev pub ok_status : ℕ
ok_status = 200

abbrev pub created_status : ℕ
created_status = 201

abbrev pub accepted_status : ℕ
accepted_status = 202

abbrev pub partial_content_status : ℕ
partial_content_status = 206

-- a pattern `Some("…")` on `comp`
abbrev pub is_comp : Text → Option Text → Bool
is_comp name none = false
is_comp name (some comp) = comp == name

-- `.and_then(|s| s.parse().ok())`
abbrev pub parse_u32 : Option Text → Option ℕ
parse_u32 none = none
parse_u32 (some s) = parse_unsigned max_u32 s

-- `query::get(&params, "maxresults").and_then(|s| s.parse().ok()).unwrap_or(5000)`
unfoldable pub max_results_of : Query → ℕ
max_results_of params = Option.get_or (parse_u32 (get_param params (codes "maxresults"))) 5000

-- `.and_then(|v| v.to_str().ok())`
abbrev pub to_str_of : HttpLibrary → Option Text → Option Text
to_str_of l none = none
to_str_of l (some value) = l.to_str value

unfoldable pub header_opt : HttpLibrary → Headers → Text → Option Text
header_opt l headers name = to_str_of l (get_header name headers)

-- `parse_query(raw.as_deref().unwrap_or(""))`
unfoldable pub params_of : HttpLibrary → Request → Query
params_of l req = parse_query l (Option.get_or req.query [])

-- the ETag and the Last-Modified header, whose values are unwrapped
unfoldable pub version_headers : HttpLibrary → Text → Text → Exec Failure Headers
version_headers l etag last_modified = do
  e ← unwrap (l.from_str etag)
  m ← unwrap (l.from_str last_modified)
  pure (insert_header (codes "last-modified") m (insert_header (codes "etag") e []))

-- `(status, headers).into_response()`
abbrev pub empty_response : ℕ → Headers → Response
empty_response status headers = record { status = status; headers = headers; body = [] }

-- `([("Content-Type", "application/xml")], body).into_response()`
abbrev pub xml_response : Text → Response
xml_response body = record {
  status = ok_status;
  headers = (codes "content-type", codes "application/xml") ∷ [];
  body = body;
}
