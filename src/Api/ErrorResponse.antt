-- ===== src/Api/ErrorResponse.antt =====
-- crates/blobstore-api/src/error_response.rs: errors as responses.
use mathlib.Core.Option
use mert_blob_storage.Base.{ℕ, ◌&&◌, [], ◌∷◌, ltb, leb, if◌then◌else◌}
use mert_blob_storage.Base.Text.{Text, codes}
use mert_blob_storage.Core.Error.{AzureError, status_code, code_str}
use mert_blob_storage.Storage.Exec.{World, Exec, Result, ok, err}
use mert_blob_storage.Xml.ErrorXml.{render_error}
use mert_blob_storage.Api.Http.{
  Response, Panic, panicked, Failure, api_error, panicking, insert_header,
}
use mert_blob_storage.Api.State.{Libraries}

-- StatusCode::from_u16, with its default
unfoldable pub status_or_500 : ℕ → ℕ
status_or_500 s = if leb 100 s && ltb s 1000 then s else 500

module _ (env : Libraries) where
  unfoldable pub azure_error_response : AzureError → Text → World → Response × World
  azure_error_response error request_id w =
      let (body, w') = render_error env.externals error request_id w in
      (
        record {
          status = status_or_500 (status_code error.code);
          headers = insert_header (codes "content-type") (codes "application/xml") (
              insert_header (codes "x-ms-request-id")
                (Option.get_or (env.http.from_str request_id) (codes "-"))
                (insert_header (codes "x-ms-error-code")
                  (Option.get_or (env.http.from_str (code_str error.code)) (codes "InternalError"))
                  ((codes "content-type", codes "text/plain; charset=utf-8") ∷ [])));
          body = body;
        },
        w',
      )

  abbrev pub answer : Response × World → Result Panic Response × World
  answer (resp, w) = (ok resp, w)

  -- `impl IntoResponse for ApiError`: what axum makes of a handler's result
  abbrev pub response_of : Result Failure Response → Exec Panic Response
  response_of (ok resp) w = (ok resp, w)
  response_of (err panicking) w = (err panicked, w)
  response_of (err (api_error e)) w = answer (azure_error_response e env.http.error_id w)

  unfoldable pub into_response : Exec Failure Response → Exec Panic Response
  unfolding azure_error_response
  into_response handler w = let (r, w') = handler w in response_of r w'
