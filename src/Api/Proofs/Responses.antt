-- ===== src/Api/Proofs/Responses.antt =====
-- Error responses, and what a list permission allows.
use mert_blob_storage.Base.{◌≡◌, ◌≤◌, refl, Option, some, [], arith}
use mert_blob_storage.Base.Text.{Text, codes, strip_prefix, eq_refl}
use mert_blob_storage.Core.Error.{AzureError, AzureErrorCode, status_code}
use mert_blob_storage.Storage.Exec.{World}
use mert_blob_storage.Auth.Sas.{Query, SasParams, parse_sas_query}
use mert_blob_storage.Api.Auth.{required_permission}
use mert_blob_storage.Api.Http.{Method, Request}
use mert_blob_storage.Api.State.{AppState, Libraries}
use mert_blob_storage.Api.Query.{get_param}
use mert_blob_storage.Api.ErrorResponse.{status_or_500, azure_error_response}
use mert_blob_storage.Api.Middleware.{header_str, authenticate}

status_code_bounds : (c : AzureErrorCode) → (400 ≤ status_code c) × (status_code c ≤ 503)
unfolding status_code
status_code_bounds c = ground arith

-- Every error response has the status of its code, which is one of a client's or of a server's error:
-- the default for a status that is out of range is never used.
pub azure_error_response_status :
    (env : Libraries) (e : AzureError) (id : Text) (w : World)
    → ((azure_error_response env e id w).0.status ≡ status_code e.code)
      × (400 ≤ (azure_error_response env e id w).0.status)
      × ((azure_error_response env e id w).0.status ≤ 599)
unfolding azure_error_response status_or_500
azure_error_response_status env e id w =
    let (low, high) = status_code_bounds e.code in (ground arith, ground arith, ground arith)

-- With comp=list in its query, a request that carries a shared access signature and no other
-- credentials is let in or refused whatever its method is: a signature that grants only l, and lets a
-- GET in, lets in a PUT and a DELETE of the container or of the blob too.
pub list_permission_any_method :
    (env : Libraries) (state : AppState) (req : Request) (account key1 : Text) (key2 : Option Text)
    (container blob : Option Text) (query : Query) (params : SasParams) (m m' : Method) (w : World)
    → header_str env req.headers (codes "authorization") ≡ []
    → parse_sas_query query ≡ some params
    → get_param query (codes "comp") ≡ some (codes "list")
    → authenticate env state (record req { method = m }) account key1 key2 container blob query w
      ≡ authenticate env state (record req { method = m' }) account key1 key2 container blob query w
unfolding authenticate strip_prefix required_permission
list_permission_any_method env state req account key1 key2 container blob query params m m' w h s
      c =
    rw (h, s, c, eq_refl) refl
