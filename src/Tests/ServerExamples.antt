-- ===== src/Tests/ServerExamples.antt =====
-- The theorems about the server as a whole, at inputs that meet their hypotheses.
use mert_blob_storage.Core.Error.{azure_error, status_code, md5_mismatch}
use mert_blob_storage.Auth.Sas.{Query, SasParams}
use mert_blob_storage.Api.ErrorResponse.{azure_error_response}
use mert_blob_storage.Api.Proofs.Responses.{azure_error_response_status, list_permission_any_method}
use mert_blob_storage.Api.Http.{get, delete_method}
use mert_blob_storage.Base.{some, ◌≤◌, ◌≡◌, ◌⊎◌, refl, none, [], ◌∷◌}
use mert_blob_storage.Base.Text.{codes}
use mert_blob_storage.Storage.Proofs.Placed.{IsPlaced}
use mert_blob_storage.Api.Middleware.{auth_middleware, authenticate}
use mert_blob_storage.Api.Router.{respond, build_router}
use mert_blob_storage.Api.State.{AppState}
use mert_blob_storage.Api.Proofs.Admission.{Admitted, auth_middleware_gate}
use mert_blob_storage.Api.Proofs.Serving.{
  fs_state, serve_all, serve_all-IsPlaced, build_router_reads,
}
use mert_blob_storage.Api.Proofs.Anonymous.{IsAnonymous, build_router_anonymous}
use mert_blob_storage.Tests.Sample.{root, start, stocked}
use mert_blob_storage.Storage.Exec.{World}
use mert_blob_storage.Tests.SampleServer.{sample_libraries, not_found, get_request, put_request}
use mert_blob_storage.Tests.Runs.{runs_base, runs_store, runs_backend, runs_api}

abbrev server : AppState
server = fs_state sample_libraries root (codes "2021-08-06") (codes "http://h") none none

-- a block waits in the container
abbrev waiting : World
waiting = record start {
  db = record stocked {
    staged_blocks =
        record {
          account_name = codes "acct";
          container_name = codes "c";
          blob_name = codes "b";
          block_id = codes "id";
          block_size = 2;
          md5 = none;
          storage_path = codes "p";
          staged_at = [];
        }
        ∷ [];
  };
}

waiting-IsPlaced : IsPlaced waiting.db
unfolding runs_base runs_store
waiting-IsPlaced = record { staged = (refl, tt); committed = tt }

serve_all-IsPlaced_example :
    IsPlaced (serve_all sample_libraries server (put_request ∷ get_request ∷ []) waiting).db
serve_all-IsPlaced_example =
    serve_all-IsPlaced sample_libraries root (codes "2021-08-06") (codes "http://h") none none
      (put_request ∷ get_request ∷ []) waiting tt waiting-IsPlaced

build_router_reads_example :
    (build_router sample_libraries server get_request start).1.db ≡ start.db
build_router_reads_example =
    build_router_reads sample_libraries root (codes "2021-08-06") (codes "http://h") none none
      get_request start refl tt

no_credentials : IsAnonymous sample_libraries put_request
unfolding runs_base runs_api
no_credentials = record {
  no_shared_key = refl;
  no_shared_key_lite = refl;
  no_token = refl;
  no_signature = refl;
}

build_router_anonymous_example :
    (build_router sample_libraries server put_request start).1.db ≡ start.db
unfolding runs_base runs_store runs_backend runs_api
build_router_anonymous_example =
    build_router_anonymous sample_libraries root (codes "2021-08-06") (codes "http://h") none none
      put_request start no_credentials refl tt

auth_middleware_gate_example :
    (auth_middleware sample_libraries server (λ req ctx. respond not_found) put_request start
      ≡ auth_middleware sample_libraries server
          (λ req ctx. respond (record not_found { status = 200 }))
          put_request
          start)
    ⊎ Admitted sample_libraries server put_request start
auth_middleware_gate_example =
    auth_middleware_gate sample_libraries server (λ req ctx. respond not_found)
      (λ req ctx. respond (record not_found { status = 200 })) put_request start

azure_error_response_status_example :
    ((azure_error_response sample_libraries (azure_error md5_mismatch) (codes "r") start).0.status
      ≡ status_code md5_mismatch)
    × (400
        ≤ (azure_error_response sample_libraries
            (azure_error md5_mismatch)
            (codes "r")
            start).0.status)
    × ((azure_error_response sample_libraries (azure_error md5_mismatch) (codes "r") start).0.status
        ≤ 599)
unfolding runs_base
azure_error_response_status_example =
    azure_error_response_status sample_libraries (azure_error md5_mismatch) (codes "r") start

abbrev list_grant : SasParams
list_grant = record {
  sp = codes "l";
  st = [];
  se = [];
  sr = codes "c";
  sip = [];
  spr = [];
  sv = [];
  si = [];
  sig = codes "s";
  rscc = [];
  rscd = [];
  rsce = [];
  rscl = [];
  rsct = [];
}

abbrev list_query : Query
list_query =
    (codes "sp", codes "l")
    ∷ (codes "sr", codes "c")
    ∷ (codes "sig", codes "s")
    ∷ (codes "comp", codes "list")
    ∷ []

list_permission_any_method_example :
    authenticate sample_libraries server get_request
      (codes "acct")
      (codes "k1")
      none
      (some (codes "c"))
      (some (codes "b"))
      list_query
      start
    ≡ authenticate sample_libraries server
        (record get_request { method = delete_method })
        (codes "acct")
        (codes "k1")
        none
        (some (codes "c"))
        (some (codes "b"))
        list_query
        start
unfolding runs_base runs_api
list_permission_any_method_example =
    list_permission_any_method sample_libraries server get_request (codes "acct") (codes "k1") none
      (some (codes "c")) (some (codes "b")) list_query list_grant get delete_method start refl refl
      refl
