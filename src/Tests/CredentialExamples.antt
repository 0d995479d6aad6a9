-- ===== src/Tests/CredentialExamples.antt =====
-- The theorems about Shared Key and about bearer tokens, at inputs that meet their hypotheses.
use mert_blob_storage.Base.{◌≡◌, ◌↔◌, refl, true, none, some, [], ◌∷◌, ◌++◌}
use mert_blob_storage.Base.Text.{Text, codes}
use mert_blob_storage.Storage.Exec.{ok}
use mert_blob_storage.Auth.SharedKey.{SharedKeyRequest, string_to_sign, constant_time_eq, verify}
use mert_blob_storage.Auth.Bearer.{OidcConfig, Claims, Issuer, CacheState}
use mert_blob_storage.Auth.Proofs.Compare.{constant_time_eq_exact}
use mert_blob_storage.Auth.Proofs.SharedKey.{KeySigns, verify_exact}
use mert_blob_storage.Auth.Proofs.Bearer.{Accepted, validate_all, validate_token_sound}
use mert_blob_storage.Tests.Sample.{sample_crypto}
use mert_blob_storage.Base.Text.{split_once}
use mert_blob_storage.Auth.Types.{shared_key}
use mert_blob_storage.Api.Middleware.{verify_shared_key}
use mert_blob_storage.Api.Proofs.SharedKey.{sent_query, signed_text, verify_shared_key_exact}
use mert_blob_storage.Tests.SampleServer.{sample_unicode, sample_libraries, get_request}
use mert_blob_storage.Tests.Runs.{runs_base, runs_api}

constant_time_eq_exact_example :
    (constant_time_eq (codes "ab") (codes "ac") ≡ true) ↔ (codes "ab" ≡ codes "ac")
constant_time_eq_exact_example = constant_time_eq_exact (codes "ab") (codes "ac")

abbrev get_of : SharedKeyRequest
get_of = record {
  verb = codes "GET";
  content_encoding = [];
  content_language = [];
  content_length = codes "0";
  content_md5 = [];
  content_type = [];
  date = [];
  if_modified_since = [];
  if_match = [];
  if_none_match = [];
  if_unmodified_since = [];
  range = [];
  x_ms_headers = (codes "x-ms-date", codes "today") ∷ [];
  canonical_path = codes "/acct/c/b";
  query_params = [];
}

abbrev signature : Text
signature = codes "key" ++ string_to_sign sample_unicode (codes "acct") get_of

verify_exact_example :
    (verify sample_crypto sample_unicode (codes "acct") get_of signature (codes "key") none ≡ ok tt)
    ↔ KeySigns sample_crypto
        (codes "key")
        none
        (string_to_sign sample_unicode (codes "acct") get_of)
        signature
verify_exact_example =
    verify_exact sample_crypto sample_unicode (codes "acct") get_of signature (codes "key") none

-- an issuer whose keys are texts; a token is the name of its key
abbrev issuer : Issuer Text
issuer = record {
  jwks = λ n. some (
      record {
        kid = some (codes "k");
        kty = codes "RSA";
        n = some (codes "n");
        e = some (codes "e");
      }
      ∷ []);
  instant = λ n. n;
  from_rsa_components = λ n e. some (n ++ e);
  decode_header = λ token. some (some token);
  decode = λ token key iss aud. some (record { sub = some key });
}

abbrev oidc_config : OidcConfig
oidc_config = record {
  issuer = codes "iss";
  audience = codes "aud";
  jwks_uri = codes "uri";
  cache_ttl = 60;
}

abbrev empty_cache : CacheState Text
empty_cache = record { cache = none; readings = 0; requests = 0 }

abbrev owner : Claims
owner = record { sub = some (codes "ne") }

validate_token_sound_example :
    Accepted issuer oidc_config empty_cache (codes "k" ∷ []) (codes "k") owner
unfolding runs_base runs_api validate_all
validate_token_sound_example =
    validate_token_sound issuer oidc_config empty_cache (codes "k" ∷ []) (codes "k") owner refl refl

abbrev header_rest : Text
header_rest = codes "acct:key" ++ signed_text sample_libraries (codes "acct") get_request

verify_shared_key_exact_example :
    (verify_shared_key sample_libraries
        (codes "acct")
        (codes "key")
        none
        get_request
        (sent_query sample_libraries get_request)
        header_rest
      ≡ ok (record { account = codes "acct"; method = shared_key }))
    ↔ ((sig : Text) × (split_once b':' header_rest ≡ some (codes "acct", sig))
        × KeySigns sample_crypto
            (codes "key")
            none
            (signed_text sample_libraries (codes "acct") get_request)
            sig)
verify_shared_key_exact_example =
    verify_shared_key_exact sample_libraries (codes "acct") (codes "key") none get_request
      header_rest
