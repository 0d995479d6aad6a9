-- ===== src/Tests/ApiExamples.antt =====
-- The theorems about credentials and about the HTTP surface, at inputs that meet their hypotheses.
use mert_blob_storage.Base.{
  inl, inr, if◌then◌else◌, ◌≡◌, ◌↔◌, ◌⊎◌, ◌++◌, refl, true, Option, none, some, [], ◌∷◌, All,
}
use mert_blob_storage.Base.Text.{◌==◌, Text, codes, contains, split_once}
use mert_blob_storage.Core.Model.{allows_blob_read}
use mert_blob_storage.Storage.Exec.{World, ok}
use mert_blob_storage.Storage.Types.{ContainerProps}
use mert_blob_storage.Storage.Backend.{fs_backend}
use mert_blob_storage.Auth.Types.{AuthContext, sas, anonymous, read}
use mert_blob_storage.Auth.Sas.{SasParams, lines_to_sign, canonicalized_resource, string_to_sign}
use mert_blob_storage.Auth.Proofs.SharedKey.{KeySigns}
use mert_blob_storage.Auth.Proofs.Sas.{Unexpired, Begun}
use mert_blob_storage.Auth.Proofs.Lines.{IsLine, string_to_sign_injective}
use mert_blob_storage.Api.Http.{get, head, Request}
use mert_blob_storage.Tests.SampleServer.{sample_http, get_request}
use mert_blob_storage.Api.Auth.{split_path, verify_sas}
use mert_blob_storage.Api.AccountResolve.{rewritten}
use mert_blob_storage.Api.Proofs.Accounts.{ReadsPath, split_once-none, rewritten_account}
use mathlib.Core.List.{append-nil}
use mert_blob_storage.Api.Proofs.Access.{
  split_once-append, verify_sas_exact, verify_anonymous_reads, split_path_parts,
}
use mert_blob_storage.Tests.Sample.{sample, sample_crypto, root, shelf, stocked}
use mert_blob_storage.Tests.Runs.{runs_base, runs_store, runs_backend, runs_api}

abbrev unsigned : SasParams
unsigned = record {
  sp = codes "rl";
  st = [];
  se = codes "2030-01-01";
  sr = codes "c";
  sip = [];
  spr = codes "https";
  sv = codes "2021-08-06";
  si = [];
  sig = [];
  rscc = [];
  rscd = [];
  rsce = [];
  rscl = [];
  rsct = [];
}

abbrev grant : SasParams
grant = record unsigned {
  sig = codes "key" ++ string_to_sign (codes "acct") (codes "c") none unsigned;
}

grant_accepted :
    verify_sas sample_crypto
      (codes "acct")
      (codes "key")
      none
      grant
      (some (codes "c"))
      (some (codes "b"))
      true
      read
    ≡ ok (record { account = codes "acct"; method = sas })
unfolding runs_base runs_api
grant_accepted = refl

verify_sas_exact_example :
    (verify_sas sample_crypto
        (codes "acct")
        (codes "key")
        none
        grant
        (some (codes "c"))
        (some (codes "b"))
        true
        read
      ≡ ok (record { account = codes "acct"; method = sas }))
    ↔ (KeySigns sample_crypto
          (codes "key")
          none
          (string_to_sign
            (codes "acct")
            (codes "c")
            (if grant.sr == codes "c" then none else some (codes "b"))
            grant)
          grant.sig
        × (Unexpired sample_crypto grant.se × Begun sample_crypto grant.st)
        × ((grant.sr ≡ codes "c") ⊎ ((grant.sr ≡ codes "b") × (true ≡ true)))
        × (contains b'r' grant.sp ≡ true))
unfolding runs_api
verify_sas_exact_example =
    verify_sas_exact sample_crypto (codes "acct") (codes "key") none grant (codes "c")
      (some (codes "b")) true read

grant_lines :
    All IsLine (lines_to_sign (canonicalized_resource (codes "acct") (codes "c") none) grant)
unfolding runs_base runs_api
grant_lines = (
  refl,
  (
    refl,
    (
      refl,
      (
        refl,
        (
          refl,
          (
            refl,
            (refl, (refl, (refl, (refl, (refl, (refl, (refl, (refl, (refl, (refl, tt)))))))))),
          ),
        ),
      ),
    ),
  ),
)

abbrev no_blob : Option Text
no_blob = none

string_to_sign_injective_example :
    (codes "acct" ≡ codes "acct")
    × (codes "c" ≡ codes "c")
    × (no_blob ≡ no_blob)
    × (grant ≡ record unsigned { sig = grant.sig })
unfolding runs_base runs_api
string_to_sign_injective_example =
    string_to_sign_injective (codes "acct") (codes "c") (codes "acct") (codes "c") none none grant
      unsigned refl refl refl refl grant_lines refl

split_path_parts_example :
    split_path (codes "/acct/c/dir/b")
    ≡ (some (codes "acct"), some (codes "c"), some (codes "dir/b"))
unfolding runs_base
split_path_parts_example = split_path_parts (codes "cct") [] (codes "ir/b") b'a' b'c' b'd' refl refl

abbrev open_world : World
open_world = record {
  db = record stocked { containers = record shelf { public_access_level = codes "blob" } ∷ [] };
  files = [];
  ticks = 0;
  faults = [];
}

abbrev reader : AuthContext
reader = record { account = codes "acct"; method = anonymous }

verify_anonymous_reads_example :
    (reader ≡ record { account = codes "acct"; method = anonymous })
    × ((get ≡ get) ⊎ (get ≡ head))
    × ((name : Text) × (props : ContainerProps) × (some (codes "c") ≡ some name)
        × (((fs_backend sample root).get_container_properties (codes "acct") name open_world).0
            ≡ ok props)
        × (allows_blob_read props.public_access ≡ true))
unfolding runs_base runs_store runs_backend runs_api
verify_anonymous_reads_example =
    verify_anonymous_reads (fs_backend sample root) (codes "acct") (some (codes "c")) true get
      open_world reader refl

abbrev host_request : Request
host_request = record get_request { path = codes "/c/b"; query = some (codes "x=1") }

-- cutting a text at its first question mark reads a plain path back
cut-ReadsPath : ReadsPath sample_http
unfolding split_once contains
cut-ReadsPath path rest p q plain (inl e) parsed =
    let whole = split_once-none b'?' (b'/' ∷ path) plain.0 in
    let bare : rest ≡ [] = e in cc (rw (bare, append-nil path, whole) at parsed)
cut-ReadsPath path rest p q plain (inr (query, e)) parsed =
    let parts = split_once-append b'?' (b'/' ∷ path) query plain.0 in cc (rw (e, parts) at parsed)

rewritten_account_example :
    ((split_path (rewritten sample_http (some (codes "acct")) host_request).path).0
      ≡ some (codes "acct"))
    × ((rewritten sample_http (some (codes "acct")) host_request).signed_path ≡ some (codes "/c/b"))
unfolding runs_base runs_api
rewritten_account_example =
    rewritten_account sample_http b'a' (codes "cct") (codes "c/b") (codes "/acct/c/b")
      (some (codes "x=1")) host_request cut-ReadsPath refl (refl, refl) (refl, refl) refl refl refl
