-- ===== src/Api/Proofs/SharedKey.antt =====
-- When the middleware lets a request in that is signed with a key of the account.
use mathlib.Core.Option
use mathlib.Core.List.{append_assoc}
use mert_blob_storage.Base.{
  Bool, none, List, [], ◌∷◌, ◌++◌, map, ap, if◌then◌else◌, ◌≡◌, ◌↔◌, inl, inr, refl, sym, Option,
  some, arith, Option-cases, Bool-cases,
}
use mert_blob_storage.Base.Text.{Text, codes, strip_prefix, ◌==◌, lt, eq_iff, split_once}
use mert_blob_storage.Storage.Exec.{Result, ok, err}
use mert_blob_storage.Auth.Types.{AuthError, AuthContext, shared_key}
use mert_blob_storage.Auth.Sas.{Query, join_lines}
use mert_blob_storage.Auth.SharedKey.{
  by_name, header_lines, join_commas, group_lines, canonical_header, canonicalized_headers,
  group_params, canonicalized_resource, parts, string_to_sign, verify,
}
use mert_blob_storage.Auth.Proofs.SharedKey.{KeySigns, verify_exact}
use mert_blob_storage.Api.Http.{Headers, method_str, Request, get_header, contains_key}
use mert_blob_storage.Api.Query.{parse_query}
use mert_blob_storage.Base.Lists.{sort_by}
use mert_blob_storage.Api.State.{Libraries}
use mert_blob_storage.Api.Middleware.{
  is_some, header_str, ms_headers, shared_key_request, shared_key_context, verify_shared_key,
}

module _ {A : Type 0} where
  -- the elements of a list that pass a test
  abbrev pub chosen : (A → Bool) → List A → List A
  chosen test [] = []
  chosen test (a ∷ list) = let rest = chosen test list in if test a then a ∷ rest else rest

-- each of the texts with a line break behind it, before a last text
abbrev pub ended : List Text → Text → Text
ended [] last = last
ended (s ∷ lines) last = s ++ (b'\n' ∷ ended lines last)

ended-join_lines :
    (s last : Text) (lines : List Text)
    → join_lines (s ∷ lines) ++ b'\n' ∷ last ≡ ended (s ∷ lines) last
unfolding join_lines
ended-join_lines s last [] = refl
ended-join_lines s last (t ∷ lines) =
    rw (append_assoc s (b'\n' ∷ join_lines (t ∷ lines)) (b'\n' ∷ last))
      (ap (λ u. s ++ (b'\n' ∷ u)) (ended-join_lines t last lines))

by_name_lem : by_name ≡ (λ h k. lt h.0 k.0)
unfolding lt
by_name_lem = refl

-- headers, each with a colon and a line break
abbrev pub header_block : List (Text × Text) → Text
header_block [] = []
header_block ((name, value) ∷ headers) = name ++ (b':' ∷ (value ++ (b'\n' ∷ header_block headers)))

header_lines-block : (headers : List (Text × Text)) → header_lines headers ≡ header_block headers
unfolding header_lines
header_lines-block [] = refl
header_lines-block ((name, value) ∷ headers) =
    ap (λ t. name ++ (b':' ∷ (value ++ (b'\n' ∷ t)))) (header_lines-block headers)

abbrev pub with_commas : List Text → Text
with_commas [] = []
with_commas (v ∷ []) = v
with_commas (v ∷ w ∷ values) = v ++ (b',' ∷ with_commas (w ∷ values))

join_commas-with_commas : (values : List Text) → join_commas values ≡ with_commas values
unfolding join_commas
join_commas-with_commas [] = refl
join_commas-with_commas (v ∷ []) = refl
join_commas-with_commas (v ∷ w ∷ values) =
    ap (λ t. v ++ (b',' ∷ t)) (join_commas-with_commas (w ∷ values))

-- the parameters of a query, each on a line of its own with its values in order
abbrev pub query_block : List (Text × List Text) → Text
query_block [] = []
query_block ((name, values) ∷ grouped) =
    b'\n' ∷ (name ++ (b':' ∷ (with_commas (sort_by lt values) ++ query_block grouped)))

group_lines-block : (grouped : List (Text × List Text)) → group_lines grouped ≡ query_block grouped
unfolding group_lines
group_lines-block [] = refl
group_lines-block ((name, values) ∷ grouped) =
    cc (join_commas-with_commas (sort_by lt values), group_lines-block grouped)

module _ (env : Libraries) where
  -- the text of a header's value, empty where it has none
  abbrev pub text_of : Option Text → Text
  text_of none = []
  text_of (some value) = Option.get_or (env.http.to_str value) []

  -- `x-ms-`, whatever the case
  abbrev pub is_ms_header : Text × Text → Bool
  is_ms_header (name, value) =
      is_some (strip_prefix (codes "x-ms-") (env.unicode.to_lowercase name))

  -- a header as Azure signs it
  abbrev pub canonical : Text × Text → Text × Text
  canonical (name, value) = (env.unicode.to_lowercase name, env.unicode.trim (text_of (some value)))

  -- the parameters that the middleware reads in the query of a request
  abbrev pub sent_query : Request → Query
  sent_query req = parse_query env.http (Option.get_or req.query [])

  -- the text that Azure's Shared Key signs, for a request as the client sent it
  abbrev pub signed_text : Text → Request → Text
  signed_text account req =
      let sent : Text → Text = λ name. text_of (get_header name req.headers) in
      ended
        (method_str req.method
          ∷ sent (codes "content-encoding")
          ∷ sent (codes "content-language")
          ∷ (if sent (codes "content-length") == codes "0"
              then []
              else sent (codes "content-length"))
          ∷ sent (codes "content-md5")
          ∷ sent (codes "content-type")
          ∷ (if contains_key (codes "x-ms-date") req.headers then [] else sent (codes "date"))
          ∷ sent (codes "if-modified-since")
          ∷ sent (codes "if-match")
          ∷ sent (codes "if-none-match")
          ∷ sent (codes "if-unmodified-since")
          ∷ sent (codes "range")
          ∷ [])
        (header_block
            (sort_by (λ h k. lt h.0 k.0) (map canonical (chosen is_ms_header req.headers)))
          ++ b'/'
            ∷ (account
                ++ (Option.get_or req.signed_path req.path
                    ++ query_block (group_params env.unicode (sent_query req) []))))

  header_str-text_of :
      (headers : Headers) (name : Text)
      → header_str env headers name ≡ text_of (get_header name headers)
  unfolding header_str
  header_str-text_of headers name = elim (Option-cases (get_header name headers)) [
    | inl e ↦ rw e refl
    | inr (value, e) ↦ rw e refl
  ]

  ms_headers-chosen :
      (headers : Headers)
      → map (canonical_header env.unicode) (ms_headers env headers)
        ≡ map canonical (chosen is_ms_header headers)
  unfolding ms_headers
  ms_headers-chosen [] = refl
  ms_headers-chosen ((k, v) ∷ headers) = elim (Bool-cases (is_ms_header (k, v))) [
    | inl e ↦ rw e (ap (λ hs. canonical (k, v) ∷ hs) (ms_headers-chosen headers))
    | inr e ↦ rw e (ms_headers-chosen headers)
  ]

  string_to_sign-signed_text :
      (account : Text) (req : Request)
      → string_to_sign env.unicode account (shared_key_request env req (sent_query req))
        ≡ signed_text account req
  unfolding string_to_sign parts canonicalized_headers canonicalized_resource shared_key_request
  string_to_sign-signed_text account req = simp (
    ended-join_lines,
    by_name_lem,
    header_lines-block,
    group_lines-block,
    header_str-text_of req.headers,
    ms_headers-chosen req.headers,
  )

module _ (env : Libraries) (account key1 : Text) (key2 : Option Text) (req : Request) where
  abbrev query : Query
  query = sent_query env req

  abbrev owner : AuthContext
  owner = record { account = account; method = shared_key }

  context_exact :
      (r : Result AuthError (Unit {0}))
      → (shared_key_context env account key1 key2 req query r ≡ ok owner) ↔ (r ≡ ok tt)
  context_exact (ok tt) = (λ h. refl, λ h. refl)
  context_exact (err e) = (λ h. absurd (cc h), λ h. absurd (cc h))

  accepted_exact :
      (rest : Text)
      → (verify_shared_key env account key1 key2 req query rest
          ≡ ok (record { account = account; method = shared_key }))
        ↔ ((sig : Text) × (split_once b':' rest ≡ some (account, sig))
            × KeySigns env.crypto key1 key2
                (string_to_sign env.unicode account (shared_key_request env req query))
                sig)
  unfolding verify_shared_key
  accepted_exact rest = elim (Option-cases (split_once b':' rest)) [
    | inl e ↦ (λ h. absurd (ground arith), λ h. let (sig, f, k) = h in absurd (cc (e, f)))
    | inr ((hdr_account, signature), e) ↦
        let checked =
          verify env.crypto env.unicode account (shared_key_request env req query) signature key1
            key2 in
        let signs =
          verify_exact env.crypto env.unicode account (shared_key_request env req query) signature
            key1 key2 in
        elim (Bool-cases (hdr_account == account)) [
          | inr d ↦ (
            λ h. absurd (ground arith),
            λ h.
                let (sig, f, k) = h in
                let same : hdr_account ≡ account = cc (e, f) in
                absurd (cc (d, (eq_iff hdr_account account).1 same)),
          )
          | inl d ↦
              let named = (eq_iff hdr_account account).0 d in
              (
                λ h. (
                  signature,
                  cc (e, named),
                  signs.0 ((context_exact checked).0 (rw (e, d) at h)),
                ),
                λ h.
                    let (sig, f, k) = h in
                    let same : signature ≡ sig = cc (e, f) in
                    rw (e, d) ((context_exact checked).1 (signs.1 (rw (sym same) at k))),
              )
        ]
  ]

  -- The rest of a Shared Key header is accepted exactly when it is the name of the account, a colon and
  -- a signature, and the signature is the HMAC, under a key of the account, of: the request's method;
  -- its eleven standard headers, a content length of zero and the date beside x-ms-date as empty; its
  -- x-ms- headers, names in lower case, sorted by name; and the account with the path as the client sent
  -- it and the parameters of the query as `group_params` groups them, their values sorted.
  pub verify_shared_key_exact :
      (rest : Text)
      → (verify_shared_key env account key1 key2 req (sent_query env req) rest
          ≡ ok (record { account = account; method = shared_key }))
        ↔ ((sig : Text) × (split_once b':' rest ≡ some (account, sig))
            × KeySigns env.crypto key1 key2 (signed_text env account req) sig)
  unfolding verify_shared_key
  verify_shared_key_exact rest =
      rw (sym (string_to_sign-signed_text env account req)) (accepted_exact rest)
