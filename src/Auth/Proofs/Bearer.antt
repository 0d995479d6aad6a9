-- ===== src/Auth/Proofs/Bearer.antt =====
-- The keys of the cache come from the issuer.
use mathlib.Core.List.{append_assoc, append-nil}
use mert_blob_storage.Base.{
  ℕ, ◌+◌, ◌-◌, ◌≤◌, ◌<◌, ◌≡◌, ◌⊎◌, inl, inr, refl, sym, ◌∙◌, ap, Option, none, some, List, [], ◌∷◌,
  ◌++◌, arith, Option-cases,
}
use mert_blob_storage.Base.Text.{Text}
use mert_blob_storage.Storage.Exec.{Result, ok, err}
use mert_blob_storage.Auth.Bearer.{
  OidcConfig, JwkKey, Claims, CacheEntry, Issuer, CacheState, get_in, collect_keys, get_key,
  validate_token, validate_kid,
}
use mert_blob_storage.Auth.Proofs.Cache.{
  Steps, cached_key-cases, cached_key-state, refresh-cases, looked, get_key-cases, get_key-Steps,
}

module _ {E A : Type 0} where
  pub Result-cases : (r : Result E A) → ((a : A) × (r ≡ ok a)) ⊎ ((e : E) × (r ≡ err e))
  Result-cases (ok a) = inl (a, refl)
  Result-cases (err e) = inr (e, refl)

module _ {K : Type 0} (world : Issuer K) where
  module _ (config : OidcConfig) where
    -- the cache after the tokens of a list, one after another
    unfoldable pub validate_all : List Text → CacheState K → CacheState K
    validate_all [] s = s
    validate_all (token ∷ tokens) s = validate_all tokens (validate_token world config token s).1

    validate_all-append :
        (tokens more : List Text) (s : CacheState K)
        → validate_all (tokens ++ more) s ≡ validate_all more (validate_all tokens s)
    unfolding validate_all
    validate_all-append [] more s = refl
    validate_all-append (token ∷ tokens) more s =
        validate_all-append tokens more (validate_token world config token s).1

    validate_kid-Steps :
        (token : Text) (header : Option (Option Text)) (s : CacheState K)
        → Steps world s (validate_kid world config token header s).1
    validate_kid-Steps token none s = inl refl
    validate_kid-Steps token (some none) s = inl refl
    validate_kid-Steps token (some (some kid)) s = get_key-Steps world config kid s

    module _ (start : CacheState K) where
      -- While one of the tokens was validated, the request was made whose answer has these keys, and the
      -- clock was read at this time.
      pub record Fetched (tokens : List Text) (keys : List (Text × K)) (time : ℕ) : Type 0 where
        pub before : List Text
        pub token : Text
        pub after : List Text
        pub earlier : tokens ≡ before ++ token ∷ after
        pub answer : List JwkKey
        pub answered : world.jwks (validate_all before start).requests ≡ some answer
        pub asked :
            (validate_token world config token (validate_all before start)).1.requests
            ≡ (validate_all before start).requests + 1
        pub collected : keys ≡ collect_keys world answer []
        pub reading : ℕ
        pub begun : (validate_all before start).readings ≤ reading
        pub ended :
            reading < (validate_token world config token (validate_all before start)).1.readings
        pub stamped : time ≡ world.instant reading

      abbrev Cached : List Text → Option (CacheEntry K) → Type 0
      Cached tokens none = Unit {0}
      Cached tokens (some entry) = Fetched tokens entry.keys entry.fetched_at

      later-Cached :
          (tokens : List Text) (last : Text) (c : Option (CacheEntry K))
          → Cached tokens c
          → Cached (tokens ++ last ∷ []) c
      later-Cached tokens last none h = tt
      later-Cached tokens last (some entry) h = record {
        before = h.before;
        token = h.token;
        after = h.after ++ last ∷ [];
        earlier =
            ap (λ l. l ++ last ∷ []) h.earlier
            ∙ append_assoc h.before (h.token ∷ h.after) (last ∷ []);
        answer = h.answer;
        answered = h.answered;
        asked = h.asked;
        collected = h.collected;
        reading = h.reading;
        begun = h.begun;
        ended = h.ended;
        stamped = h.stamped;
      }

      step-Cached :
          (tokens : List Text) (last : Text)
          → Cached tokens (validate_all tokens start).cache
          → Cached
              (tokens ++ last ∷ [])
              (validate_token world config last (validate_all tokens start)).1.cache
      unfolding validate_token
      step-Cached tokens last h =
          let s = validate_all tokens start in
          elim (validate_kid-Steps last (world.decode_header last) s) [
            | inl same ↦ rw same (later-Cached tokens last s.cache h)
            | inr (entry, cached, r) ↦ rw cached (record {
              before = tokens;
              token = last;
              after = [];
              earlier = refl;
              answer = r.answer;
              answered = r.answered;
              asked = r.asked;
              collected = r.collected;
              reading = r.reading;
              begun = r.begun;
              ended = r.ended;
              stamped = r.stamped;
            })
          ]

      all-Cached :
          (before after : List Text)
          → Cached before (validate_all before start).cache
          → Cached (before ++ after) (validate_all (before ++ after) start).cache
      unfolding validate_all
      all-Cached before [] h = rw (append-nil before) h
      all-Cached before (token ∷ after) h =
          let step : Cached (before ++ token ∷ [])
              (validate_all (before ++ token ∷ []) start).cache =
            rw (validate_all-append before (token ∷ []) start) (step-Cached before token h) in
          let all = all-Cached (before ++ token ∷ []) after step in
          rw (append_assoc before (token ∷ []) after) at all

      -- After these tokens, the key is one of an answer that comes in this very call, or of one that came
      -- with an earlier token, from which to now less time has gone than that of the cache.
      pub record Granted (tokens : List Text) (kid : Text) (key : K) : Type 0 where
        pub keys : List (Text × K)
        pub found : get_in kid keys ≡ some key
        pub fresh :
            ((answer : List JwkKey) × (world.jwks (validate_all tokens start).requests
                ≡ some answer)
              × (keys ≡ collect_keys world answer [])
              × ((get_key world config kid (validate_all tokens start)).1.requests
                  ≡ (validate_all tokens start).requests + 1))
            ⊎ ((time : ℕ) × Fetched tokens keys time
                × (world.instant (validate_all tokens start).readings - time < config.cache_ttl))

      get_key-Granted :
          (tokens : List Text) (kid : Text) (key : K)
          → Cached tokens (validate_all tokens start).cache
          → (get_key world config kid (validate_all tokens start)).0 ≡ ok key
          → Granted tokens kid key
      get_key-Granted tokens kid key h e =
          let s = validate_all tokens start in
          let (same, requests, later) = cached_key-state world config.cache_ttl kid s in
          elim (get_key-cases world config kid s) [
            | inl (key', looked_up, q) ↦
                let (entry, here, young, found) =
                  cached_key-cases world config.cache_ttl kid s key (ground arith) in
                record {
                  keys = entry.keys;
                  found = found;
                  fresh = inr (entry.fetched_at, rw here at h, young);
                }
            | inr q ↦ elim (refresh-cases world kid (looked world config kid s).1) [
              | inl (kept, (f, failed)) ↦ ground arith
              | inr (answer, came, cached, made, read, gives) ↦ record {
                keys = collect_keys world answer [];
                found = gives key (sym (ap (λ r. r.0) q) ∙ e);
                fresh = inl (
                  answer,
                  ap world.jwks (sym requests) ∙ came,
                  refl,
                  rw q (made ∙ ap (λ n. n + 1) requests),
                );
              }
            ]
          ]

      -- The token carries the name of a key that the issuer has published, and the key verifies it.
      pub record Accepted (tokens : List Text) (token : Text) (claims : Claims) : Type 0 where
        pub kid : Text
        pub key : K
        pub named : world.decode_header token ≡ some (some kid)
        pub granted : Granted tokens kid key
        pub verified : world.decode token key config.issuer config.audience ≡ some claims

      validate_kid-Accepted :
          (tokens : List Text) (kid token : Text) (claims : Claims)
          → Cached tokens (validate_all tokens start).cache
          → world.decode_header token ≡ some (some kid)
          → (validate_kid world config token (some (some kid)) (validate_all tokens start)).0
            ≡ ok claims
          → Accepted tokens token claims
      validate_kid-Accepted tokens kid token claims h e v =
          elim (Result-cases (get_key world config kid (validate_all tokens start)).0) [
            | inl (key, q) ↦ record {
              kid = kid;
              key = key;
              named = e;
              granted = get_key-Granted tokens kid key h q;
              verified = ground arith;
            }
            | inr (f, q) ↦ ground arith
          ]

-- Whatever bearer tokens came before, from an empty cache: a token that is accepted names a key of an
-- answer of the issuer, its signature and claims are verified with this key for the configured issuer
-- and audience, and either the request for the answer is made in this very call, or it was made when one
-- of the tokens before was validated, the clock was read in that validation, and from that reading to
-- the one of this call less has gone by than the time of the cache.
pub validate_token_sound :
    {K : Type 0} (world : Issuer K) (config : OidcConfig) (start : CacheState K)
    (tokens : List Text) (token : Text) (claims : Claims)
    → start.cache ≡ none
    → (validate_token world config token (validate_all world config tokens start)).0 ≡ ok claims
    → Accepted world config start tokens token claims
unfolding validate_token validate_all
validate_token_sound world config start tokens token claims h v =
    let empty : Cached world config start [] start.cache = rw h tt in
    let cached = all-Cached world config start [] tokens empty in
    elim (Option-cases (world.decode_header token)) [
      | inl e ↦ ground arith
      | inr (none, e) ↦ ground arith
      | inr (some kid, e) ↦
          validate_kid-Accepted world config start tokens kid token claims cached e (rw e at v)
    ]
