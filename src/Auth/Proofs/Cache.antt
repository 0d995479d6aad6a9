-- ===== src/Auth/Proofs/Cache.antt =====
-- What one lookup of a key does to the cache of the keys.
use mert_blob_storage.Base.{
  ℕ, ◌+◌, ◌-◌, ◌≤◌, ◌<◌, ◌≡◌, ◌⊎◌, inl, inr, refl, sym, ◌∙◌, ap, Option, some, List, [], arith,
  Option-cases,
}
use mert_blob_storage.Base.Text.{Text}
use mert_blob_storage.Storage.Exec.{Result, ok, err}
use mert_blob_storage.Auth.Types.{AuthError, jwks_unavailable}
use mert_blob_storage.Auth.Bearer.{
  OidcConfig, JwkKey, CacheEntry, Issuer, CacheState, get_in, collect_keys, fetch_keys, cached_key,
  refresh, get_key,
}

module _ {K : Type 0} (world : Issuer K) where
  -- The step put into the cache the keys of the answer to the request that it made, under the time of
  -- a reading of the clock that it made.
  pub record Refreshed (s t : CacheState K) (entry : CacheEntry K) : Type 0 where
    pub answer : List JwkKey
    pub answered : world.jwks s.requests ≡ some answer
    pub asked : t.requests ≡ s.requests + 1
    pub collected : entry.keys ≡ collect_keys world answer []
    pub reading : ℕ
    pub begun : s.readings ≤ reading
    pub ended : reading < t.readings
    pub stamped : entry.fetched_at ≡ world.instant reading

  -- the cache is as it was, or refreshed
  abbrev pub Steps : CacheState K → CacheState K → Type 0
  Steps s t =
      (t.cache ≡ s.cache) ⊎ ((entry : CacheEntry K) × (t.cache ≡ some entry) × Refreshed s t entry)

  pub cached_key-cases :
      (ttl : ℕ) (kid : Text) (s : CacheState K) (key : K)
      → (cached_key world ttl kid s).0 ≡ some key
      → (entry : CacheEntry K) × (s.cache ≡ some entry)
        × (world.instant s.readings - entry.fetched_at < ttl)
        × (get_in kid entry.keys ≡ some key)
  unfolding cached_key
  cached_key-cases ttl kid s key h = elim (Option-cases s.cache) [
    | inl e ↦ ground arith
    | inr (entry, e) ↦ (entry, e, ground arith, ground arith)
  ]

  pub cached_key-state :
      (ttl : ℕ) (kid : Text) (s : CacheState K)
      → ((cached_key world ttl kid s).1.cache ≡ s.cache)
        × ((cached_key world ttl kid s).1.requests ≡ s.requests)
        × (s.readings ≤ (cached_key world ttl kid s).1.readings)
  unfolding cached_key
  cached_key-state ttl kid s = elim (Option-cases s.cache) [
    | inl e ↦ rw e (refl, refl, omega arith)
    | inr (entry, e) ↦ rw e (refl, refl, omega arith)
  ]

  abbrev pub refreshed : Text → CacheState K → Result AuthError K × CacheState K
  refreshed kid s = refresh world kid (fetch_keys world s)

  -- what is left in the cache after a fetch, and where a key comes from
  pub refresh-cases :
      (kid : Text) (s : CacheState K)
      → (((refreshed kid s).1.cache ≡ s.cache) × ((e : AuthError) × ((refreshed kid s).0 ≡ err e)))
        ⊎ ((answer : List JwkKey) × (world.jwks s.requests ≡ some answer)
            × ((refreshed kid s).1.cache
                ≡ some (record {
                  keys = collect_keys world answer [];
                  fetched_at = world.instant s.readings;
                }))
            × ((refreshed kid s).1.requests ≡ s.requests + 1)
            × ((refreshed kid s).1.readings ≡ s.readings + 1)
            × ((key : K)
                → (refreshed kid s).0 ≡ ok key
                → get_in kid (collect_keys world answer []) ≡ some key))
  unfolding fetch_keys
  refresh-cases kid s = elim (Option-cases (world.jwks s.requests)) [
    | inl e ↦ inl (ground arith, (jwks_unavailable, ground arith))
    | inr (answer, e) ↦
        inr (answer, e, ground arith, ground arith, ground arith, λ key h. ground arith)
  ]

  module _ (config : OidcConfig) (kid : Text) (s : CacheState K) where
    abbrev pub looked : Option K × CacheState K
    looked = cached_key world config.cache_ttl kid s

    pub get_key-cases :
        ((key : K) × (looked.0 ≡ some key) × (get_key world config kid s ≡ (ok key, looked.1)))
        ⊎ (get_key world config kid s ≡ refreshed kid looked.1)
    unfolding get_key
    get_key-cases = elim (Option-cases looked.0) [
      | inl e ↦ inr (ground arith)
      | inr (key, e) ↦ inl (key, e, ground arith)
    ]

    pub get_key-Steps : Steps s (get_key world config kid s).1
    get_key-Steps =
        let (same, requests, later) = cached_key-state config.cache_ttl kid s in
        elim get_key-cases [
          | inl (key, found, q) ↦ inl (rw q same)
          | inr q ↦ elim (refresh-cases kid looked.1) [
            | inl (kept, failed) ↦ inl (rw q (kept ∙ same))
            | inr (answer, came, cached, made, read, gives) ↦ inr (
              record {
                keys = collect_keys world answer [];
                fetched_at = world.instant looked.1.readings;
              },
              rw q cached,
              record {
                answer = answer;
                answered = ap world.jwks (sym requests) ∙ came;
                asked = rw q (made ∙ ap (λ n. n + 1) requests);
                collected = refl;
                reading = looked.1.readings;
                begun = later;
                ended = rw q (omega (arith, read));
                stamped = refl;
              },
            )
          ]
        ]
