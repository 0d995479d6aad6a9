-- ===== src/Auth/Bearer.antt =====
-- crates/blobstore-auth/src/bearer.rs: bearer tokens and the cache of signing keys. The key is a type
-- of the jsonwebtoken crate, of which the model knows nothing.
use mathlib.Core.Option
use mert_blob_storage.Base.{
  ℕ, ◌+◌, ◌-◌, Bool, Option, none, some, List, [], ◌∷◌, ltb, if◌then◌else◌,
}
use mert_blob_storage.Base.Lists.{find}
use mert_blob_storage.Base.Text.{Text, codes, ◌==◌}
use mert_blob_storage.Storage.Exec.{Result, ok, err}
use mert_blob_storage.Auth.Types.{
  AuthError, malformed_credential, jwks_unavailable, unknown_signing_key, signature_mismatch,
}

pub record OidcConfig : Type 0 where
  pub issuer : Text
  pub audience : Text
  pub jwks_uri : Text
  -- in the units of the clock
  pub cache_ttl : ℕ

pub record JwkKey : Type 0 where
  pub kid : Option Text
  pub kty : Text
  pub n : Option Text
  pub e : Option Text

-- the claims that the server uses, of those that are checked by the jsonwebtoken crate
pub record Claims : Type 0 where
  pub sub : Option Text

module _ (DecodingKey : Type 0) where
  pub record CacheEntry : Type 0 where
    -- `HashMap<String, DecodingKey>`, the last entry of a key first
    pub keys : List (Text × DecodingKey)
    pub fetched_at : ℕ

  -- What the code takes from the network, from the clock and from the jsonwebtoken crate.
  pub record Issuer : Type 0 where
    -- the answer of the n-th request to the JWKS endpoint, if it comes and parses
    pub jwks : ℕ → Option (List JwkKey)
    -- the n-th reading of the clock
    pub instant : ℕ → ℕ
    pub from_rsa_components : Text → Text → Option DecodingKey
    -- the `kid` of the header of a token, where the header parses
    pub decode_header : Text → Option (Option Text)
    -- `decode` under RS256 with this issuer and audience
    pub decode : Text → DecodingKey → Text → Text → Option Claims

  -- The cache, and how often the clock was read and the keys were asked for.
  pub record CacheState : Type 0 where
    pub cache : Option CacheEntry
    pub readings : ℕ
    pub requests : ℕ

module _ {DecodingKey : Type 0} where
  abbrev pub is_key : Text → Text × DecodingKey → Bool
  is_key kid (k, key) = k == kid

  abbrev pub key_of : Text × DecodingKey → DecodingKey
  key_of (k, key) = key

  -- `HashMap::get` and `HashMap::insert`
  unfoldable pub get_in : Text → List (Text × DecodingKey) → Option DecodingKey
  get_in kid keys = Option.map key_of (find (is_key kid) keys)

  abbrev pub insert_key :
      Option (Text × DecodingKey) → List (Text × DecodingKey) → List (Text × DecodingKey)
  insert_key none keys = keys
  insert_key (some entry) keys = entry ∷ keys

module _ {DecodingKey : Type 0} (world : Issuer DecodingKey) where
  -- the `let … else` and the `if let` of the loop
  unfoldable pub usable_key : Option Text → Option Text → Option Text → Option (Text × DecodingKey)
  usable_key (some n) (some e) (some kid) =
      Option.map (λ key. (kid, key)) (world.from_rsa_components n e)
  usable_key _ _ _ = none

  -- the loop over `jwks.keys`; what is inserted last stands first
  unfoldable pub collect_keys : List JwkKey → List (Text × DecodingKey) → List (Text × DecodingKey)
  unfolding usable_key
  collect_keys [] keys = keys
  collect_keys (k ∷ ks) keys =
      let more =
        if k.kty == codes "RSA" then insert_key (usable_key k.n k.e k.kid) keys else keys in
      collect_keys ks more

  unfoldable pub fetch_keys :
      CacheState DecodingKey → Result AuthError (List (Text × DecodingKey)) × CacheState DecodingKey
  unfolding collect_keys
  fetch_keys s =
      let s' = record s { requests = s.requests + 1 } in
      elim (world.jwks s.requests) [
        | none ↦ (err jwks_unavailable, s')
        | some jwks ↦ (ok (collect_keys jwks []), s')
      ]

  -- the block that reads the cache: the key, if it is there and the entry is younger than its time
  unfoldable pub cached_key :
      ℕ → Text → CacheState DecodingKey → Option DecodingKey × CacheState DecodingKey
  unfolding get_in
  cached_key ttl kid s = elim s.cache [
    | none ↦ (none, s)
    | some entry ↦ (
      if ltb (world.instant s.readings - entry.fetched_at) ttl then get_in kid entry.keys else none,
      record s { readings = s.readings + 1 },
    )
  ]

  -- the rest of `get_key`, behind the fetch
  abbrev pub refresh :
      Text
      → Result AuthError (List (Text × DecodingKey)) × CacheState DecodingKey
      → Result AuthError DecodingKey × CacheState DecodingKey
  refresh kid (err e, s) = (err e, s)
  refresh kid (ok keys, s) = (
    elim (get_in kid keys) [ none ↦ err unknown_signing_key | some key ↦ ok key ],
    record s {
      cache = some (record { keys = keys; fetched_at = world.instant s.readings });
      readings = s.readings + 1;
    },
  )

  abbrev pub or_refresh :
      Text
      → Option DecodingKey × CacheState DecodingKey
      → Result AuthError DecodingKey × CacheState DecodingKey
  or_refresh kid (some key, s) = (ok key, s)
  or_refresh kid (none, s) = refresh kid (fetch_keys s)

  unfoldable pub get_key :
      OidcConfig
      → Text
      → CacheState DecodingKey
      → Result AuthError DecodingKey × CacheState DecodingKey
  unfolding cached_key fetch_keys get_in
  get_key config kid s = or_refresh kid (cached_key config.cache_ttl kid s)

  abbrev pub decoded : OidcConfig → Text → Result AuthError DecodingKey → Result AuthError Claims
  decoded config token (err e) = err e
  decoded config token (ok key) = elim (world.decode token key config.issuer config.audience) [
    | none ↦ err signature_mismatch
    | some claims ↦ ok claims
  ]

  abbrev pub validate_kid :
      OidcConfig
      → Text
      → Option (Option Text)
      → CacheState DecodingKey
      → Result AuthError Claims × CacheState DecodingKey
  validate_kid config token none s = (err malformed_credential, s)
  validate_kid config token (some none) s = (err malformed_credential, s)
  validate_kid config token (some (some kid)) s =
      let (key, s') = get_key config kid s in (decoded config token key, s')

  unfoldable pub validate_token :
      OidcConfig → Text → CacheState DecodingKey → Result AuthError Claims × CacheState DecodingKey
  unfolding get_key
  validate_token config token = validate_kid config token (world.decode_header token)
