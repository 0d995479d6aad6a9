-- ===== src/Auth/Externals.antt =====
-- What the auth crate takes from other crates and from the operating system: base64, HMAC-SHA-256,
-- the clock, and the parser of dates. None of it is defined here.
use mert_blob_storage.Base.{ℕ, Option}
use mert_blob_storage.Base.Text.{Text}

pub record Crypto : Type 0 where
  -- base64
  pub base64_decode : Text → Option Text
  pub base64_encode : Text → Text
  -- hmac and sha2: the code of a message under a key, where the key has an accepted length
  pub hmac_sha256 : Text → Text → Option Text
  -- time: an instant is counted from a date before every date that is read
  pub now_utc : ℕ
  pub parse_rfc3339 : Text → Option ℕ

-- The Unicode tables of the standard library.
pub record Unicode : Type 0 where
  -- str::to_lowercase and str::trim
  pub to_lowercase : Text → Text
  pub trim : Text → Text
