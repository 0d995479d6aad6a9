-- ===== src/Storage/Externals.antt =====
-- What the storage crate takes from other crates and from the operating system: JSON, digests,
-- encodings, the clock, and SQLite's LIKE. None of it is defined here.
use mert_blob_storage.Base.{ℕ, Bool, Option, List}
use mert_blob_storage.Base.Text.{Text}
use mert_blob_storage.Core.Time.{DateTime}

-- a `HashMap<String, String>`, by its entries
abbrev pub Metadata : Type 0
Metadata = List (Text × Text)

pub record Externals : Type 0 where
  -- serde_json
  pub json_to_string : Metadata → Option Text
  pub json_from_str : Text → Option Metadata
  -- md-5, sha2, hex, base64
  pub md5 : Text → Text
  pub sha256 : Text → Text
  pub hex_encode : Text → Text
  pub hex_decode : Text → Option Text
  pub base64_encode : Text → Text
  -- the nanoseconds since 1970 at the n-th reading of the clock, and the calendar of `time`
  pub clock : ℕ → ℕ
  pub calendar : ℕ → DateTime
  pub rfc3339 : ℕ → Option Text
  -- `{tid:?}` of the current thread
  pub thread_id : Text
  -- SQLite's `name LIKE pattern`
  pub like : Text → Text → Bool
  -- the texts of a failed constraint and of a missing file
  pub constraint_message : Text
  pub not_found_message : Text
