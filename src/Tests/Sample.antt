-- ===== src/Tests/Sample.antt =====
-- A concrete environment for tests and examples: digests that keep their input, a clock that counts,
-- and a LIKE whose pattern is a text before a final percent sign.
use mert_blob_storage.Base.{Bool, true, false, none, some, List, [], ◌∷◌, ◌++◌, eqb, if◌then◌else◌}
use mert_blob_storage.Base.Text.{Text, codes}
use mert_blob_storage.Core.Time.{DateTime}
use mert_blob_storage.Storage.Externals.{Externals}
use mert_blob_storage.Storage.Db
use mert_blob_storage.Storage.Db.{Db, ContainersRow, BlobsRow}
use mert_blob_storage.Auth.Externals.{Crypto}
use mert_blob_storage.Base.Lists.{length}
use mert_blob_storage.Storage.Exec.{World, Result, ok, IoError}

abbrev pub flat_like : Text → Text → Bool
flat_like name [] = false
flat_like [] (p ∷ ps) = eqb p b'%'
flat_like (c ∷ name) (p ∷ ps) =
    if eqb p b'%' then true else if eqb c p then flat_like name ps else false

abbrev pub epoch : DateTime
epoch = record {
  number_days_from_monday = 3;
  day = 1;
  month = 1;
  year = 1970;
  hour = 0;
  minute = 0;
  second = 0;
}

abbrev pub sample : Externals
sample = record {
  json_to_string = λ m. some [];
  json_from_str = λ t. some [];
  md5 = λ t. t;
  sha256 = λ t. codes "0123" ++ t;
  hex_encode = λ t. t;
  hex_decode = λ t. some t;
  base64_encode = λ t. t;
  clock = λ n. n;
  calendar = λ n. epoch;
  rfc3339 = λ n. some (n ∷ []);
  thread_id = codes "ThreadId(1)";
  like = flat_like;
  constraint_message = codes "constraint";
  not_found_message = codes "not found";
}

abbrev pub start : World
start = record {
  db = record Db.empty {
    accounts =
        record {
          account_name = codes "acct";
          key1_base64 = codes "k1";
          key2_base64 = none;
          created_at = [];
        }
        ∷ [];
  };
  files = [];
  ticks = 0;
  faults = [];
}

abbrev pub body_of : Text → List (Result IoError Text)
body_of t = ok t ∷ []

abbrev pub shelf : ContainersRow
shelf = record {
  account_name = codes "acct";
  container_name = codes "c";
  public_access_level = codes "off";
  metadata_json = [];
  etag = [];
  last_modified = [];
  created_at = [];
}

-- a database with one account and one container
abbrev pub stocked : Db
stocked = record Db.empty { accounts = start.db.accounts; containers = shelf ∷ [] }

abbrev pub root : Text
root = codes "/data"

-- the row of the blob `b`, as an upload of two bytes leaves it
abbrev pub note : BlobsRow
note = record {
  account_name = codes "acct";
  container_name = codes "c";
  blob_name = codes "b";
  blob_type = codes "BlockBlob";
  content_length = 2;
  content_type = some (codes "text/plain");
  content_md5 = none;
  content_encoding = some (codes "gzip");
  content_language = none;
  cache_control = none;
  content_disposition = none;
  metadata_json = [];
  etag = [];
  last_modified = [];
  created_at = [];
  committed = 1;
  storage_path = codes "accounts/acct/containers/c/blobs/01/23/0123b.bin";
}

-- a database with one account, one container and one blob
abbrev pub noted : Db
noted = record stocked { blobs = note ∷ [] }

abbrev pub sample_crypto : Crypto
sample_crypto = record {
  base64_decode = λ t. some t;
  base64_encode = λ t. t;
  hmac_sha256 = λ key message. some (key ++ message);
  now_utc = 5;
  parse_rfc3339 = λ t. some (length t);
}
