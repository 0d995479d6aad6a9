-- ===== src/Storage/Db.antt =====
-- crates/blobstore-storage/migrations/0001_init.sql: the tables. Columns that no statement of the
-- program names (lease_state, deleted) are left out. A `u64` is stored as an `i64` and read back as
-- a `u64`, which gives the number back, so a size is a number here.
use mert_blob_storage.Base.{ℕ, Bool, ◌&&◌, Option, List, []}
use mert_blob_storage.Base.Text.{Text, ◌==◌}

pub record AccountsRow : Type 0 where
  pub account_name : Text
  pub key1_base64 : Text
  pub key2_base64 : Option Text
  pub created_at : Text

pub record ContainersRow : Type 0 where
  pub account_name : Text
  pub container_name : Text
  pub public_access_level : Text
  pub metadata_json : Text
  pub etag : Text
  pub last_modified : Text
  pub created_at : Text

pub record BlobsRow : Type 0 where
  pub account_name : Text
  pub container_name : Text
  pub blob_name : Text
  pub blob_type : Text
  pub content_length : ℕ
  pub content_type : Option Text
  pub content_md5 : Option Text
  pub content_encoding : Option Text
  pub content_language : Option Text
  pub cache_control : Option Text
  pub content_disposition : Option Text
  pub metadata_json : Text
  pub etag : Text
  pub last_modified : Text
  pub created_at : Text
  pub committed : ℕ
  pub storage_path : Text

pub record StagedBlocksRow : Type 0 where
  pub account_name : Text
  pub container_name : Text
  pub blob_name : Text
  pub block_id : Text
  pub block_size : ℕ
  pub md5 : Option Text
  pub storage_path : Text
  pub staged_at : Text

pub record CommittedBlocksRow : Type 0 where
  pub account_name : Text
  pub container_name : Text
  pub blob_name : Text
  pub block_index : ℕ
  pub block_id : Text
  pub block_size : ℕ

pub record Db : Type 0 where
  pub accounts : List AccountsRow
  pub containers : List ContainersRow
  pub blobs : List BlobsRow
  pub staged_blocks : List StagedBlocksRow
  pub committed_blocks : List CommittedBlocksRow

abbrev pub empty : Db
empty = record {
  accounts = [];
  containers = [];
  blobs = [];
  staged_blocks = [];
  committed_blocks = [];
}

-- The primary keys, as the conditions of the WHERE clauses.
unfoldable pub is_account : Text → AccountsRow → Bool
is_account a r = r.account_name == a

unfoldable pub is_container : Text → Text → ContainersRow → Bool
is_container a c r = (r.account_name == a) && (r.container_name == c)

unfoldable pub is_blob : Text → Text → Text → BlobsRow → Bool
is_blob a c b r = (r.account_name == a) && (r.container_name == c) && (r.blob_name == b)

unfoldable pub is_blob_in : Text → Text → BlobsRow → Bool
is_blob_in a c r = (r.account_name == a) && (r.container_name == c)

unfoldable pub is_staged_of : Text → Text → Text → StagedBlocksRow → Bool
is_staged_of a c b r = (r.account_name == a) && (r.container_name == c) && (r.blob_name == b)

unfoldable pub is_staged : Text → Text → Text → Text → StagedBlocksRow → Bool
unfolding is_staged_of
is_staged a c b id r = is_staged_of a c b r && (r.block_id == id)

unfoldable pub is_staged_in : Text → Text → StagedBlocksRow → Bool
is_staged_in a c r = (r.account_name == a) && (r.container_name == c)

unfoldable pub is_committed_of : Text → Text → Text → CommittedBlocksRow → Bool
is_committed_of a c b r = (r.account_name == a) && (r.container_name == c) && (r.blob_name == b)

unfoldable pub is_committed_in : Text → Text → CommittedBlocksRow → Bool
is_committed_in a c r = (r.account_name == a) && (r.container_name == c)
