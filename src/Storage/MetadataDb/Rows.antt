-- ===== src/Storage/MetadataDb/Rows.antt =====
-- crates/blobstore-storage/src/metadata_db.rs: the rows that the store returns, their decoding, and
-- the helpers that every operation uses.
use mathlib.Core.Option
use mert_blob_storage.Base.{ℕ, ◌+◌, Option, []}
use mert_blob_storage.Base.Text.{Text, codes}
use mert_blob_storage.Core.Error.{AzureError, internal_error, with_message}
use mert_blob_storage.Core.Model.{PublicAccessLevel, from_db_str}
use mert_blob_storage.Core.Time
use mert_blob_storage.Storage.Externals.{Externals, Metadata}
use mert_blob_storage.Storage.Db.{ContainersRow, BlobsRow, StagedBlocksRow, CommittedBlocksRow}
use mert_blob_storage.Storage.Exec.{
  Exec, ok, IoError, unique_violation, constraint_violation, not_found, other, map_err,
}

pub record ContainerRow : Type 0 where
  pub name : Text
  pub public_access_level : PublicAccessLevel
  pub metadata : Metadata
  pub etag : Text
  pub last_modified : Text

pub record BlobRow : Type 0 where
  pub name : Text
  pub blob_type : Text
  pub content_length : ℕ
  pub content_type : Option Text
  pub content_md5 : Option Text
  pub content_encoding : Option Text
  pub content_language : Option Text
  pub cache_control : Option Text
  pub content_disposition : Option Text
  pub metadata : Metadata
  pub etag : Text
  pub last_modified : Text
  pub storage_path : Text

pub record StagedBlockRow : Type 0 where
  pub block_size : ℕ
  pub storage_path : Text

pub record CommittedBlockRow : Type 0 where
  pub block_id : Text
  pub block_size : ℕ

module _ (x : Externals) where
  unfoldable pub parse_metadata : Text → Metadata
  parse_metadata json = Option.get_or (x.json_from_str json) []

  unfoldable pub dump_metadata : Metadata → Text
  dump_metadata m = Option.get_or (x.json_to_string m) (codes "{}")

  -- each of these reads the clock once
  unfoldable pub generate_etag : Exec AzureError Text
  generate_etag w = (ok (Time.generate_etag (x.clock w.ticks)), record w { ticks = w.ticks + 1 })

  unfoldable pub now_rfc1123 : Exec AzureError Text
  now_rfc1123 w =
      (ok (Time.format_http_date (x.calendar (x.clock w.ticks))), record w { ticks = w.ticks + 1 })

  unfoldable pub now_iso : Exec AzureError Text
  now_iso w =
      (ok (Option.get_or (x.rfc3339 (x.clock w.ticks)) []), record w { ticks = w.ticks + 1 })

  -- `e.to_string()`
  unfoldable pub message : IoError → Text
  message unique_violation = x.constraint_message
  message constraint_violation = x.constraint_message
  message not_found = x.not_found_message
  message (other m) = m

  -- `.map_err(|e| AzureError::with_message(AzureErrorCode::InternalError, e.to_string()))`
  unfoldable pub to_internal : IoError → AzureError
  unfolding message
  to_internal e = with_message internal_error (message e)

  module _ {A : Type 0} where
    unfoldable pub or_internal : Exec IoError A → Exec AzureError A
    unfolding map_err
    or_internal m = map_err to_internal m

  -- the struct literal of `get_container` and `list_containers`
  unfoldable pub row_to_container : ContainersRow → ContainerRow
  unfolding parse_metadata
  row_to_container r = record {
    name = r.container_name;
    public_access_level = from_db_str r.public_access_level;
    metadata = parse_metadata r.metadata_json;
    etag = r.etag;
    last_modified = r.last_modified;
  }

  unfoldable pub row_to_blob : BlobsRow → BlobRow
  unfolding parse_metadata
  row_to_blob r = record {
    name = r.blob_name;
    blob_type = r.blob_type;
    content_length = r.content_length;
    content_type = r.content_type;
    content_md5 = r.content_md5;
    content_encoding = r.content_encoding;
    content_language = r.content_language;
    cache_control = r.cache_control;
    content_disposition = r.content_disposition;
    metadata = parse_metadata r.metadata_json;
    etag = r.etag;
    last_modified = r.last_modified;
    storage_path = r.storage_path;
  }

unfoldable pub row_to_staged : StagedBlocksRow → StagedBlockRow
row_to_staged r = record { block_size = r.block_size; storage_path = r.storage_path }

-- the closures of `get_committed_blocks` and `get_uncommitted_blocks`
unfoldable pub committed_to_block : CommittedBlocksRow → CommittedBlockRow
committed_to_block r = record { block_id = r.block_id; block_size = r.block_size }

unfoldable pub staged_to_block : StagedBlocksRow → CommittedBlockRow
staged_to_block r = record { block_id = r.block_id; block_size = r.block_size }
