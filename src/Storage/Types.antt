-- ===== src/Storage/Types.antt =====
-- crates/blobstore-storage/src/types.rs
use mert_blob_storage.Base.{ℕ, Option, List}
use mert_blob_storage.Base.Text.{Text}
use mert_blob_storage.Core.Error.{AzureError}
use mert_blob_storage.Core.Model.{PublicAccessLevel, BlobType}
use mert_blob_storage.Storage.Externals.{Metadata}
use mert_blob_storage.Storage.Exec.{Result, IoError}

-- the chunks of a body, in the order in which they come in; a failed read ends the body
abbrev pub ByteStream : Type 0
ByteStream = List (Result IoError Text)

-- what ends a call that may panic: an error, or an `unwrap` or an index that panics
pub data Failure : Type 0 where
  api_error : AzureError → Failure
  panicking : Failure

pub record ContainerProps : Type 0 where
  pub name : Text
  pub public_access : PublicAccessLevel
  pub metadata : Metadata
  pub etag : Text
  pub last_modified : Text

pub record BlobProps : Type 0 where
  pub name : Text
  pub blob_type : BlobType
  pub content_length : ℕ
  pub content_type : Option Text
  pub content_md5 : Option Text
  pub content_encoding : Option Text
  pub content_language : Option Text
  pub cache_control : Option Text
  pub content_disposition : Option Text
  pub metadata : Metadata
  pub etag : Text
  pub last_modified : Text

pub record BlobPropertiesPatch : Type 0 where
  pub content_type : Option Text
  pub content_md5 : Option Text
  pub content_encoding : Option Text
  pub content_language : Option Text
  pub cache_control : Option Text
  pub content_disposition : Option Text

pub record ContainerListPage : Type 0 where
  pub containers : List ContainerProps
  pub next_marker : Option Text

pub record BlobListEntry : Type 0 where
  pub props : BlobProps

pub record BlobListPage : Type 0 where
  pub blobs : List BlobListEntry
  pub blob_prefixes : List Text
  pub next_marker : Option Text

pub data BlockRefKind : Type 0 where
  committed uncommitted latest : BlockRefKind

pub record BlockRef : Type 0 where
  pub block_id : Text
  pub kind : BlockRefKind

pub record CommittedBlock : Type 0 where
  pub block_id : Text
  pub size : ℕ

pub record BlockListResult : Type 0 where
  pub committed : List CommittedBlock
  pub uncommitted : List CommittedBlock

-- inclusive at both ends
pub record ByteRange : Type 0 where
  pub start : ℕ
  pub end : ℕ

-- `reader` is what the file, opened at the time of the call, yields to the limit of `take`
pub record BlobPayload : Type 0 where
  pub props : BlobProps
  pub total_len : ℕ
  pub range : Option ByteRange
  pub reader : Text
