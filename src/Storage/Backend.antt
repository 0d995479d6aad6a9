-- ===== src/Storage/Backend.antt =====
-- crates/blobstore-storage/src/backend.rs: the trait `StorageBackend`, and its implementation by
-- `FsBackend`.
use mert_blob_storage.Base.{ℕ, Option, List}
use mert_blob_storage.Base.Text.{Text}
use mert_blob_storage.Core.Error.{AzureError}
use mert_blob_storage.Core.Model.{PublicAccessLevel}
use mert_blob_storage.Storage.Externals.{Externals, Metadata}
use mert_blob_storage.Storage.Exec.{Exec}
use mert_blob_storage.Storage.Types.{
  ByteStream, ContainerProps, BlobProps, BlobPropertiesPatch, ContainerListPage, BlobListPage,
  BlockRef, BlockListResult, BlobPayload, Failure,
}
use mert_blob_storage.Storage.MetadataDb
use mert_blob_storage.Storage.FsBackend

pub record StorageBackend : Type 0 where
  pub account_keys : Text → Exec AzureError (Option (Text × Option Text))
  pub create_container : Text → Text → PublicAccessLevel → Metadata → Exec AzureError ContainerProps
  pub delete_container : Text → Text → Exec AzureError (Unit {0})
  pub get_container_properties : Text → Text → Exec AzureError ContainerProps
  pub set_container_metadata : Text → Text → Metadata → Exec AzureError ContainerProps
  pub set_container_acl : Text → Text → PublicAccessLevel → Exec AzureError ContainerProps
  pub list_containers : Text → Option Text → Option Text → ℕ → Exec AzureError ContainerListPage
  pub list_blobs :
      Text → Text → Option Text → Option Text → Option Text → ℕ → Exec Failure BlobListPage
  pub put_blob :
      Text
      → Text
      → Text
      → ByteStream
      → Option Text
      → Option Text
      → Metadata
      → Exec AzureError BlobProps
  pub get_blob : Text → Text → Text → Option (ℕ × ℕ) → Exec AzureError BlobPayload
  pub get_blob_properties : Text → Text → Text → Exec AzureError BlobProps
  pub set_blob_properties : Text → Text → Text → BlobPropertiesPatch → Exec AzureError BlobProps
  pub set_blob_metadata : Text → Text → Text → Metadata → Exec AzureError BlobProps
  pub delete_blob : Text → Text → Text → Exec AzureError (Unit {0})
  pub put_block : Text → Text → Text → Text → ByteStream → Exec AzureError Text
  pub put_block_list :
      Text → Text → Text → List BlockRef → Option Text → Metadata → Exec AzureError BlobProps
  pub get_block_list : Text → Text → Text → Exec AzureError BlockListResult

-- `impl StorageBackend for FsBackend`
abbrev pub fs_backend : Externals → Text → StorageBackend
fs_backend x storage_root = record {
  account_keys = MetadataDb.Accounts.account_keys;
  create_container = FsBackend.Containers.create_container x storage_root;
  delete_container = FsBackend.Containers.delete_container x storage_root;
  get_container_properties = FsBackend.Containers.get_container_properties x storage_root;
  set_container_metadata = FsBackend.Containers.set_container_metadata x storage_root;
  set_container_acl = FsBackend.Containers.set_container_acl x storage_root;
  list_containers = FsBackend.Containers.list_containers x storage_root;
  list_blobs = FsBackend.Containers.list_blobs x storage_root;
  put_blob = FsBackend.Blobs.put_blob x storage_root;
  get_blob = FsBackend.Blobs.get_blob x storage_root;
  get_blob_properties = FsBackend.Blobs.get_blob_properties x storage_root;
  set_blob_properties = FsBackend.Blobs.set_blob_properties x storage_root;
  set_blob_metadata = FsBackend.Blobs.set_blob_metadata x storage_root;
  delete_blob = FsBackend.Blobs.delete_blob x storage_root;
  put_block = FsBackend.Blocks.put_block x storage_root;
  put_block_list = FsBackend.Blocks.put_block_list x storage_root;
  get_block_list = FsBackend.Blocks.get_block_list;
}
