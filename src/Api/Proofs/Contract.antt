-- ===== src/Api/Proofs/Contract.antt =====
-- What the HTTP surface relies on in a storage backend, for an invariant of the database: the reading
-- operations keep it, and so do the writing ones.
use mert_blob_storage.Base.{ℕ, Option, none, some, List}
use mert_blob_storage.Base.Text.{Text}
use mert_blob_storage.Core.Model.{PublicAccessLevel}
use mert_blob_storage.Storage.Externals.{Externals, Metadata}
use mert_blob_storage.Storage.Db.{Db}
use mert_blob_storage.Storage.Exec.{World}
use mert_blob_storage.Storage.Types.{ByteStream, BlobPropertiesPatch, BlockRef, ByteRange}
use mert_blob_storage.Storage.MetadataDb
use mert_blob_storage.Storage.MetadataDb.Rows.{or_internal}
use mert_blob_storage.Storage.FsBackend
use mert_blob_storage.Storage.Backend.{StorageBackend, fs_backend}
use mert_blob_storage.Storage.Proofs.Keeps.{Keeps, keeps_rules}
use mert_blob_storage.Storage.Proofs.FsKeeps.{Keeps-sys, Keeps-open_file}
use mert_blob_storage.Storage.Proofs.Placed.{IsPlaced}
use mert_blob_storage.Storage.Proofs.Integrity.{
  Operation, perform-IsPlaced, create_container, delete_container, set_container_metadata,
  set_container_acl, put_blob, delete_blob, set_blob_properties, set_blob_metadata, put_block,
  put_block_list, perform,
}

module _ (P : Db → Type 0) (s : StorageBackend) where
  pub record ReadsKeep : Type 0 where
    pub account_keys_keep : (a : Text) → Keeps P (s.account_keys a)
    pub get_container_properties_keep : (a c : Text) → Keeps P (s.get_container_properties a c)
    pub list_containers_keep :
        (a : Text) (p m : Option Text) (n : ℕ) → Keeps P (s.list_containers a p m n)
    pub list_blobs_keep :
        (a c : Text) (p d m : Option Text) (n : ℕ) → Keeps P (s.list_blobs a c p d m n)
    pub get_blob_keep : (a c b : Text) (r : Option (ℕ × ℕ)) → Keeps P (s.get_blob a c b r)
    pub get_blob_properties_keep : (a c b : Text) → Keeps P (s.get_blob_properties a c b)
    pub get_block_list_keep : (a c b : Text) → Keeps P (s.get_block_list a c b)

  pub record WritesKeep : Type 0 where
    pub create_container_keep :
        (a c : Text) (l : PublicAccessLevel) (m : Metadata) → Keeps P (s.create_container a c l m)
    pub delete_container_keep : (a c : Text) → Keeps P (s.delete_container a c)
    pub set_container_metadata_keep :
        (a c : Text) (m : Metadata) → Keeps P (s.set_container_metadata a c m)
    pub set_container_acl_keep :
        (a c : Text) (l : PublicAccessLevel) → Keeps P (s.set_container_acl a c l)
    pub put_blob_keep :
        (a c b : Text) (body : ByteStream) (t h : Option Text) (m : Metadata)
        → Keeps P (s.put_blob a c b body t h m)
    pub set_blob_properties_keep :
        (a c b : Text) (p : BlobPropertiesPatch) → Keeps P (s.set_blob_properties a c b p)
    pub set_blob_metadata_keep :
        (a c b : Text) (m : Metadata) → Keeps P (s.set_blob_metadata a c b m)
    pub delete_blob_keep : (a c b : Text) → Keeps P (s.delete_blob a c b)
    pub put_block_keep : (a c b id : Text) (body : ByteStream) → Keeps P (s.put_block a c b id body)
    pub put_block_list_keep :
        (a c b : Text) (refs : List BlockRef) (t : Option Text) (m : Metadata)
        → Keeps P (s.put_block_list a c b refs t m)

-- The reading operations of the file-system backend keep any property of the database.
module _ (P : Db → Type 0) (x : Externals) (root : Text) where
  seek_range-Keeps : (r : Option ByteRange) → Keeps P (FsBackend.Blobs.seek_range x root r)
  unfolding FsBackend.Blobs.seek_range or_internal
  seek_range-Keeps none = search keeps_rules
  seek_range-Keeps (some r) = search (keeps_rules, Keeps-sys)

  pub fs_backend-ReadsKeep : ReadsKeep P (fs_backend x root)
  unfolding MetadataDb.Accounts.account_keys MetadataDb.Containers.require_container
      MetadataDb.Containers.get_container MetadataDb.Listing.list_containers
      MetadataDb.Listing.list_blobs MetadataDb.Blobs.require_blob MetadataDb.Blobs.get_blob
      MetadataDb.Blocks.get_committed_blocks MetadataDb.Blocks.get_uncommitted_blocks
      FsBackend.Containers.get_container_properties FsBackend.Containers.list_containers
      FsBackend.Containers.list_blobs FsBackend.Blobs.get_blob FsBackend.Blobs.get_blob_properties
      FsBackend.Blocks.get_block_list or_internal
  fs_backend-ReadsKeep = record {
    account_keys_keep = λ a. search keeps_rules;
    get_container_properties_keep = λ a c. search keeps_rules depth 9;
    list_containers_keep = λ a p m n. search keeps_rules depth 9;
    list_blobs_keep = λ a c p d m n. search keeps_rules depth 9;
    get_blob_keep = λ a c b r. search (keeps_rules, Keeps-open_file, seek_range-Keeps) depth 12;
    get_blob_properties_keep = λ a c b. search keeps_rules depth 9;
    get_block_list_keep = λ a c b. search keeps_rules depth 9;
  }

module _ (x : Externals) (root : Text) where
  kept : (o : Operation) (w : World) → IsPlaced w.db → IsPlaced (perform (fs_backend x root) o w).db
  kept o = perform-IsPlaced x root o

  pub fs_backend-WritesKeep : WritesKeep IsPlaced (fs_backend x root)
  unfolding perform
  fs_backend-WritesKeep = record {
    create_container_keep = λ a c l m. record { at = kept (create_container a c l m) };
    delete_container_keep = λ a c. record { at = kept (delete_container a c) };
    set_container_metadata_keep = λ a c m. record { at = kept (set_container_metadata a c m) };
    set_container_acl_keep = λ a c l. record { at = kept (set_container_acl a c l) };
    put_blob_keep = λ a c b body t h m. record { at = kept (put_blob a c b body t h m) };
    set_blob_properties_keep = λ a c b p. record { at = kept (set_blob_properties a c b p) };
    set_blob_metadata_keep = λ a c b m. record { at = kept (set_blob_metadata a c b m) };
    delete_blob_keep = λ a c b. record { at = kept (delete_blob a c b) };
    put_block_keep = λ a c b id body. record { at = kept (put_block a c b id body) };
    put_block_list_keep = λ a c b refs t m. record { at = kept (put_block_list a c b refs t m) };
  }
