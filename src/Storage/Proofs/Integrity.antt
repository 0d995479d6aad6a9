-- ===== src/Storage/Proofs/Integrity.antt =====
-- Every operation of the backend keeps every block in a container that exists, whatever faults come; so
-- does every sequence of operations.
use mert_blob_storage.Base.{ℕ, Option, none, some, List, [], ◌∷◌}
use mert_blob_storage.Base.Text.{Text}
use mert_blob_storage.Core.Model.{PublicAccessLevel}
use mert_blob_storage.Storage.Externals.{Externals, Metadata}
use mert_blob_storage.Storage.Exec.{World}
use mert_blob_storage.Storage.Types.{ByteStream, BlobPropertiesPatch, BlockRef, ByteRange}
use mert_blob_storage.Storage.MetadataDb.Rows.{CommittedBlockRow}
use mert_blob_storage.Storage.FsBackend
use mert_blob_storage.Storage.FsBackend.Blocks.{Resolved}
use mert_blob_storage.Storage.Backend.{StorageBackend, fs_backend}
use mert_blob_storage.Storage.Proofs.Keeps.{keeps_rules, Keeps, Keeps-bind}
use mert_blob_storage.Storage.Proofs.FsKeeps.{
  Keeps-sys, Keeps-open_file, Keeps-remove_file_if_exists, Keeps-write_stream_atomic,
  Keeps-concatenate_files_atomic,
}
use mert_blob_storage.Storage.Proofs.Placed.{IsPlaced, Here}
use mert_blob_storage.Storage.Proofs.Guards.{Keeps-guarded, delete_container_sound}
use mert_blob_storage.Storage.Db.{Db}
use mert_blob_storage.Storage.Proofs.MetadataIntegrity.{
  metadata_sound, account_keys_sound, or_internal_sound, stage_block_inside,
  commit_block_list_inside, get_staged_block_sound, get_committed_blocks_sound,
}

ruleset backend_rules = (
  metadata_sound, Keeps-sys, Keeps-open_file, Keeps-remove_file_if_exists,
  Keeps-write_stream_atomic, Keeps-concatenate_files_atomic,
)

module _ (x : Externals) (root : Text) where
  create_container_sound :
      (a c : Text) (l : PublicAccessLevel) (m : Metadata)
      → Keeps IsPlaced (FsBackend.Containers.create_container x root a c l m)
  unfolding FsBackend.Containers.create_container
  create_container_sound a c l m = search backend_rules

  get_container_properties_sound :
      (a c : Text) → Keeps IsPlaced (FsBackend.Containers.get_container_properties x root a c)
  unfolding FsBackend.Containers.get_container_properties
  get_container_properties_sound a c = search backend_rules

  set_container_metadata_sound :
      (a c : Text) (m : Metadata)
      → Keeps IsPlaced (FsBackend.Containers.set_container_metadata x root a c m)
  unfolding FsBackend.Containers.set_container_metadata
  set_container_metadata_sound a c m = search backend_rules

  set_container_acl_sound :
      (a c : Text) (l : PublicAccessLevel)
      → Keeps IsPlaced (FsBackend.Containers.set_container_acl x root a c l)
  unfolding FsBackend.Containers.set_container_acl
  set_container_acl_sound a c l = search backend_rules

  list_containers_sound :
      (a : Text) (p m : Option Text) (n : ℕ)
      → Keeps IsPlaced (FsBackend.Containers.list_containers x root a p m n)
  unfolding FsBackend.Containers.list_containers
  list_containers_sound a p m n = search backend_rules

  list_blobs_sound :
      (a c : Text) (p d m : Option Text) (n : ℕ)
      → Keeps IsPlaced (FsBackend.Containers.list_blobs x root a c p d m n)
  unfolding FsBackend.Containers.list_blobs
  list_blobs_sound a c p d m n = search backend_rules

  check_md5_sound :
      (h d : Option Text) (p : Text) → Keeps IsPlaced (FsBackend.Blobs.check_md5 x root h d p)
  unfolding FsBackend.Blobs.check_md5
  check_md5_sound h d p = search backend_rules

  seek_range_sound : (r : Option ByteRange) → Keeps IsPlaced (FsBackend.Blobs.seek_range x root r)
  unfolding FsBackend.Blobs.seek_range
  seek_range_sound none = search backend_rules
  seek_range_sound (some r) = search backend_rules

  put_blob_sound :
      (a c b : Text) (body : ByteStream) (t h : Option Text) (m : Metadata)
      → Keeps IsPlaced (FsBackend.Blobs.put_blob x root a c b body t h m)
  unfolding FsBackend.Blobs.put_blob
  put_blob_sound a c b body t h m = search (backend_rules, check_md5_sound) depth 9

  get_blob_sound :
      (a c b : Text) (r : Option (ℕ × ℕ)) → Keeps IsPlaced (FsBackend.Blobs.get_blob x root a c b r)
  unfolding FsBackend.Blobs.get_blob
  get_blob_sound a c b r = search (backend_rules, seek_range_sound) depth 9

  get_blob_properties_sound :
      (a c b : Text) → Keeps IsPlaced (FsBackend.Blobs.get_blob_properties x root a c b)
  unfolding FsBackend.Blobs.get_blob_properties
  get_blob_properties_sound a c b = search backend_rules

  set_blob_properties_sound :
      (a c b : Text) (p : BlobPropertiesPatch)
      → Keeps IsPlaced (FsBackend.Blobs.set_blob_properties x root a c b p)
  unfolding FsBackend.Blobs.set_blob_properties
  set_blob_properties_sound a c b p = search backend_rules

  set_blob_metadata_sound :
      (a c b : Text) (m : Metadata)
      → Keeps IsPlaced (FsBackend.Blobs.set_blob_metadata x root a c b m)
  unfolding FsBackend.Blobs.set_blob_metadata
  set_blob_metadata_sound a c b m = search backend_rules

  delete_blob_sound : (a c b : Text) → Keeps IsPlaced (FsBackend.Blobs.delete_blob x root a c b)
  unfolding FsBackend.Blobs.delete_blob
  delete_blob_sound a c b = search backend_rules

  put_block_sound :
      (a c b id : Text) (body : ByteStream)
      → Keeps IsPlaced (FsBackend.Blocks.put_block x root a c b id body)
  unfolding FsBackend.Blocks.put_block
  put_block_sound a c b id body = Keeps-guarded x a c _ (λ row.
      search (keeps_rules, or_internal_sound, Keeps-write_stream_atomic, stage_block_inside) depth
        9)

  resolve_blocks-Keeps :
      {P : Db → Type 0} (a c b : Text) (known : List CommittedBlockRow) (refs : List BlockRef)
      → Keeps P (FsBackend.Blocks.resolve_blocks x root a c b known refs)
  unfolding FsBackend.Blocks.resolve_blocks
  resolve_blocks-Keeps a c b known [] = search keeps_rules
  resolve_blocks-Keeps a c b known (r ∷ rs) =
      Keeps-bind _ _ (get_staged_block_sound a c b _) (λ staged.
        Keeps-bind _ _ (search keeps_rules) (λ entry.
          Keeps-bind _ _ (resolve_blocks-Keeps a c b known rs) (λ more. search keeps_rules)))

  remove_parts-Keeps :
      {P : Db → Type 0} (parts : List Text) → Keeps P (FsBackend.Blocks.remove_parts x root parts)
  unfolding FsBackend.Blocks.remove_parts
  remove_parts-Keeps [] = search keeps_rules
  remove_parts-Keeps (p ∷ ps) =
      Keeps-bind _ _ (search (keeps_rules, Keeps-remove_file_if_exists))
        (λ _. remove_parts-Keeps ps)

  assemble_inside :
      (a c b : Text) (resolved : List Resolved) (t : Option Text) (m : Metadata)
      → Keeps (Here a c) (FsBackend.Blocks.assemble x root a c b resolved t m)
  unfolding FsBackend.Blocks.assemble
  assemble_inside a c b resolved t m =
      search
        (
          keeps_rules, or_internal_sound, Keeps-concatenate_files_atomic, commit_block_list_inside,
          remove_parts-Keeps,
        )
        depth 9

  put_block_list_sound :
      (a c b : Text) (refs : List BlockRef) (t : Option Text) (m : Metadata)
      → Keeps IsPlaced (FsBackend.Blocks.put_block_list x root a c b refs t m)
  unfolding FsBackend.Blocks.put_block_list
  put_block_list_sound a c b refs t m = Keeps-guarded x a c _ (λ row.
      search (keeps_rules, get_committed_blocks_sound, resolve_blocks-Keeps, assemble_inside) depth
        9)

get_block_list_sound : (a c b : Text) → Keeps IsPlaced (FsBackend.Blocks.get_block_list a c b)
unfolding FsBackend.Blocks.get_block_list
get_block_list_sound a c b = search backend_rules

-- One call of the trait `StorageBackend`.
pub data Operation : Type 0 where
  account_keys : Text → Operation
  create_container : Text → Text → PublicAccessLevel → Metadata → Operation
  delete_container get_container_properties : Text → Text → Operation
  set_container_metadata : Text → Text → Metadata → Operation
  set_container_acl : Text → Text → PublicAccessLevel → Operation
  list_containers : Text → Option Text → Option Text → ℕ → Operation
  list_blobs : Text → Text → Option Text → Option Text → Option Text → ℕ → Operation
  put_blob : Text → Text → Text → ByteStream → Option Text → Option Text → Metadata → Operation
  get_blob : Text → Text → Text → Option (ℕ × ℕ) → Operation
  get_blob_properties delete_blob get_block_list : Text → Text → Text → Operation
  set_blob_properties : Text → Text → Text → BlobPropertiesPatch → Operation
  set_blob_metadata : Text → Text → Text → Metadata → Operation
  put_block : Text → Text → Text → Text → ByteStream → Operation
  put_block_list : Text → Text → Text → List BlockRef → Option Text → Metadata → Operation

-- The world that a call leaves, whether it succeeds or fails.
unfoldable pub perform : StorageBackend → Operation → World → World
perform s (account_keys a) w = (s.account_keys a w).1
perform s (create_container a c l m) w = (s.create_container a c l m w).1
perform s (delete_container a c) w = (s.delete_container a c w).1
perform s (get_container_properties a c) w = (s.get_container_properties a c w).1
perform s (set_container_metadata a c m) w = (s.set_container_metadata a c m w).1
perform s (set_container_acl a c l) w = (s.set_container_acl a c l w).1
perform s (list_containers a p m n) w = (s.list_containers a p m n w).1
perform s (list_blobs a c p d m n) w = (s.list_blobs a c p d m n w).1
perform s (put_blob a c b body t h m) w = (s.put_blob a c b body t h m w).1
perform s (get_blob a c b r) w = (s.get_blob a c b r w).1
perform s (get_blob_properties a c b) w = (s.get_blob_properties a c b w).1
perform s (delete_blob a c b) w = (s.delete_blob a c b w).1
perform s (get_block_list a c b) w = (s.get_block_list a c b w).1
perform s (set_blob_properties a c b p) w = (s.set_blob_properties a c b p w).1
perform s (set_blob_metadata a c b m) w = (s.set_blob_metadata a c b m w).1
perform s (put_block a c b id body) w = (s.put_block a c b id body w).1
perform s (put_block_list a c b refs t m) w = (s.put_block_list a c b refs t m w).1

unfoldable pub perform_all : StorageBackend → List Operation → World → World
perform_all s [] w = w
perform_all s (o ∷ os) w = perform_all s os (perform s o w)

module _ (x : Externals) (root : Text) where
  pub perform-IsPlaced :
      (o : Operation) (w : World) → IsPlaced w.db → IsPlaced (perform (fs_backend x root) o w).db
  unfolding perform
  perform-IsPlaced (account_keys a) w h = (account_keys_sound a).at w h
  perform-IsPlaced (create_container a c l m) w h = (create_container_sound x root a c l m).at w h
  perform-IsPlaced (delete_container a c) w h = (delete_container_sound x root a c).at w h
  perform-IsPlaced (get_container_properties a c) w h =
      (get_container_properties_sound x root a c).at w h
  perform-IsPlaced (set_container_metadata a c m) w h =
      (set_container_metadata_sound x root a c m).at w h
  perform-IsPlaced (set_container_acl a c l) w h = (set_container_acl_sound x root a c l).at w h
  perform-IsPlaced (list_containers a p m n) w h = (list_containers_sound x root a p m n).at w h
  perform-IsPlaced (list_blobs a c p d m n) w h = (list_blobs_sound x root a c p d m n).at w h
  perform-IsPlaced (put_blob a c b body t g m) w h = (put_blob_sound x root a c b body t g m).at w h
  perform-IsPlaced (get_blob a c b r) w h = (get_blob_sound x root a c b r).at w h
  perform-IsPlaced (get_blob_properties a c b) w h = (get_blob_properties_sound x root a c b).at w h
  perform-IsPlaced (delete_blob a c b) w h = (delete_blob_sound x root a c b).at w h
  perform-IsPlaced (get_block_list a c b) w h = (get_block_list_sound a c b).at w h
  perform-IsPlaced (set_blob_properties a c b p) w h =
      (set_blob_properties_sound x root a c b p).at w h
  perform-IsPlaced (set_blob_metadata a c b m) w h = (set_blob_metadata_sound x root a c b m).at w h
  perform-IsPlaced (put_block a c b id body) w h = (put_block_sound x root a c b id body).at w h
  perform-IsPlaced (put_block_list a c b refs t m) w h =
      (put_block_list_sound x root a c b refs t m).at w h

-- Whatever backend operations are called one after another, with whatever arguments and whatever
-- calls of SQLite and of the file system fail, every staged and every committed block stays in a
-- container that exists, if it was. No key of the tables demands it: blocks are only written where the
-- container is found, and a container takes its blocks with it.
pub perform_all-IsPlaced :
    (x : Externals) (root : Text) (os : List Operation) (w : World)
    → IsPlaced w.db
    → IsPlaced (perform_all (fs_backend x root) os w).db
unfolding perform_all
perform_all-IsPlaced x root [] w h = h
perform_all-IsPlaced x root (o ∷ os) w h =
    perform_all-IsPlaced x root os (perform (fs_backend x root) o w) (perform-IsPlaced x root o w h)
