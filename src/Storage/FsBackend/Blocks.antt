-- ===== src/Storage/FsBackend/Blocks.antt =====
-- The block operations of crates/blobstore-storage/src/fs_backend.rs.
use mathlib.Core.Option
use mert_blob_storage.Base.{
  ℕ, Bool, false, ◌||◌, Option, none, some, List, [], ◌∷◌, map, if◌then◌else◌,
}
use mert_blob_storage.Base.Text.{Text, codes, ◌==◌, is_empty}
use mert_blob_storage.Core.Error.{AzureError, azure_error, invalid_block_list}
use mert_blob_storage.Storage.Externals.{Externals, Metadata}
use mert_blob_storage.Storage.Exec.{Exec, Result, ok, err, pure, raise, lift, ◌>>=◌, ◌>>◌, ignore}
use mert_blob_storage.Storage.Types.{
  ByteStream, BlobProps, BlockRefKind, committed, uncommitted, latest, BlockRef, CommittedBlock,
  BlockListResult,
}
use mert_blob_storage.Storage.PathLayout.{join}
use mert_blob_storage.Storage.FsIo.{
  remove_file_if_exists, write_stream_atomic, concatenate_files_atomic,
}
use mert_blob_storage.Storage.MetadataDb
use mert_blob_storage.Storage.MetadataDb.Rows.{StagedBlockRow, CommittedBlockRow, or_internal}
use mert_blob_storage.Storage.FsBackend.Common.{
  blob_paths, staged_block_path, tmp_dir, blob_row_to_props, md5_hex_to_base64,
}

-- `committed_map.get(id)`: of two blocks with one id the later one is in the map
unfoldable pub committed_size : Text → List CommittedBlockRow → Option ℕ
committed_size id [] = none
committed_size id (b ∷ bs) = elim (committed_size id bs) [
  | some size ↦ some size
  | none ↦ if b.block_id == id then some b.block_size else none
]

-- an entry of `resolved`: the block's id, its size and the path of its bytes
abbrev pub Resolved : Type 0
Resolved = Text × ℕ × Text

abbrev pub size_of : Resolved → Text × ℕ
size_of (id, size, path) = (id, size)

abbrev pub part_of : Resolved → Text
part_of (id, size, path) = path

unfoldable pub any_empty : List Text → Bool
any_empty [] = false
any_empty (p ∷ ps) = is_empty p || any_empty ps

unfoldable pub to_committed_block : CommittedBlockRow → CommittedBlock
to_committed_block b = record { block_id = b.block_id; size = b.block_size }

module _ (x : Externals) (storage_root : Text) where
  -- the `match block_ref.kind` of `put_block_list`
  unfoldable pub resolve_block :
      BlockRefKind → Option StagedBlockRow → Option ℕ → Result AzureError (ℕ × Text)
  resolve_block uncommitted (some s) size = ok (s.block_size, join storage_root s.storage_path)
  resolve_block uncommitted none size = err (azure_error invalid_block_list)
  resolve_block committed (some s) (some size) = ok (size, join storage_root s.storage_path)
  resolve_block committed none (some size) = err (azure_error invalid_block_list)
  resolve_block committed staged none = err (azure_error invalid_block_list)
  resolve_block latest (some s) size = ok (s.block_size, join storage_root s.storage_path)
  resolve_block latest none (some size) = ok (size, codes "")
  resolve_block latest none none = err (azure_error invalid_block_list)

  -- the loop over the block references
  unfoldable pub resolve_blocks :
      Text → Text → Text → List CommittedBlockRow → List BlockRef → Exec AzureError (List Resolved)
  resolve_blocks account container blob known [] = pure []
  resolve_blocks account container blob known (r ∷ rs) = do
    staged ← MetadataDb.Blocks.get_staged_block account container blob r.block_id
    (size, path) ← lift (resolve_block r.kind staged (committed_size r.block_id known))
    more ← resolve_blocks account container blob known rs
    pure ((r.block_id, size, path) ∷ more)

  -- the cleanup of the staged files
  unfoldable pub remove_parts : List Text → Exec AzureError (Unit {0})
  remove_parts [] = pure tt
  remove_parts (p ∷ ps) = do
    if is_empty p then pure tt else ignore (remove_file_if_exists p)
    remove_parts ps

  unfoldable pub put_block : Text → Text → Text → Text → ByteStream → Exec AzureError Text
  put_block account container blob block_id body = do
    MetadataDb.Containers.require_container x account container
    let (abs_path, rel_path) = staged_block_path x storage_root account container blob block_id
    (size, md5_hex) ←
        or_internal x (write_stream_atomic x (tmp_dir storage_root account) abs_path body)
    MetadataDb.Blocks.stage_block x account container blob block_id size
        (md5_hex_to_base64 x md5_hex) rel_path
    pure (Option.get_or (md5_hex_to_base64 x md5_hex) (codes ""))

  -- the part of `put_block_list` behind the resolution of the references
  unfoldable pub assemble :
      Text → Text → Text → List Resolved → Option Text → Metadata → Exec AzureError BlobProps
  unfolding remove_parts any_empty
  assemble account container blob resolved content_type metadata = do
    let (abs_final, rel_final) = blob_paths x storage_root account container blob
    let part_paths = map part_of resolved
    if any_empty part_paths then raise (azure_error invalid_block_list) else pure tt
    (total_size, md5_hex) ←
        or_internal x
          (concatenate_files_atomic x (tmp_dir storage_root account) abs_final part_paths)
    row ←
        MetadataDb.Blocks.commit_block_list x account container blob (map size_of resolved)
          rel_final total_size (Option.get_or (md5_hex_to_base64 x md5_hex) (codes "")) content_type
          metadata
    remove_parts part_paths
    pure (blob_row_to_props row)

  unfoldable pub put_block_list :
      Text → Text → Text → List BlockRef → Option Text → Metadata → Exec AzureError BlobProps
  unfolding resolve_blocks resolve_block committed_size assemble
  put_block_list account container blob blocks content_type metadata = do
    MetadataDb.Containers.require_container x account container
    known ← MetadataDb.Blocks.get_committed_blocks account container blob
    resolved ← resolve_blocks account container blob known blocks
    assemble account container blob resolved content_type metadata

unfoldable pub get_block_list : Text → Text → Text → Exec AzureError BlockListResult
get_block_list account container blob = do
  known ← MetadataDb.Blocks.get_committed_blocks account container blob
  staged ← MetadataDb.Blocks.get_uncommitted_blocks account container blob
  pure (record {
    committed = map to_committed_block known;
    uncommitted = map to_committed_block staged;
  })
