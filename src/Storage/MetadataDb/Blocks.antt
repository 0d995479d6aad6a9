-- ===== src/Storage/MetadataDb/Blocks.antt =====
-- The block operations of crates/blobstore-storage/src/metadata_db.rs.
use mathlib.Core.Option
use mert_blob_storage.Base.{ℕ, ◌+◌, Bool, Option, none, some, List, [], ◌∷◌, map, ltb}
use mert_blob_storage.Base.Lists.{select, sort_by}
use mert_blob_storage.Base.Text.{Text, lt}
use mert_blob_storage.Core.Error.{AzureError}
use mert_blob_storage.Storage.Externals.{Externals, Metadata}
use mert_blob_storage.Storage.Db.{
  Db, StagedBlocksRow, CommittedBlocksRow, is_committed_of, is_staged_of,
}
use mert_blob_storage.Storage.Exec.{
  Exec, pure, ◌>>=◌, ◌>>◌, or_default, fetch, try_execute, execute, transaction,
}
use mert_blob_storage.Storage.MetadataDb.Rows.{
  BlobRow, StagedBlockRow, CommittedBlockRow, dump_metadata, generate_etag, now_rfc1123, now_iso,
  or_internal, row_to_staged, committed_to_block, staged_to_block,
}
use mert_blob_storage.Storage.MetadataDb.Statements.{
  upsert_staged, select_staged, delete_committed_of, delete_staged_of, insert_committed,
  upsert_blob,
}
use mert_blob_storage.Storage.MetadataDb.Containers.{marker, require_container}
use mert_blob_storage.Storage.MetadataDb.Blobs.{new_blob, require_blob}

unfoldable pub get_staged_block :
    Text → Text → Text → Text → Exec AzureError (Option StagedBlockRow)
get_staged_block account container blob block_id =
    or_default none
      (fetch (λ db. Option.map row_to_staged (select_staged account container blob block_id db)))

-- ORDER BY block_index
unfoldable pub by_index : CommittedBlocksRow → CommittedBlocksRow → Bool
by_index r s = ltb r.block_index s.block_index

-- ORDER BY staged_at
unfoldable pub by_staged_at : StagedBlocksRow → StagedBlocksRow → Bool
by_staged_at r s = lt r.staged_at s.staged_at

unfoldable pub select_committed : Text → Text → Text → Db → List CommittedBlockRow
unfolding by_index
select_committed a c b db =
    map committed_to_block (sort_by by_index (select (is_committed_of a c b) db.committed_blocks))

unfoldable pub select_uncommitted : Text → Text → Text → Db → List CommittedBlockRow
unfolding by_staged_at
select_uncommitted a c b db =
    map staged_to_block (sort_by by_staged_at (select (is_staged_of a c b) db.staged_blocks))

unfoldable pub get_committed_blocks : Text → Text → Text → Exec AzureError (List CommittedBlockRow)
get_committed_blocks account container blob =
    or_default [] (fetch (select_committed account container blob))

unfoldable pub get_uncommitted_blocks :
    Text → Text → Text → Exec AzureError (List CommittedBlockRow)
get_uncommitted_blocks account container blob =
    or_default [] (fetch (select_uncommitted account container blob))

module _ (x : Externals) where
  unfoldable pub stage_block :
      Text → Text → Text → Text → ℕ → Option Text → Text → Exec AzureError (Unit {0})
  stage_block account container blob block_id block_size md5 storage_path = do
    staged_at ← now_iso x
    or_internal x (
        execute (
          upsert_staged (record {
            account_name = account;
            container_name = container;
            blob_name = blob;
            block_id = block_id;
            block_size = block_size;
            md5 = md5;
            storage_path = storage_path;
            staged_at = staged_at;
          })))

  -- the loop over `resolved.iter().enumerate()`, from an index
  unfoldable pub insert_blocks :
      Text → Text → Text → ℕ → List (Text × ℕ) → Exec AzureError (Unit {0})
  insert_blocks account container blob idx [] = pure tt
  insert_blocks account container blob idx ((block_id, size) ∷ rest) = do
    or_internal x (
        try_execute (
          insert_committed (record {
            account_name = account;
            container_name = container;
            blob_name = blob;
            block_index = idx;
            block_id = block_id;
            block_size = size;
          })))
    insert_blocks account container blob (idx + 1) rest

  -- the statements between `begin` and `commit`
  unfoldable pub commit_tx :
      Text
      → Text
      → Text
      → List (Text × ℕ)
      → Text
      → ℕ
      → Text
      → Option Text
      → Metadata
      → Exec AzureError (Unit {0})
  unfolding insert_blocks
  commit_tx account container blob resolved storage_path total_size content_md5 content_type
        metadata =
      do
        or_internal x marker
        or_internal x (execute (delete_committed_of account container blob))
        insert_blocks account container blob 0 resolved
        etag ← generate_etag x
        last_modified ← now_rfc1123 x
        created_at ← now_iso x
        or_internal x (
            try_execute (
              upsert_blob (
                new_blob account container blob total_size content_type (some content_md5)
                  (dump_metadata x metadata) etag last_modified created_at storage_path)))
        or_internal x (execute (delete_staged_of account container blob))
        or_internal x marker

  unfoldable pub commit_block_list :
      Text
      → Text
      → Text
      → List (Text × ℕ)
      → Text
      → ℕ
      → Text
      → Option Text
      → Metadata
      → Exec AzureError BlobRow
  commit_block_list account container blob resolved storage_path total_size content_md5 content_type
        metadata =
      do
        require_container x account container
        transaction (
            commit_tx account container blob resolved storage_path total_size content_md5
              content_type metadata)
        require_blob x account container blob
