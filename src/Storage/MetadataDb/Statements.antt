-- ===== src/Storage/MetadataDb/Statements.antt =====
-- The SQL statements of crates/blobstore-storage/src/metadata_db.rs, as functions of the database.
-- Foreign keys are enforced; a violated constraint leaves the database as it was.
use mert_blob_storage.Base.{Bool, ◌&&◌, ◌++◌, Option, List, [], ◌∷◌, eqb, if◌then◌else◌}
use mert_blob_storage.Base.Lists.{find, select, remove, update, exists, upsert}
use mert_blob_storage.Base.Text.{Text}
use mert_blob_storage.Storage.Db.{
  Db, AccountsRow, ContainersRow, BlobsRow, StagedBlocksRow, CommittedBlocksRow, is_account,
  is_container, is_blob, is_blob_in, is_staged, is_staged_of, is_staged_in, is_committed_of,
  is_committed_in,
}
use mert_blob_storage.Storage.Exec.{
  Result, ok, err, IoError, unique_violation, constraint_violation,
}

-- ON CONFLICT(account_name) DO UPDATE SET key1_base64, key2_base64
unfoldable pub rekey : AccountsRow → AccountsRow → AccountsRow
rekey n r = record r { key1_base64 = n.key1_base64; key2_base64 = n.key2_base64 }

unfoldable pub upsert_account : AccountsRow → Db → Db
upsert_account n db = record db {
  accounts = upsert (is_account n.account_name) n (rekey n) db.accounts;
}

unfoldable pub has_account : Text → Db → Bool
has_account a db = exists (is_account a) db.accounts

unfoldable pub has_container : Text → Text → Db → Bool
has_container a c db = exists (is_container a c) db.containers

unfoldable pub has_blob_in : Text → Text → Db → Bool
has_blob_in a c db = exists (is_blob_in a c) db.blobs

-- INSERT INTO containers; the account is a foreign key
unfoldable pub insert_container : ContainersRow → Db → Result IoError Db
unfolding has_account has_container
insert_container n db =
    if has_container n.account_name n.container_name db
    then err unique_violation
    else if has_account n.account_name db
    then ok (record db { containers = db.containers ++ n ∷ [] })
    else err constraint_violation

unfoldable pub select_container : Text → Text → Db → Option ContainersRow
select_container a c db = find (is_container a c) db.containers

unfoldable pub update_container : Text → Text → (ContainersRow → ContainersRow) → Db → Db
update_container a c f db = record db { containers = update (is_container a c) f db.containers }

-- DELETE FROM containers; refused while a blob refers to the row
unfoldable pub delete_container_row : Text → Text → Db → Result IoError Db
unfolding has_blob_in
delete_container_row a c db =
    if has_blob_in a c db
    then err constraint_violation
    else ok (record db { containers = remove (is_container a c) db.containers })

-- DELETE FROM {committed_blocks, staged_blocks, blobs} WHERE account_name, container_name
unfoldable pub delete_committed_in : Text → Text → Db → Db
delete_committed_in a c db = record db {
  committed_blocks = remove (is_committed_in a c) db.committed_blocks;
}

unfoldable pub delete_staged_in : Text → Text → Db → Db
delete_staged_in a c db = record db { staged_blocks = remove (is_staged_in a c) db.staged_blocks }

unfoldable pub delete_blobs_in : Text → Text → Db → Db
delete_blobs_in a c db = record db { blobs = remove (is_blob_in a c) db.blobs }

-- SELECT storage_path FROM blobs WHERE account_name, container_name
unfoldable pub select_blobs_in : Text → Text → Db → List BlobsRow
select_blobs_in a c db = select (is_blob_in a c) db.blobs

-- SELECT * FROM blobs WHERE … AND committed = 1
unfoldable pub is_live : Text → Text → Text → BlobsRow → Bool
unfolding is_blob
is_live a c b r = is_blob a c b r && eqb r.committed 1

unfoldable pub select_blob : Text → Text → Text → Db → Option BlobsRow
select_blob a c b db = find (is_live a c b) db.blobs

-- ON CONFLICT(account_name, container_name, blob_name) DO UPDATE SET …: the columns that are not
-- named keep their values
unfoldable pub overwrite_blob : BlobsRow → BlobsRow → BlobsRow
overwrite_blob n r = record r {
  content_length = n.content_length;
  content_type = n.content_type;
  content_md5 = n.content_md5;
  metadata_json = n.metadata_json;
  etag = n.etag;
  last_modified = n.last_modified;
  committed = 1;
  storage_path = n.storage_path;
}

unfoldable pub upsert_blob : BlobsRow → Db → Result IoError Db
unfolding has_container
upsert_blob n db =
    if has_container n.account_name n.container_name db
    then ok (record db {
      blobs =
          upsert (is_blob n.account_name n.container_name n.blob_name) n (overwrite_blob n)
            db.blobs;
    })
    else err constraint_violation

unfoldable pub update_blob : Text → Text → Text → (BlobsRow → BlobsRow) → Db → Db
update_blob a c b f db = record db { blobs = update (is_blob a c b) f db.blobs }

unfoldable pub delete_blob_row : Text → Text → Text → Db → Db
delete_blob_row a c b db = record db { blobs = remove (is_blob a c b) db.blobs }

unfoldable pub delete_committed_of : Text → Text → Text → Db → Db
delete_committed_of a c b db = record db {
  committed_blocks = remove (is_committed_of a c b) db.committed_blocks;
}

unfoldable pub delete_staged_of : Text → Text → Text → Db → Db
delete_staged_of a c b db = record db {
  staged_blocks = remove (is_staged_of a c b) db.staged_blocks;
}

-- ON CONFLICT(account_name, container_name, blob_name, block_id) DO UPDATE SET …
unfoldable pub restage : StagedBlocksRow → StagedBlocksRow → StagedBlocksRow
restage n r = record r {
  block_size = n.block_size;
  md5 = n.md5;
  storage_path = n.storage_path;
  staged_at = n.staged_at;
}

unfoldable pub upsert_staged : StagedBlocksRow → Db → Db
upsert_staged n db = record db {
  staged_blocks =
      upsert (is_staged n.account_name n.container_name n.blob_name n.block_id) n (restage n)
        db.staged_blocks;
}

unfoldable pub select_staged : Text → Text → Text → Text → Db → Option StagedBlocksRow
select_staged a c b id db = find (is_staged a c b id) db.staged_blocks

-- the primary key of committed_blocks
unfoldable pub is_committed_at : CommittedBlocksRow → CommittedBlocksRow → Bool
is_committed_at n r =
    is_committed_of n.account_name n.container_name n.blob_name r && eqb r.block_index n.block_index

unfoldable pub insert_committed : CommittedBlocksRow → Db → Result IoError Db
unfolding is_committed_at
insert_committed n db =
    if exists (is_committed_at n) db.committed_blocks
    then err unique_violation
    else ok (record db { committed_blocks = db.committed_blocks ++ n ∷ [] })
