-- ===== src/Storage/Proofs/Rows.antt =====
-- What the queries by primary key see after the statements on the same table.
use mert_blob_storage.Base.{◌≡◌, refl, true, Option, none, some, arith}
use mert_blob_storage.Base.Lists.{find, upsert}
use mert_blob_storage.Base.Tables.{exists_iff_find, find-upsert, merged}
use mert_blob_storage.Base.Text.{Text, eq_refl}
use mert_blob_storage.Storage.Db.{Db, ContainersRow, BlobsRow, is_container, is_blob}
use mert_blob_storage.Storage.Exec.{ok}
use mert_blob_storage.Storage.MetadataDb.Statements.{
  has_container, select_container, is_live, select_blob, overwrite_blob, upsert_blob,
}

pub has_container_of_select :
    (a c : Text) (r : ContainersRow) (db : Db)
    → select_container a c db ≡ some r
    → has_container a c db ≡ true
unfolding has_container select_container
has_container_of_select a c r db h =
    ground (arith, exists_iff_find (is_container a c) db.containers)

pub is_blob_of_is_live :
    (a c b : Text) (r : BlobsRow) → is_live a c b r ≡ true → is_blob a c b r ≡ true
unfolding is_live
is_blob_of_is_live a c b r h = ground arith

pub is_blob_self : (n : BlobsRow) → is_blob n.account_name n.container_name n.blob_name n ≡ true
unfolding is_blob
is_blob_self n = simp eq_refl

is_live_self :
    (n : BlobsRow) → n.committed ≡ 1 → is_live n.account_name n.container_name n.blob_name n ≡ true
unfolding is_live
is_live_self n h = ground (arith, is_blob_self n)

is_live-overwrite :
    (a c b : Text) (n r : BlobsRow)
    → is_blob a c b r ≡ true
    → is_live a c b (overwrite_blob n r) ≡ true
unfolding is_live is_blob overwrite_blob
is_live-overwrite a c b n r h = ground arith

-- The row that is stored for a blob: the new one, or the old one with the named columns replaced.
abbrev pub stored : BlobsRow → Db → BlobsRow
stored n db =
    merged n (overwrite_blob n)
      (find (is_blob n.account_name n.container_name n.blob_name) db.blobs)

abbrev pub with_blob : BlobsRow → Db → Db
with_blob n db = record db {
  blobs =
      upsert (is_blob n.account_name n.container_name n.blob_name) n (overwrite_blob n) db.blobs;
}

pub upsert_blob_lem :
    (n : BlobsRow) (db : Db)
    → has_container n.account_name n.container_name db ≡ true
    → upsert_blob n db ≡ ok (with_blob n db)
unfolding upsert_blob
upsert_blob_lem n db h = rw h

-- The upserted row is the one that the next query by its key finds.
pub select_blob-upsert :
    (n : BlobsRow) (db : Db)
    → n.committed ≡ 1
    → select_blob n.account_name n.container_name n.blob_name (with_blob n db) ≡ some (stored n db)
unfolding select_blob
select_blob-upsert n db h =
    let p = is_blob n.account_name n.container_name n.blob_name in
    let q = is_live n.account_name n.container_name n.blob_name in
    find-upsert p q n (overwrite_blob n) (is_blob_of_is_live _ _ _) (is_live-overwrite _ _ _ n)
      (is_live_self n h) db.blobs

-- Whatever row was there before, these columns are the new ones.
overwrite-columns :
    (n : BlobsRow) (old : Option BlobsRow)
    → ((merged n (overwrite_blob n) old).content_length ≡ n.content_length)
      × ((merged n (overwrite_blob n) old).storage_path ≡ n.storage_path)
unfolding overwrite_blob
overwrite-columns n none = (refl, refl)
overwrite-columns n (some r) = (refl, refl)

pub stored-columns :
    (n : BlobsRow) (db : Db)
    → ((stored n db).content_length ≡ n.content_length)
      × ((stored n db).storage_path ≡ n.storage_path)
stored-columns n db =
    overwrite-columns n (find (is_blob n.account_name n.container_name n.blob_name) db.blobs)
