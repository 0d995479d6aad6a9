-- ===== src/Storage/MetadataDb/Listing.antt =====
-- `list_containers` and `list_blobs` of crates/blobstore-storage/src/metadata_db.rs.
use mathlib.Core.Option
use mert_blob_storage.Base.{
  ℕ, ◌+◌, ◌%◌, ◌^◌, Bool, ◌&&◌, Option, none, List, ◌++◌, map, eqb, ltb, if◌then◌else◌,
}
use mert_blob_storage.Base.Lists.{length, take, get_last?, select, sort_by}
use mert_blob_storage.Base.Text.{Text, codes, ◌==◌, lt}
use mert_blob_storage.Core.Error.{AzureError}
use mert_blob_storage.Storage.Externals.{Externals}
use mert_blob_storage.Storage.Db.{Db, ContainersRow, BlobsRow, is_blob_in}
use mert_blob_storage.Storage.Exec.{Exec, pure, ◌>>=◌, ◌>>◌, fetch}
use mert_blob_storage.Storage.MetadataDb.Rows.{
  ContainerRow, BlobRow, or_internal, row_to_container, row_to_blob,
}
use mert_blob_storage.Storage.MetadataDb.Containers.{require_container}

-- ORDER BY container_name, and ORDER BY blob_name
unfoldable pub by_container_name : ContainersRow → ContainersRow → Bool
by_container_name r s = lt r.container_name s.container_name

unfoldable pub by_blob_name : BlobsRow → BlobsRow → Bool
by_blob_name r s = lt r.blob_name s.blob_name

-- `if rows.len() > max_results { truncate; last().map(name) } else { None }`
module _ {A : Type 0} where
  unfoldable pub page : (A → Text) → ℕ → List A → List A × Option Text
  page name max_results rows =
      if ltb max_results (length rows)
      then (take max_results rows, Option.map name (get_last? (take max_results rows)))
      else (rows, none)

module _ (x : Externals) where
  -- the WHERE clauses
  unfoldable pub lists_container : Text → Text → Text → ContainersRow → Bool
  lists_container account prefix marker r =
      (r.account_name == account)
      && x.like r.container_name (prefix ++ codes "%")
      && lt marker r.container_name

  unfoldable pub lists_blob : Text → Text → Text → Text → BlobsRow → Bool
  lists_blob account container prefix marker r =
      is_blob_in account container r
      && eqb r.committed 1
      && x.like r.blob_name (prefix ++ codes "%")
      && lt marker r.blob_name

  -- SELECT … ORDER BY container_name LIMIT limit
  unfoldable pub query_containers : Text → Text → Text → ℕ → Db → List ContainersRow
  unfolding lists_container by_container_name
  query_containers account prefix marker limit db =
      take limit
        (sort_by by_container_name (select (lists_container account prefix marker) db.containers))

  unfoldable pub query_blobs : Text → Text → Text → Text → ℕ → Db → List BlobsRow
  unfolding lists_blob by_blob_name
  query_blobs account container prefix marker limit db =
      take limit
        (sort_by by_blob_name (select (lists_blob account container prefix marker) db.blobs))

  -- `max_results + 1` is computed on `u32`, and wraps round in a release build
  unfoldable pub list_containers :
      Text → Option Text → Option Text → ℕ → Exec AzureError (List ContainerRow × Option Text)
  list_containers account prefix marker max_results = do
    rows ← or_internal x (
        fetch (
          query_containers account (Option.get_or prefix (codes ""))
            (Option.get_or marker (codes "")) ((max_results + 1) % 2 ^ 32)))
    pure (page (λ c. c.name) max_results (map (row_to_container x) rows))

  unfoldable pub list_blobs :
      Text → Text → Option Text → Option Text → ℕ → Exec AzureError (List BlobRow × Option Text)
  list_blobs account container prefix marker max_results = do
    require_container x account container
    rows ← or_internal x (
        fetch (
          query_blobs account container (Option.get_or prefix (codes ""))
            (Option.get_or marker (codes "")) (max_results + 1)))
    pure (page (λ b. b.name) max_results (map (row_to_blob x) rows))
