-- ===== src/Storage/FsBackend/Containers.antt =====
-- The container operations of crates/blobstore-storage/src/fs_backend.rs, with `list_blobs` and its
-- grouping by a delimiter.
use mathlib.Core.Option
use mert_blob_storage.Base.{
  ℕ, suc, ◌+◌, Bool, true, false, ◌||◌, Option, none, some, List, [], ◌∷◌, ◌++◌, map, min, ltb, leb,
  eqb, if◌then◌else◌,
}
use mert_blob_storage.Base.Lists.{length, take, drop}
use mert_blob_storage.Base.Text.{Text, codes, ◌==◌, strip_prefix}
use mert_blob_storage.Core.Error.{AzureError}
use mert_blob_storage.Core.Model.{PublicAccessLevel}
use mert_blob_storage.Storage.Externals.{Externals, Metadata}
use mert_blob_storage.Storage.Exec.{
  Exec, Result, ok, err, map_err, lift, pure, ◌>>=◌, ◌>>◌, ignore, call,
}
use mert_blob_storage.Storage.Types.{
  ContainerProps, ContainerListPage, BlobListEntry, BlobListPage, Failure, api_error, panicking,
}
use mert_blob_storage.Storage.PathLayout.{join, container_root}
use mert_blob_storage.Storage.FsIo.{Files, sys, remove_file_if_exists}
use mert_blob_storage.Storage.MetadataDb
use mert_blob_storage.Storage.MetadataDb.Rows.{BlobRow, or_internal}
use mert_blob_storage.Storage.FsBackend.Common.{container_row_to_props, blob_row_to_props}

abbrev in_dir : Option Text → Bool
in_dir none = false
in_dir (some _) = true

-- remove_dir_all: every file whose path is under the directory
unfoldable pub erase_dir : Text → Files → Files
erase_dir dir [] = []
erase_dir dir ((q, content) ∷ fs) =
    let rest = erase_dir dir fs in
    if in_dir (strip_prefix (dir ++ codes "/") q) then rest else (q, content) ∷ rest

-- str::find of a text, as a byte index
unfoldable pub find_text : Text → Text → Option ℕ
find_text needle [] = if in_dir (strip_prefix needle []) then some 0 else none
find_text needle (c ∷ s) =
    if in_dir (strip_prefix needle (c ∷ s)) then some 0 else Option.map suc (find_text needle s)

unfoldable pub contains_text : Text → List Text → Bool
contains_text t [] = false
contains_text t (u ∷ us) = (u == t) || contains_text t us

-- str::is_char_boundary, at an index that is not beyond the text: no character goes on there
abbrev is_first_byte : Text → Bool
is_first_byte [] = true
is_first_byte (c ∷ s) = ltb c 128 || leb 192 c

unfoldable pub is_char_boundary : ℕ → Text → Bool
is_char_boundary i s = eqb i 0 || is_first_byte (drop i s)

-- the virtual directory that a name falls into, if it holds the delimiter after the prefix; the slice
-- of the name panics in the middle of a character
unfoldable pub group_prefix : Text → Option Text → Text → Result Failure (Option Text)
unfolding find_text is_char_boundary
group_prefix prefix none name = ok none
group_prefix prefix (some delim) name =
    let start = min (length prefix) (length name) in
    let rest = drop start name in
    if is_char_boundary start name
    then ok (Option.map (λ idx. prefix ++ take (idx + length delim) rest) (find_text delim rest))
    else err panicking

abbrev push_prefix : List Text → Text → List Text
push_prefix prefixes group =
    if contains_text group prefixes then prefixes else prefixes ++ group ∷ []

abbrev entry : BlobRow → BlobListEntry
entry row = record { props = blob_row_to_props row }

-- one round of the loop of `list_blobs`
abbrev add_row :
    List BlobListEntry × List Text → BlobRow → Option Text → List BlobListEntry × List Text
add_row (blobs, prefixes) row none = (blobs ++ entry row ∷ [], prefixes)
add_row (blobs, prefixes) row (some group) = (blobs, push_prefix prefixes group)

unfoldable pub group_rows :
    Text
    → Option Text
    → List BlobRow
    → List BlobListEntry × List Text
    → Result Failure (List BlobListEntry × List Text)
unfolding group_prefix contains_text
group_rows prefix delimiter [] acc = ok acc
group_rows prefix delimiter (row ∷ rows) acc = elim (group_prefix prefix delimiter row.name) [
  | err e ↦ err e
  | ok group ↦ group_rows prefix delimiter rows (add_row acc row group)
]

module _ (x : Externals) (storage_root : Text) where
  unfoldable pub create_container :
      Text → Text → PublicAccessLevel → Metadata → Exec AzureError ContainerProps
  create_container account container public_access metadata = do
    row ← MetadataDb.Containers.create_container x account container public_access metadata
    or_internal x sys
    pure (container_row_to_props row)

  -- the loop over the paths of the deleted rows
  unfoldable pub remove_blob_files : List Text → Exec AzureError (Unit {0})
  remove_blob_files [] = pure tt
  remove_blob_files (rel ∷ rels) = do
    ignore (remove_file_if_exists (join storage_root rel))
    remove_blob_files rels

  unfoldable pub delete_container : Text → Text → Exec AzureError (Unit {0})
  unfolding remove_blob_files
  delete_container account container = do
    blob_rel_paths ← MetadataDb.Containers.delete_container x account container
    remove_blob_files blob_rel_paths
    ignore (
        call (λ w. (
          ok tt,
          record w { files = erase_dir (container_root storage_root account container) w.files },
        )))

  unfoldable pub get_container_properties : Text → Text → Exec AzureError ContainerProps
  get_container_properties account container = do
    row ← MetadataDb.Containers.require_container x account container
    pure (container_row_to_props row)

  unfoldable pub set_container_metadata : Text → Text → Metadata → Exec AzureError ContainerProps
  set_container_metadata account container metadata = do
    row ← MetadataDb.Containers.set_container_metadata x account container metadata
    pure (container_row_to_props row)

  unfoldable pub set_container_acl :
      Text → Text → PublicAccessLevel → Exec AzureError ContainerProps
  set_container_acl account container public_access = do
    row ← MetadataDb.Containers.set_container_acl x account container public_access
    pure (container_row_to_props row)

  unfoldable pub list_containers :
      Text → Option Text → Option Text → ℕ → Exec AzureError ContainerListPage
  list_containers account prefix marker max_results = do
    (rows, next_marker) ← MetadataDb.Listing.list_containers x account prefix marker max_results
    pure (record { containers = map container_row_to_props rows; next_marker = next_marker })

  unfoldable pub list_blobs :
      Text → Text → Option Text → Option Text → Option Text → ℕ → Exec Failure BlobListPage
  unfolding group_rows
  list_blobs account container prefix delimiter marker max_results = do
    (rows, next_marker) ←
        map_err api_error
          (MetadataDb.Listing.list_blobs x account container prefix marker max_results)
    (blobs, prefixes) ← lift (group_rows (Option.get_or prefix (codes "")) delimiter rows ([], []))
    pure (record { blobs = blobs; blob_prefixes = prefixes; next_marker = next_marker })
