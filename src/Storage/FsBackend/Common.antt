-- ===== src/Storage/FsBackend/Common.antt =====
-- crates/blobstore-storage/src/fs_backend.rs: the paths and the conversions that the operations
-- share.
use mathlib.Core.Option
use mert_blob_storage.Base.{Option, [], ◌∷◌, eqb, if◌then◌else◌}
use mert_blob_storage.Base.Text.{Text, codes}
use mert_blob_storage.Core.Model.{block_blob, parse}
use mert_blob_storage.Storage.Externals.{Externals}
use mert_blob_storage.Storage.Types.{ContainerProps, BlobProps}
use mert_blob_storage.Storage.PathLayout.{join, blob_rel_path, staged_block_rel_path}
use mert_blob_storage.Storage.MetadataDb.Rows.{ContainerRow, BlobRow}

-- `.replace('\\', "/")`
unfoldable pub slashes : Text → Text
slashes [] = []
slashes (c ∷ s) = (if eqb c b'\\' then b'/' else c) ∷ slashes s

-- accounts/{account}/containers/{container}
unfoldable pub container_rel : Text → Text → Text
unfolding join
container_rel account container =
    join (join (join (codes "accounts") account) (codes "containers")) container

module _ (x : Externals) (storage_root : Text) where
  -- the absolute path, and the path that the database keeps
  unfoldable pub blob_paths : Text → Text → Text → Text × Text
  unfolding container_rel slashes
  blob_paths account container blob =
      let rel = join (container_rel account container) (blob_rel_path x blob) in
      (join storage_root rel, slashes rel)

  unfoldable pub staged_block_path : Text → Text → Text → Text → Text × Text
  unfolding container_rel slashes
  staged_block_path account container blob block_id =
      let rel = join (container_rel account container) (staged_block_rel_path x blob block_id) in
      (join storage_root rel, slashes rel)

unfoldable pub tmp_dir : Text → Text → Text
unfolding join
tmp_dir storage_root account =
    join (join (join storage_root (codes "accounts")) account) (codes "tmp")

unfoldable pub container_row_to_props : ContainerRow → ContainerProps
container_row_to_props row = record {
  name = row.name;
  public_access = row.public_access_level;
  metadata = row.metadata;
  etag = row.etag;
  last_modified = row.last_modified;
}

unfoldable pub blob_row_to_props : BlobRow → BlobProps
blob_row_to_props row = record {
  name = row.name;
  blob_type = Option.get_or (parse row.blob_type) block_blob;
  content_length = row.content_length;
  content_type = row.content_type;
  content_md5 = row.content_md5;
  content_encoding = row.content_encoding;
  content_language = row.content_language;
  cache_control = row.cache_control;
  content_disposition = row.content_disposition;
  metadata = row.metadata;
  etag = row.etag;
  last_modified = row.last_modified;
}

unfoldable pub md5_hex_to_base64 : Externals → Text → Option Text
md5_hex_to_base64 x hex_str = Option.map x.base64_encode (x.hex_decode hex_str)
