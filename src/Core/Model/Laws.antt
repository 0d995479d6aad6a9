-- ===== src/Core/Model/Laws.antt =====
-- The access level and the blob type survive the database and the header.
use mert_blob_storage.Base.{◌≡◌, refl, some}
use mert_blob_storage.Base.Text.{◌==◌}
use mert_blob_storage.Core.Model.{
  PublicAccessLevel, off, blob, container, as_header_value, as_db_str, from_db_str,
  from_header_value, BlobType, block_blob, append_blob, page_blob, as_str, parse,
}

-- An access level is read back from the database column and from the header as it was written.
pub access_level_roundtrip :
    (l : PublicAccessLevel)
    → (from_db_str (as_db_str l) ≡ l) × (from_header_value (as_header_value l) ≡ l)
unfolding as_db_str from_db_str as_header_value from_header_value ◌==◌
access_level_roundtrip off = (refl, refl)
access_level_roundtrip blob = (refl, refl)
access_level_roundtrip container = (refl, refl)

pub parse-as_str : (t : BlobType) → parse (as_str t) ≡ some t
unfolding parse as_str ◌==◌
parse-as_str block_blob = refl
parse-as_str append_blob = refl
parse-as_str page_blob = refl
