-- ===== src/Core/Model.antt =====
-- crates/blobstore-core/src/model.rs: container access levels and blob types.
pub mod Laws
use mert_blob_storage.Base.{Bool, true, false, Option, none, some, if◌then◌else◌}
use mert_blob_storage.Base.Text.{Text, codes, ◌==◌}

pub data PublicAccessLevel : Type 0 where
  off blob container : PublicAccessLevel

unfoldable pub as_header_value : PublicAccessLevel → Option Text
as_header_value off = none
as_header_value blob = some (codes "blob")
as_header_value container = some (codes "container")

unfoldable pub as_db_str : PublicAccessLevel → Text
as_db_str off = codes "off"
as_db_str blob = codes "blob"
as_db_str container = codes "container"

unfoldable pub from_db_str : Text → PublicAccessLevel
from_db_str s =
    if s == codes "blob" then blob else if s == codes "container" then container else off

unfoldable pub from_header_value : Option Text → PublicAccessLevel
from_header_value none = off
from_header_value (some v) =
    if v == codes "blob" then blob else if v == codes "container" then container else off

unfoldable pub allows_blob_read : PublicAccessLevel → Bool
allows_blob_read off = false
allows_blob_read blob = true
allows_blob_read container = true

unfoldable pub allows_container_listing : PublicAccessLevel → Bool
allows_container_listing off = false
allows_container_listing blob = false
allows_container_listing container = true

pub data BlobType : Type 0 where
  block_blob append_blob page_blob : BlobType

unfoldable pub as_str : BlobType → Text
as_str block_blob = codes "BlockBlob"
as_str append_blob = codes "AppendBlob"
as_str page_blob = codes "PageBlob"

unfoldable pub parse : Text → Option BlobType
parse s =
    if s == codes "BlockBlob"
    then some block_blob
    else if s == codes "AppendBlob"
    then some append_blob
    else if s == codes "PageBlob"
    then some page_blob
    else none
