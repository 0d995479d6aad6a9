-- ===== src/Storage/PathLayout.antt =====
-- crates/blobstore-storage/src/path_layout.rs, over `Path::join` of the standard library (Unix).
use mert_blob_storage.Base.{Bool, true, false, [], ◌∷◌, ◌++◌, eqb, if◌then◌else◌}
use mert_blob_storage.Base.Lists.{take, drop}
use mert_blob_storage.Base.Text.{Text, codes}
use mert_blob_storage.Storage.Externals.{Externals}

abbrev starts_at_root : Text → Bool
starts_at_root [] = false
starts_at_root (c ∷ p) = eqb c b'/'

-- An absolute path replaces the base; otherwise one separator stands between the two.
abbrev needs_separator : Text → Bool
needs_separator [] = false
needs_separator (c ∷ []) = if eqb c b'/' then false else true
needs_separator (c ∷ d ∷ p) = needs_separator (d ∷ p)

unfoldable pub join : Text → Text → Text
join base p =
    if starts_at_root p then p else if needs_separator base then base ++ b'/' ∷ p else base ++ p

module _ (x : Externals) where
  unfoldable pub hash_hex : Text → Text
  hash_hex input = x.hex_encode (x.sha256 input)

  unfoldable pub blob_rel_path : Text → Text
  unfolding join hash_hex
  blob_rel_path blob_name =
      let h = hash_hex blob_name in
      join (join (join (codes "blobs") (take 2 h)) (take 2 (drop 2 h))) (h ++ codes ".bin")

  unfoldable pub staged_block_rel_path : Text → Text → Text
  unfolding join hash_hex
  staged_block_rel_path blob_name block_id =
      join (join (join (codes ".staging") (codes "blocks")) (hash_hex blob_name))
        (hash_hex block_id ++ codes ".blk")

unfoldable pub account_root : Text → Text → Text
unfolding join
account_root storage_root account = join (join storage_root (codes "accounts")) account

unfoldable pub container_root : Text → Text → Text → Text
unfolding account_root join
container_root storage_root account container =
    join (join (account_root storage_root account) (codes "containers")) container
