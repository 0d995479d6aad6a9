-- ===== src/Storage/Proofs/MetadataIntegrity.antt =====
-- Every operation of the metadata store keeps every block in a container that exists, whatever faults
-- come: the ones that write blocks where they have found the container.
use mert_blob_storage.Base.{ℕ, ◌+◌, ◌≡◌, refl, Option, List, [], ◌∷◌}
use mert_blob_storage.Base.Text.{Text}
use mert_blob_storage.Core.Model.{PublicAccessLevel}
use mert_blob_storage.Storage.Externals.{Externals, Metadata}
use mert_blob_storage.Storage.Db.{Db, AccountsRow, ContainersRow, BlobsRow}
use mert_blob_storage.Storage.Exec.{Exec, IoError, execute, try_execute}
use mert_blob_storage.Storage.MetadataDb
use mert_blob_storage.Storage.MetadataDb.Rows.{generate_etag, now_rfc1123, now_iso, or_internal}
use mert_blob_storage.Storage.MetadataDb.Statements.{
  upsert_account, insert_container, update_container, upsert_blob, update_blob, delete_blob_row,
  delete_committed_of, delete_staged_of,
}
use mert_blob_storage.Storage.Proofs.Keeps.{
  Keeps, Keeps-call, Keeps-execute, Keeps-try_execute, Keeps-map_err, Keeps-bind, keeps_rules,
}
use mert_blob_storage.Storage.Proofs.Placed.{
  IsPlaced, Here, upsert_account-IsPlaced, insert_container-IsPlaced, update_container-IsPlaced,
  upsert_blob-IsPlaced, update_blob-IsPlaced, delete_blob_row-IsPlaced,
  delete_committed_of-IsPlaced, delete_staged_of-IsPlaced, delete_committed_of-Here,
  delete_staged_of-Here, upsert_blob-Here, upsert_staged-Here, insert_committed-Here,
}

pub upsert_account_sound : (n : AccountsRow) → Keeps IsPlaced (execute (upsert_account n))
upsert_account_sound n = Keeps-execute _ (λ db h. upsert_account-IsPlaced db h n)

pub insert_container_sound : (n : ContainersRow) → Keeps IsPlaced (try_execute (insert_container n))
insert_container_sound n =
    Keeps-try_execute _ (λ db db' h e. insert_container-IsPlaced db h n db' e)

pub delete_blob_row_sound : (a c b : Text) → Keeps IsPlaced (execute (delete_blob_row a c b))
delete_blob_row_sound a c b = Keeps-execute _ (λ db h. delete_blob_row-IsPlaced db h a c b)

pub delete_committed_of_sound :
    (a c b : Text) → Keeps IsPlaced (execute (delete_committed_of a c b))
delete_committed_of_sound a c b = Keeps-execute _ (λ db h. delete_committed_of-IsPlaced db h a c b)

pub delete_staged_of_sound : (a c b : Text) → Keeps IsPlaced (execute (delete_staged_of a c b))
delete_staged_of_sound a c b = Keeps-execute _ (λ db h. delete_staged_of-IsPlaced db h a c b)

pub upsert_blob_sound : (n : BlobsRow) → Keeps IsPlaced (try_execute (upsert_blob n))
upsert_blob_sound n = Keeps-try_execute _ (λ db db' h e. upsert_blob-IsPlaced db h n db' e)

pub update_container_sound :
    (a c : Text) (f : ContainersRow → ContainersRow)
    → ((r : ContainersRow) → (f r).account_name ≡ r.account_name)
    → ((r : ContainersRow) → (f r).container_name ≡ r.container_name)
    → Keeps IsPlaced (execute (update_container a c f))
update_container_sound a c f ka kc =
    Keeps-execute _ (λ db h. update_container-IsPlaced db h a c f ka kc)

pub update_blob_sound :
    (a c b : Text) (f : BlobsRow → BlobsRow) → Keeps IsPlaced (execute (update_blob a c b f))
update_blob_sound a c b f = Keeps-execute _ (λ db h. update_blob-IsPlaced db h a c b f)

module _ {P : Db → Type 0} (x : Externals) where
  pub generate_etag_sound : Keeps P (generate_etag x)
  unfolding generate_etag
  generate_etag_sound = record { at = λ w h. h }

  pub now_rfc1123_sound : Keeps P (now_rfc1123 x)
  unfolding now_rfc1123
  now_rfc1123_sound = record { at = λ w h. h }

  pub now_iso_sound : Keeps P (now_iso x)
  unfolding now_iso
  now_iso_sound = record { at = λ w h. h }

  pub or_internal_sound : {A : Type 0} (m : Exec IoError A) → Keeps P m → Keeps P (or_internal x m)
  unfolding or_internal
  or_internal_sound m k = Keeps-map_err _ m k

pub ruleset statements = (
  keeps_rules, generate_etag_sound, now_rfc1123_sound, now_iso_sound, or_internal_sound,
  upsert_account_sound, insert_container_sound, delete_blob_row_sound, delete_committed_of_sound,
  delete_staged_of_sound, upsert_blob_sound,
)

pub marker_sound : {P : Db → Type 0} → Keeps P MetadataDb.Containers.marker
unfolding MetadataDb.Containers.marker
marker_sound = Keeps-call _ (record { at = λ w h. h })

pub account_keys_sound : (a : Text) → Keeps IsPlaced (MetadataDb.Accounts.account_keys a)
unfolding MetadataDb.Accounts.account_keys
account_keys_sound a = search statements

pub get_staged_block_sound :
    {P : Db → Type 0} (a c b id : Text) → Keeps P (MetadataDb.Blocks.get_staged_block a c b id)
unfolding MetadataDb.Blocks.get_staged_block
get_staged_block_sound a c b id = search statements

pub get_committed_blocks_sound :
    {P : Db → Type 0} (a c b : Text) → Keeps P (MetadataDb.Blocks.get_committed_blocks a c b)
unfolding MetadataDb.Blocks.get_committed_blocks
get_committed_blocks_sound a c b = search statements

pub get_uncommitted_blocks_sound :
    {P : Db → Type 0} (a c b : Text) → Keeps P (MetadataDb.Blocks.get_uncommitted_blocks a c b)
unfolding MetadataDb.Blocks.get_uncommitted_blocks
get_uncommitted_blocks_sound a c b = search statements

module _ (x : Externals) where
  pub ensure_account_sound :
      (a k : Text) (k' : Option Text) → Keeps IsPlaced (MetadataDb.Accounts.ensure_account x a k k')
  unfolding MetadataDb.Accounts.ensure_account
  ensure_account_sound a k k' = search statements

  pub require_container_sound :
      {P : Db → Type 0} (a c : Text) → Keeps P (MetadataDb.Containers.require_container x a c)
  unfolding MetadataDb.Containers.require_container
  require_container_sound a c = search statements

  pub create_container_sound :
      (a c : Text) (l : PublicAccessLevel) (m : Metadata)
      → Keeps IsPlaced (MetadataDb.Containers.create_container x a c l m)
  unfolding MetadataDb.Containers.create_container
  create_container_sound a c l m = search statements depth 9

  pub set_container_metadata_sound :
      (a c : Text) (m : Metadata)
      → Keeps IsPlaced (MetadataDb.Containers.set_container_metadata x a c m)
  unfolding MetadataDb.Containers.set_container_metadata
  set_container_metadata_sound a c m =
      search
        (
          statements,
          require_container_sound,
          λ (json etag modified : Text).
              update_container_sound a c
                (λ r. record r { metadata_json = json; etag = etag; last_modified = modified })
                (λ r. refl) (λ r. refl),
        )
        depth 9

  pub set_container_acl_sound :
      (a c : Text) (l : PublicAccessLevel)
      → Keeps IsPlaced (MetadataDb.Containers.set_container_acl x a c l)
  unfolding MetadataDb.Containers.set_container_acl
  set_container_acl_sound a c l =
      search
        (
          statements,
          require_container_sound,
          λ (level etag modified : Text).
              update_container_sound a c
                (λ r. record r {
                  public_access_level = level;
                  etag = etag;
                  last_modified = modified;
                })
                (λ r. refl) (λ r. refl),
        )
        depth 9

  pub list_containers_sound :
      (a : Text) (p m : Option Text) (n : ℕ)
      → Keeps IsPlaced (MetadataDb.Listing.list_containers x a p m n)
  unfolding MetadataDb.Listing.list_containers
  list_containers_sound a p m n = search statements

  pub list_blobs_sound :
      (a c : Text) (p m : Option Text) (n : ℕ)
      → Keeps IsPlaced (MetadataDb.Listing.list_blobs x a c p m n)
  unfolding MetadataDb.Listing.list_blobs
  list_blobs_sound a c p m n = search (statements, require_container_sound)

  pub require_blob_sound :
      {P : Db → Type 0} (a c b : Text) → Keeps P (MetadataDb.Blobs.require_blob x a c b)
  unfolding MetadataDb.Blobs.require_blob
  require_blob_sound a c b = search statements

  pub upsert_blob_single_shot_sound :
      (a c b path : Text) (size : ℕ) (content_type md5 : Option Text) (m : Metadata)
      → Keeps IsPlaced
          (MetadataDb.Blobs.upsert_blob_single_shot x a c b path size content_type md5 m)
  unfolding MetadataDb.Blobs.upsert_blob_single_shot
  upsert_blob_single_shot_sound a c b path size content_type md5 m =
      search (statements, require_container_sound, require_blob_sound) depth 9

  pub set_blob_properties_sound :
      (a c b : Text) (p q r s t u : Option Text)
      → Keeps IsPlaced (MetadataDb.Blobs.set_blob_properties x a c b p q r s t u)
  unfolding MetadataDb.Blobs.set_blob_properties
  set_blob_properties_sound a c b p q r s t u =
      search
        (
          statements,
          require_blob_sound,
          λ (etag modified : Text).
              update_blob_sound a c b (MetadataDb.Blobs.write_properties p q r s t u etag modified),
        )
        depth 9

  pub set_blob_metadata_sound :
      (a c b : Text) (m : Metadata) → Keeps IsPlaced (MetadataDb.Blobs.set_blob_metadata x a c b m)
  unfolding MetadataDb.Blobs.set_blob_metadata
  set_blob_metadata_sound a c b m =
      search
        (
          statements,
          require_blob_sound,
          λ (json etag modified : Text).
              update_blob_sound a c b
                (λ r. record r { metadata_json = json; etag = etag; last_modified = modified }),
        )
        depth 9

  pub delete_blob_sound : (a c b : Text) → Keeps IsPlaced (MetadataDb.Blobs.delete_blob x a c b)
  unfolding MetadataDb.Blobs.delete_blob
  delete_blob_sound a c b = search (statements, require_blob_sound) depth 9

module _ (a c : Text) where
  pub delete_committed_of_inside :
      (b : Text) → Keeps (Here a c) (execute (delete_committed_of a c b))
  delete_committed_of_inside b = Keeps-execute _ (λ db h. delete_committed_of-Here a c db h b)

  pub delete_staged_of_inside : (b : Text) → Keeps (Here a c) (execute (delete_staged_of a c b))
  delete_staged_of_inside b = Keeps-execute _ (λ db h. delete_staged_of-Here a c db h b)

  pub upsert_blob_inside : (n : BlobsRow) → Keeps (Here a c) (try_execute (upsert_blob n))
  upsert_blob_inside n = Keeps-try_execute _ (λ db db' h e. upsert_blob-Here a c db h n db' e)

module _ (x : Externals) (a c : Text) where
  pub stage_block_inside :
      (b id : Text) (size : ℕ) (md5 : Option Text) (path : Text)
      → Keeps (Here a c) (MetadataDb.Blocks.stage_block x a c b id size md5 path)
  unfolding MetadataDb.Blocks.stage_block
  stage_block_inside b id size md5 path = Keeps-bind _ _ (now_iso_sound x) (λ staged_at.
      or_internal_sound x _ (Keeps-execute _ (λ db h. upsert_staged-Here a c db h _ refl refl)))

  insert_blocks_inside :
      (b : Text) (idx : ℕ) (resolved : List (Text × ℕ))
      → Keeps (Here a c) (MetadataDb.Blocks.insert_blocks x a c b idx resolved)
  unfolding MetadataDb.Blocks.insert_blocks
  insert_blocks_inside b idx [] = search keeps_rules
  insert_blocks_inside b idx ((id, size) ∷ rest) =
      Keeps-bind _ _
        (or_internal_sound x _
          (Keeps-try_execute _ (λ db db' h e. insert_committed-Here a c db h _ refl refl db' e)))
        (λ _. insert_blocks_inside b (idx + 1) rest)

  commit_tx_inside :
      (b : Text) (resolved : List (Text × ℕ)) (path : Text) (size : ℕ) (md5 : Text)
      (content_type : Option Text) (m : Metadata)
      → Keeps (Here a c) (MetadataDb.Blocks.commit_tx x a c b resolved path size md5 content_type m)
  unfolding MetadataDb.Blocks.commit_tx
  commit_tx_inside b resolved path size md5 content_type m =
      search
        (
          keeps_rules, generate_etag_sound, now_rfc1123_sound, now_iso_sound, or_internal_sound,
          marker_sound, insert_blocks_inside, delete_committed_of_inside, delete_staged_of_inside,
          upsert_blob_inside,
        )
        depth 14

  pub commit_block_list_inside :
      (b : Text) (resolved : List (Text × ℕ)) (path : Text) (size : ℕ) (md5 : Text)
      (content_type : Option Text) (m : Metadata)
      → Keeps
          (Here a c)
          (MetadataDb.Blocks.commit_block_list x a c b resolved path size md5 content_type m)
  unfolding MetadataDb.Blocks.commit_block_list
  commit_block_list_inside b resolved path size md5 content_type m =
      search (keeps_rules, require_container_sound, commit_tx_inside, require_blob_sound) depth 9

pub ruleset metadata_sound = (
  statements, account_keys_sound, get_staged_block_sound, get_committed_blocks_sound,
  get_uncommitted_blocks_sound, require_container_sound, create_container_sound,
  set_container_metadata_sound, set_container_acl_sound, list_containers_sound, list_blobs_sound,
  require_blob_sound, upsert_blob_single_shot_sound, set_blob_properties_sound,
  set_blob_metadata_sound, delete_blob_sound,
)
