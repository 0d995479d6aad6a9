-- ===== src/Tests/OverwriteExamples.antt =====
-- The theorems about a blob that is there already, and about sequences of operations, at inputs that
-- meet their hypotheses.
use mert_blob_storage.Base.{◌⊎◌, ◌≡◌, refl, none, some, [], ◌∷◌, map, arith}
use mert_blob_storage.Base.Text.{codes}
use mert_blob_storage.Core.Error.{AzureError, azure_error, md5_mismatch}
use mert_blob_storage.Core.Model.{off}
use mert_blob_storage.Storage.Exec.{World, ok, err, not_found}
use mert_blob_storage.Storage.Types.{BlobProps, BlobPropertiesPatch}
use mert_blob_storage.Storage.MetadataDb.Rows.{to_internal, parse_metadata}
use mert_blob_storage.Storage.FsBackend.Blobs.{put_blob, get_blob, set_blob_properties}
use mert_blob_storage.Storage.FsBackend.Containers.{delete_container as delete_container_of}
use mert_blob_storage.Storage.Proofs.Deletion.{swept, delete_container_all_or_nothing}
use mert_blob_storage.Storage.Backend.{fs_backend}
use mert_blob_storage.Storage.Proofs.Calm.{calm}
use mert_blob_storage.Storage.Proofs.Placed.{IsPlaced}
use mert_blob_storage.Storage.Proofs.Integrity.{
  create_container, delete_container, put_block, perform_all, perform_all-IsPlaced,
}
use mert_blob_storage.Storage.Proofs.Overwrite.{
  put_blob_mismatch_loses_blob, set_blob_properties_replaces,
}
use mert_blob_storage.Tests.Sample.{sample, root, start, shelf, note, noted, body_of}
use mert_blob_storage.Tests.Runs.{runs_base, runs_store, runs_backend}

start-IsPlaced : IsPlaced start.db
start-IsPlaced = record { staged = tt; committed = tt }

perform_all-IsPlaced_example :
    IsPlaced
      (perform_all
        (fs_backend sample root)
        (create_container (codes "acct") (codes "c") off []
          ∷ put_block (codes "acct") (codes "c") (codes "b") (codes "id") (body_of (codes "hi"))
          ∷ delete_container (codes "acct") (codes "c")
          ∷ [])
        start).db
perform_all-IsPlaced_example =
    perform_all-IsPlaced sample root
      (create_container (codes "acct") (codes "c") off []
        ∷ put_block (codes "acct") (codes "c") (codes "b") (codes "id") (body_of (codes "hi"))
        ∷ delete_container (codes "acct") (codes "c")
        ∷ [])
      start start-IsPlaced

put_blob_mismatch_loses_blob_example :
    ((put_blob sample root
        (codes "acct")
        (codes "c")
        (codes "b")
        (map ok (codes "new" ∷ []))
        none
        (some (codes "old"))
        []
        (calm noted [] 0)).0
      ≡ err (azure_error md5_mismatch))
    × ((put_blob sample root
          (codes "acct")
          (codes "c")
          (codes "b")
          (map ok (codes "new" ∷ []))
          none
          (some (codes "old"))
          []
          (calm noted [] 0)).1.db
        ≡ noted)
    × ((get_blob sample root
          (codes "acct")
          (codes "c")
          (codes "b")
          none
          (put_blob sample root
            (codes "acct")
            (codes "c")
            (codes "b")
            (map ok (codes "new" ∷ []))
            none
            (some (codes "old"))
            []
            (calm noted [] 0)).1).0
        ≡ err (to_internal sample not_found))
unfolding runs_base runs_store runs_backend
put_blob_mismatch_loses_blob_example =
    put_blob_mismatch_loses_blob sample root (codes "acct") (codes "c") (codes "b")
      (codes "new" ∷ []) none (some (codes "old")) [] noted [] 0 shelf note refl refl refl refl
      (omega arith) refl

abbrev only_type : BlobPropertiesPatch
only_type = record {
  content_type = some (codes "text/html");
  content_md5 = none;
  content_encoding = none;
  content_language = none;
  cache_control = none;
  content_disposition = none;
}

-- the encoding of the blob, which the patch does not mention, is gone
set_blob_properties_replaces_example :
    (props : BlobProps) × ((set_blob_properties sample root
        (codes "acct")
        (codes "c")
        (codes "b")
        only_type
        (calm noted [] 0)).0
      ≡ ok props)
    × (props.content_type ≡ some (codes "text/html"))
    × (props.content_md5 ≡ none)
    × (props.content_encoding ≡ none)
    × (props.content_language ≡ none)
    × (props.cache_control ≡ none)
    × (props.content_disposition ≡ none)
    × (props.content_length ≡ 2)
    × (props.metadata ≡ parse_metadata sample [])
unfolding runs_base runs_store runs_backend
set_blob_properties_replaces_example =
    set_blob_properties_replaces sample root (codes "acct") (codes "c") (codes "b") only_type noted
      [] 0 note refl

-- the third statement fails on a full disk
abbrev full_disk : World
full_disk = record {
  db = noted;
  files = [];
  ticks = 0;
  faults = none ∷ none ∷ none ∷ none ∷ some (codes "disk full") ∷ [];
}

delete_container_all_or_nothing_example :
    (((delete_container_of sample root (codes "acct") (codes "c") full_disk).0 ≡ ok tt)
      × ((delete_container_of sample root (codes "acct") (codes "c") full_disk).1.db
          ≡ swept (codes "acct") (codes "c") full_disk.db))
    ⊎ ((e : AzureError) × ((delete_container_of sample root (codes "acct") (codes "c") full_disk).0
          ≡ err e)
        × ((delete_container_of sample root (codes "acct") (codes "c") full_disk).1.db
            ≡ full_disk.db))
delete_container_all_or_nothing_example =
    delete_container_all_or_nothing sample root (codes "acct") (codes "c") full_disk
