-- ===== src/Tests/StorageExamples.antt =====
-- The theorems about the storage backend, at inputs that meet their hypotheses.
use mert_blob_storage.Base.{
  ◌≡◌, ◌≤◌, ◌<◌, ◌-◌, List, ◌⊎◌, min, refl, none, some, [], ◌∷◌, map, arith,
}
use mert_blob_storage.Base.Lists.{length}
use mert_blob_storage.Base.Text.{codes}
use mert_blob_storage.Core.Error.{azure_error, invalid_range}
use mert_blob_storage.Storage.Exec.{World, ok, err}
use mert_blob_storage.Storage.Types.{BlobProps, BlobPayload}
use mert_blob_storage.Storage.FsBackend.Blobs.{put_blob, get_blob, resolve_range}
use mert_blob_storage.Storage.FsIo.{store_file, erase_file, concatenate_files_atomic}
use mert_blob_storage.Storage.Proofs.Assembly.{Part, path_of, concatenate_files_atomic_joins}
use mert_blob_storage.Storage.Proofs.Calm.{calm, tmp_path}
use mert_blob_storage.Storage.Proofs.RoundTrip.{
  get_blob-put_blob, get_blob_range-put_blob, resolve_range_exact, slice,
}
use mert_blob_storage.Tests.Sample.{sample, root, shelf, stocked}
use mert_blob_storage.Tests.Runs.{runs_base, runs_store, runs_backend}

get_blob-put_blob_example :
    (props : BlobProps) × (w : World) × (put_blob sample root
        (codes "acct")
        (codes "c")
        (codes "b")
        (map ok (codes "hel" ∷ codes "lo" ∷ []))
        none
        (some (codes "hello"))
        []
        (calm stocked [] 0)
      ≡ (ok props, w))
    × (get_blob sample root (codes "acct") (codes "c") (codes "b") none w
        ≡ (ok (record { props = props; total_len = 5; range = none; reader = codes "hello" }), w))
unfolding runs_base runs_store runs_backend
get_blob-put_blob_example =
    get_blob-put_blob sample root (codes "acct") (codes "c") (codes "b")
      (codes "hel" ∷ codes "lo" ∷ []) none (some (codes "hello")) [] stocked [] 0 shelf refl
      (omega arith) refl refl

get_blob_range-put_blob_example :
    (payload : BlobPayload) × ((get_blob sample root
        (codes "acct")
        (codes "c")
        (codes "b")
        (some (1, 9))
        (put_blob sample root
          (codes "acct")
          (codes "c")
          (codes "b")
          (map ok (codes "hel" ∷ codes "lo" ∷ []))
          none
          none
          []
          (calm stocked [] 0)).1).0
      ≡ ok payload)
    × (payload.range ≡ some (record { start = 1; end = 4 }))
    × (payload.reader ≡ slice 1 4 (codes "hello"))
    × (length payload.reader ≡ 4)
unfolding runs_base runs_store runs_backend
get_blob_range-put_blob_example =
    get_blob_range-put_blob sample root (codes "acct") (codes "c") (codes "b")
      (codes "hel" ∷ codes "lo" ∷ []) none none [] stocked [] 0 shelf 1 9 refl (omega arith) refl
      refl (omega arith) (omega arith)

resolve_range_exact_example :
    (2 ≤ 9
      → 2 < 5
      → resolve_range (some (2, 9)) 5 ≡ ok (some (record { start = 2; end = min 9 (5 - 1) })))
    × ((9 < 2) ⊎ (5 ≤ 2) → resolve_range (some (2, 9)) 5 ≡ err (azure_error invalid_range))
resolve_range_exact_example = resolve_range_exact 2 9 5

abbrev two_parts : List Part
two_parts = (codes "p1", codes "hel") ∷ (codes "p2", codes "lo") ∷ []

concatenate_files_atomic_joins_example :
    concatenate_files_atomic sample
      (codes "tmp")
      (codes "final")
      (map path_of two_parts)
      (calm stocked two_parts 0)
    ≡ (
      ok (5, codes "hello"),
      calm stocked
          (store_file
            (codes "final")
            (codes "hello")
            (erase_file (tmp_path sample (codes "tmp") 0) two_parts))
          1,
    )
unfolding runs_base runs_store
concatenate_files_atomic_joins_example =
    concatenate_files_atomic_joins sample (codes "tmp") (codes "final") two_parts stocked two_parts
      0 ((refl, refl), ((refl, refl), tt)) (omega arith)
