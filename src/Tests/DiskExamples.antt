-- ===== src/Tests/DiskExamples.antt =====
-- The theorems about published files, where a call in the middle fails.
use mert_blob_storage.Base.{◌≡◌, ◌⊎◌, none, some, List, [], ◌∷◌, map, All}
use mert_blob_storage.Base.Lists.{flatten}
use mert_blob_storage.Base.Text.{Text, codes}
use mert_blob_storage.Storage.Exec.{World, ok, err, IoError}
use mert_blob_storage.Storage.Types.{ByteStream}
use mert_blob_storage.Storage.FsIo.{read_file, write_stream_atomic, concatenate_files_atomic}
use mert_blob_storage.Storage.Proofs.Calm.{tmp_path}
use mert_blob_storage.Storage.Proofs.Publishing.{OnlyAt, Published}
use mert_blob_storage.Storage.Proofs.Atomicity.{write_stream_atomic_whole}
use mert_blob_storage.Storage.Proofs.AtomicParts.{concatenate_files_atomic_whole}
use mert_blob_storage.Tests.Sample.{sample, start}
use mert_blob_storage.Tests.Runs.{runs_base, runs_store}

-- the fifth call fails
abbrev shaky : World
shaky = record start {
  files = (codes "/p", codes "ab") ∷ [];
  faults = none ∷ none ∷ none ∷ none ∷ some (codes "no space") ∷ [];
}

abbrev greeting : ByteStream
greeting = ok (codes "he") ∷ ok (codes "llo") ∷ []

write_stream_atomic_whole_example :
    ((e : IoError) × ((write_stream_atomic sample (codes "/tmp") (codes "/f") greeting shaky).0
        ≡ err e)
      × OnlyAt
          (tmp_path sample (codes "/tmp") 0)
          shaky.files
          (write_stream_atomic sample (codes "/tmp") (codes "/f") greeting shaky).1.files)
    ⊎ ((chunks : List Text) × (greeting ≡ map ok chunks)
        × Published
            (tmp_path sample (codes "/tmp") 0)
            (codes "/f")
            (flatten chunks)
            shaky.files
            (write_stream_atomic sample (codes "/tmp") (codes "/f") greeting shaky).1.files)
write_stream_atomic_whole_example =
    write_stream_atomic_whole sample (codes "/tmp") (codes "/f") greeting shaky

part_elsewhere : All (λ q. ¬ (tmp_path sample (codes "/tmp") 0 ≡ q)) (codes "/p" ∷ [])
unfolding runs_base runs_store
part_elsewhere = (λ e. cc, tt)

concatenate_files_atomic_whole_example :
    ((e : IoError) × ((concatenate_files_atomic sample
          (codes "/tmp")
          (codes "/f")
          (codes "/p" ∷ [])
          shaky).0
        ≡ err e)
      × OnlyAt
          (tmp_path sample (codes "/tmp") 0)
          shaky.files
          (concatenate_files_atomic sample
            (codes "/tmp")
            (codes "/f")
            (codes "/p" ∷ [])
            shaky).1.files)
    ⊎ ((texts : List Text) × (map (λ q. read_file q shaky.files) (codes "/p" ∷ []) ≡ map some texts)
        × Published
            (tmp_path sample (codes "/tmp") 0)
            (codes "/f")
            (flatten texts)
            shaky.files
            (concatenate_files_atomic sample
              (codes "/tmp")
              (codes "/f")
              (codes "/p" ∷ [])
              shaky).1.files)
concatenate_files_atomic_whole_example =
    concatenate_files_atomic_whole sample (codes "/tmp") (codes "/f") (codes "/p" ∷ []) shaky
      part_elsewhere
