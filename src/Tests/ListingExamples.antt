-- ===== src/Tests/ListingExamples.antt =====
-- The theorem about the pages of a listing, at the first page of two blobs.
use mert_blob_storage.Base.{◌<◌, refl, none, [], ◌∷◌}
use mert_blob_storage.Base.Text.{codes}
use mert_blob_storage.Storage.Db.{BlobsRow}
use mert_blob_storage.Storage.Exec.{World}
use mert_blob_storage.Storage.MetadataDb.Rows.{row_to_blob}
use mert_blob_storage.Storage.Proofs.Paging.{remaining, list_blobs_progress}
use mert_blob_storage.Tests.Sample.{sample, start, note, noted}
use mert_blob_storage.Tests.Runs.{runs_base, runs_store}

abbrev first_note : BlobsRow
first_note = record note { blob_name = codes "a" }

abbrev two_notes : World
two_notes = record start { db = record noted { blobs = note ∷ first_note ∷ [] } }

list_blobs_progress_example :
    remaining sample (codes "acct") (codes "c") [] (codes "a") two_notes.db
    < remaining sample (codes "acct") (codes "c") [] [] two_notes.db
unfolding runs_base runs_store
list_blobs_progress_example =
    list_blobs_progress sample (codes "acct") (codes "c") none none 1 two_notes
      (row_to_blob sample first_note ∷ []) (codes "a") refl
