-- ===== src/Tests/Storage.antt =====
-- Runs of the storage backend on small inputs.
use mert_blob_storage.Base.{◌≡◌, refl, none, some, []}
use mert_blob_storage.Base.Text.{Text, codes}
use mert_blob_storage.Core.Error.{AzureError}
use mert_blob_storage.Core.Model.{off}
use mert_blob_storage.Storage.Exec.{Exec, ok, ◌>>=◌, ◌>>◌}
use mert_blob_storage.Storage.FsBackend
use mert_blob_storage.Tests.Runs.{runs_base, runs_store, runs_backend}
use mert_blob_storage.Tests.Sample.{sample, start, body_of, root}

write_and_read : Text → Exec AzureError Text
write_and_read t = do
  FsBackend.Containers.create_container sample root (codes "acct") (codes "c") off []
  FsBackend.Blobs.put_blob sample root (codes "acct") (codes "c") (codes "b") (body_of t) none none
      []
  got ← FsBackend.Blobs.get_blob sample root (codes "acct") (codes "c") (codes "b") (some (1, 2))
  λ w. (ok got.reader, w)

range_of_hello : (write_and_read (codes "hello") start).0 ≡ ok (codes "el")
unfolding write_and_read runs_base runs_store runs_backend
range_of_hello = refl
