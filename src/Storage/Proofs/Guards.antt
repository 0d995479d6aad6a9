-- ===== src/Storage/Proofs/Guards.antt =====
-- What an operation may rely on once it has found its container.
use mert_blob_storage.Base.{inl, inr, Option-cases}
use mert_blob_storage.Base.Text.{Text}
use mert_blob_storage.Core.Error.{AzureError}
use mert_blob_storage.Storage.Externals.{Externals}
use mert_blob_storage.Storage.Db.{Db}
use mert_blob_storage.Storage.Exec.{
  Exec, Result, ok, err, ◌>>=◌, or_default, call, fetch, next_fault,
}
use mert_blob_storage.Storage.MetadataDb.Rows.{ContainerRow}
use mert_blob_storage.Storage.MetadataDb.Containers.{get_container, require_container}
use mert_blob_storage.Storage.MetadataDb.Statements.{has_container, select_container}
use mert_blob_storage.Storage.FsBackend
use mert_blob_storage.Storage.Proofs.Keeps.{Keeps}
use mert_blob_storage.Storage.Proofs.Outcomes.{Post, Ends, Ends-bind}
use mert_blob_storage.Storage.Proofs.Rows.{has_container_of_select}
use mert_blob_storage.Storage.Proofs.Placed.{IsPlaced, Here, swept-IsPlaced}
use mert_blob_storage.Storage.Proofs.Deletion.{delete_container_all_or_nothing}

module _ {E A : Type 0} {P Q : Db → Type 0} where
  weaken-Post :
      (k : (db : Db) → P db → Q db) (r : Result E A) (db : Db) → P db → Post (λ _. Q) Q r db
  weaken-Post k (ok a) db h = k db h
  weaken-Post k (err e) db h = k db h

  -- what keeps `P` ends with what follows from it
  Ends-weaken : (m : Exec E A) → Keeps P m → ((db : Db) → P db → Q db) → Ends P m (λ _. Q) Q
  Ends-weaken m h k = record { at = λ w p. weaken-Post k (m w).0 (m w).1.db (h.at w p) }

module _ {E A : Type 0} (P : Db → Type 0) where
  either-Post : (r : Result E A) (db : Db) → Post (λ _. P) P r db → P db
  either-Post (ok a) db h = h
  either-Post (err e) db h = h

module _ {E A : Type 0} {P : Db → Type 0} where
  Keeps-Ends : (m : Exec E A) → Ends P m (λ _. P) P → Keeps P m
  Keeps-Ends m h = record { at = λ w p. either-Post P (m w).0 (m w).1.db (h.at w p) }

module _ (x : Externals) (a c : Text) where
  -- the row that was found is in the table
  require_container-Ends : Ends IsPlaced (require_container x a c) (λ _. Here a c) IsPlaced
  unfolding require_container get_container or_default fetch call ◌>>=◌ has_container
  require_container-Ends = record {
    at = λ w h. elim (Option-cases (next_fault w.faults)) [
      | inr (message, e) ↦ rw e h
      | inl e ↦ elim (Option-cases (select_container a c w.db)) [
        | inl f ↦ rw (e, f) h
        | inr (row, f) ↦ rw (e, f) (h, has_container_of_select a c row w.db f)
      ]
    ];
  }

  -- behind the guard, the container is there
  pub Keeps-guarded :
      {A : Type 0} (f : ContainerRow → Exec AzureError A)
      → ((row : ContainerRow) → Keeps (Here a c) (f row))
      → Keeps IsPlaced (require_container x a c >>= f)
  Keeps-guarded f k =
      Keeps-Ends _
        (Ends-bind _ f require_container-Ends (λ row. Ends-weaken (f row) (k row) (λ db h. h.0)))

module _ (x : Externals) (root a c : Text) where
  pub delete_container_sound : Keeps IsPlaced (FsBackend.Containers.delete_container x root a c)
  delete_container_sound = record {
    at = λ w h. elim (delete_container_all_or_nothing x root a c w) [
      | inl (done, e) ↦ rw e (swept-IsPlaced w.db h a c)
      | inr (f, failed, e) ↦ rw e h
    ];
  }
