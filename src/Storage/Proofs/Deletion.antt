-- ===== src/Storage/Proofs/Deletion.antt =====
-- Deleting a container is all or nothing.
use mert_blob_storage.Base.{
  ◌≡◌, refl, sym, ◌∙◌, ap, inl, inr, List, [], ◌∷◌, ◌⊎◌, arith, Bool-cases,
}
use mert_blob_storage.Base.Lists.{remove}
use mert_blob_storage.Base.Text.{Text}
use mert_blob_storage.Core.Error.{AzureError}
use mert_blob_storage.Storage.Externals.{Externals}
use mert_blob_storage.Storage.Db.{Db, is_container, is_blob_in, is_staged_in, is_committed_in}
use mert_blob_storage.Storage.Exec.{World, Exec, Result, ok, err, IoError, ◌>>=◌, fetch, execute}
use mert_blob_storage.Storage.MetadataDb
use mert_blob_storage.Storage.MetadataDb.Rows.{or_internal}
use mert_blob_storage.Storage.MetadataDb.Containers.{marker, delete_container_tx, require_container}
use mert_blob_storage.Storage.MetadataDb.Statements.{
  delete_committed_in, delete_staged_in, delete_blobs_in, delete_container_row, has_blob_in,
}
use mert_blob_storage.Storage.FsBackend
use mert_blob_storage.Storage.Proofs.Keeps.{Keeps, Keeps-call, Keeps-fetch, keeps_rules}
use mert_blob_storage.Storage.Proofs.FsKeeps.{Keeps-remove_file_if_exists}
use mert_blob_storage.Storage.Proofs.Outcomes.{
  Post, Ends, Ends-Keeps, Ends-Keeps_any, Ends-ignore, Ends-bind, Ends-map_err, Ends-pure,
  Ends-transaction, Ends-try_execute, Ends-execute,
}

-- The database without the rows of one container, in all four tables.
abbrev pub swept : Text → Text → Db → Db
swept a c db = record db {
  containers = remove (is_container a c) db.containers;
  blobs = remove (is_blob_in a c) db.blobs;
  staged_blocks = remove (is_staged_in a c) db.staged_blocks;
  committed_blocks = remove (is_committed_in a c) db.committed_blocks;
}

swept_by_statements :
    (a c : Text) (db db' : Db)
    → delete_container_row a c
        (delete_blobs_in a c (delete_staged_in a c (delete_committed_in a c db)))
      ≡ ok db'
    → db' ≡ swept a c db
unfolding delete_container_row delete_blobs_in delete_staged_in delete_committed_in
swept_by_statements a c db db' h =
    elim (Bool-cases
      (has_blob_in a c (delete_blobs_in a c (delete_staged_in a c (delete_committed_in a c db))))) [
        | inl e ↦ ground arith
        | inr e ↦ ground arith
      ]

Keeps-marker : {P : Db → Type 0} → Keeps P marker
unfolding marker
Keeps-marker = Keeps-call _ (record { at = λ w h. h })

module _ (x : Externals) where
  module _ {A : Type 0} {P : Db → Type 0} {Q : A → Db → Type 0} {X : Db → Type 0} where
    Ends-or_internal : (m : Exec IoError A) → Ends P m Q X → Ends P (or_internal x m) Q X
    unfolding or_internal
    Ends-or_internal m k = Ends-map_err _ m k

  module _ {A B : Type 0} {S : B → Db → Type 0} where
    keeps_step :
        {P : Db → Type 0} (m : Exec IoError A) (f : A → Exec AzureError B)
        → Keeps P m
        → ((a : A) → Ends P (f a) S (λ _. Unit {0}))
        → Ends P (or_internal x m >>= f) S (λ _. Unit {0})
    keeps_step {P} m f k h = Ends-bind _ f (Ends-or_internal m (Ends-Keeps_any m k)) h

  module _ {B : Type 0} {S : B → Db → Type 0} where
    execute_step :
        (s : Db → Db) (before : Db) (f : Unit {0} → Exec AzureError B)
        → Ends (λ db. db ≡ s before) (f tt) S (λ _. Unit {0})
        → Ends (λ db. db ≡ before) (or_internal x (execute s) >>= f) S (λ _. Unit {0})
    execute_step s before f h =
        Ends-bind _ f (Ends-or_internal _ (Ends-execute s (λ db e. ap s e) (λ db e. tt))) (λ _. h)

  delete_container_tx-Ends :
      (a c : Text) (before : Db)
      → Ends
          (λ db. db ≡ before)
          (delete_container_tx x a c)
          (λ _ db. db ≡ swept a c before)
          (λ _. Unit {0})
  unfolding delete_container_tx
  delete_container_tx-Ends a c before =
      let d1 = delete_committed_in a c before in
      let d2 = delete_staged_in a c d1 in
      let d3 = delete_blobs_in a c d2 in
      keeps_step marker _ Keeps-marker λ _. keeps_step (fetch _) _ (Keeps-fetch _) λ paths.
        execute_step (delete_committed_in a c) before _ (
          execute_step (delete_staged_in a c) d1 _ (
            execute_step (delete_blobs_in a c) d2 _ (
              Ends-bind _ _
                (Ends-or_internal _ (
                  Ends-try_execute (delete_container_row a c)
                    (λ db db' h e.
                      swept_by_statements a c before db'
                        (sym (ap (delete_container_row a c) h) ∙ e))
                    (λ db h. tt)))
                (λ _. keeps_step marker _ Keeps-marker λ _. Ends-pure paths))))

  require_container-Keeps : {P : Db → Type 0} (a c : Text) → Keeps P (require_container x a c)
  unfolding require_container
  require_container-Keeps a c = search keeps_rules

  module _ (root : Text) where
    remove_blob_files-Ends :
        {P : Db → Type 0} {X : Db → Type 0} (paths : List Text)
        → Ends P (FsBackend.Containers.remove_blob_files x root paths) (λ _. P) X
    unfolding FsBackend.Containers.remove_blob_files
    remove_blob_files-Ends [] = Ends-pure tt
    remove_blob_files-Ends (p ∷ ps) =
        Ends-bind _ _ (Ends-ignore _ (Keeps-remove_file_if_exists _ _))
          (λ _. remove_blob_files-Ends ps)

    delete_container-Ends :
        (a c : Text) (before : Db)
        → Ends
            (λ db. db ≡ before)
            (FsBackend.Containers.delete_container x root a c)
            (λ _ db. db ≡ swept a c before)
            (λ db. db ≡ before)
    unfolding FsBackend.Containers.delete_container MetadataDb.Containers.delete_container
    delete_container-Ends a c before =
        Ends-bind _ _
          (Ends-bind _ _ (Ends-Keeps _ (require_container-Keeps a c))
            (λ _. Ends-transaction _ before (delete_container_tx-Ends a c before)))
          (λ paths.
            Ends-bind _ _ (remove_blob_files-Ends paths)
              (λ _. Ends-ignore _ (Keeps-call _ (record { at = λ w h. h }))))

outcome :
    (r : Result AzureError (Unit {0})) (db before after : Db)
    → Post (λ _ d. d ≡ after) (λ d. d ≡ before) r db
    → ((r ≡ ok tt) × (db ≡ after)) ⊎ ((e : AzureError) × (r ≡ err e) × (db ≡ before))
outcome (ok tt) db before after h = inl (refl, h)
outcome (err e) db before after h = inr (e, refl, h)

-- Deleting a container is all or nothing, whatever calls of SQLite and of the file system fail: it
-- succeeds, and the rows of the container, of its blobs and of their blocks are gone and every other
-- row is there; or it fails, and the database is as it was.
pub delete_container_all_or_nothing :
    (x : Externals) (root a c : Text) (w : World)
    → (((FsBackend.Containers.delete_container x root a c w).0 ≡ ok tt)
        × ((FsBackend.Containers.delete_container x root a c w).1.db ≡ swept a c w.db))
      ⊎ ((e : AzureError) × ((FsBackend.Containers.delete_container x root a c w).0 ≡ err e)
          × ((FsBackend.Containers.delete_container x root a c w).1.db ≡ w.db))
delete_container_all_or_nothing x root a c w =
    outcome _ _ w.db (swept a c w.db) ((delete_container-Ends x root a c w.db).at w refl)
