-- ===== src/Storage/Proofs/Calm.antt =====
-- The world in which no call of SQLite or of the file system fails, and what single calls do there.
use mathlib.Core.List.{append_assoc, append-nil}
use native.Mathlib.Nat.{add-zero, zero-add, add_assoc}
use mert_blob_storage.Base.{
  ℕ, ◌+◌, ◌%◌, ◌<◌, ◌≡◌, refl, none, some, List, [], ◌∷◌, ◌++◌, map, arith, if◌then◌else◌,
}
use mert_blob_storage.Base.Lists.{length, length-append, flatten}
use mert_blob_storage.Base.Text.{Text, codes, ◌==◌, eq_iff, eq_refl}
use mert_blob_storage.Storage.Externals.{Externals}
use mert_blob_storage.Storage.Db.{Db, ContainersRow}
use mert_blob_storage.Storage.Exec.{World, ok, ◌>>=◌, or_default, fetch}
use mert_blob_storage.Storage.PathLayout.{join}
use mert_blob_storage.Storage.FsIo.{
  Files, read_file, erase_file, store_file, sys, create_file, append_file, rename, fsync_dir,
  uuid_like, unique_tmp_path, u64_mod, write_chunks, publish, write_stream_atomic,
}
use mert_blob_storage.Storage.MetadataDb.Rows.{row_to_container}
use mert_blob_storage.Storage.MetadataDb.Statements.{select_container}
use mert_blob_storage.Storage.MetadataDb.Containers.{require_container}

abbrev pub calm : Db → Files → ℕ → World
calm db fs t = record { db = db; files = fs; ticks = t; faults = [] }

-- Files: what is read after a write and after a removal.
pub read-erase :
    (p q : Text) (fs : Files)
    → read_file q (erase_file p fs) ≡ (if p == q then none else read_file q fs)
unfolding read_file erase_file
read-erase p q [] = ground arith
read-erase p q ((r, content) ∷ fs) =
    ground (arith, read-erase p q fs, eq_iff r p, eq_iff r q, eq_iff p q)

pub read-store :
    (p q content : Text) (fs : Files)
    → read_file q (store_file p content fs) ≡ (if p == q then some content else read_file q fs)
unfolding store_file read_file
read-store p q content fs = ground (arith, read-erase p q fs)

erase-erase : (p : Text) (fs : Files) → erase_file p (erase_file p fs) ≡ erase_file p fs
unfolding erase_file
erase-erase p [] = refl
erase-erase p ((r, content) ∷ fs) = ground (arith, erase-erase p fs)

pub store-store :
    (p c d : Text) (fs : Files) → store_file p d (store_file p c fs) ≡ store_file p d fs
unfolding store_file erase_file
store-store p c d fs = rw eq_refl (rw erase-erase)

pub erase-store : (p c : Text) (fs : Files) → erase_file p (store_file p c fs) ≡ erase_file p fs
unfolding store_file erase_file
erase-store p c fs = rw eq_refl (erase-erase p fs)

pub read-store_self : (p c : Text) (fs : Files) → read_file p (store_file p c fs) ≡ some c
read-store_self p c fs = simp (read-store, eq_refl)

module _ (x : Externals) where
  pub require_container-calm :
      (a c : Text) (r : ContainersRow) (db : Db) (fs : Files) (t : ℕ)
      → select_container a c db ≡ some r
      → require_container x a c (calm db fs t) ≡ (ok (row_to_container x r), calm db fs t)
  unfolding require_container ◌>>=◌ or_default fetch
  require_container-calm a c r db fs t h = rw h

pub mod_of_small : (n : ℕ) → n < u64_mod → n % u64_mod ≡ n
mod_of_small n h = omega arith

-- The loop over the chunks leaves the file with all of them, and their size and bytes.
pub write_chunks-calm :
    (chunks : List Text) (p content : Text) (total : ℕ) (hashed : Text) (db : Db) (fs : Files)
    (t : ℕ)
    → total + length (flatten chunks) < u64_mod
    → write_chunks p (map ok chunks) total hashed (calm db (store_file p content fs) t) ≡ (
      ok (total + length (flatten chunks), hashed ++ flatten chunks),
      calm db (store_file p (content ++ flatten chunks) fs) t,
    )
unfolding write_chunks ◌>>=◌ append_file
write_chunks-calm [] p content total hashed db fs t h = simp (append-nil, add-zero)
write_chunks-calm (c ∷ cs) p content total hashed db fs t h =
    let fits : total + length c + length (flatten cs) < u64_mod =
      omega (arith, length-append c (flatten cs)) in
    let ih = write_chunks-calm cs p (content ++ c) (total + length c) (hashed ++ c) db fs t fits in
    simp (read-store_self, store-store)
      (rw (mod_of_small (total + length c) (omega arith), ih)
        (simp (append_assoc, length-append, add_assoc)))

module _ (x : Externals) where
  abbrev pub tmp_path : Text → ℕ → Text
  tmp_path tmp t = join tmp (uuid_like x (x.clock t) ++ codes ".tmp")

  -- The end of both writers: the temporary file takes the place of the final one.
  pub publish-calm :
      (tmp final content : Text) (size : ℕ) (db : Db) (fs : Files) (t : ℕ)
      → publish x tmp final (size, content) (calm db (store_file tmp content fs) t) ≡ (
        ok (size, x.hex_encode (x.md5 content)),
        calm db (store_file final content (erase_file tmp fs)) t,
      )
  unfolding publish ◌>>=◌ sys rename fsync_dir
  publish-calm tmp final content size db fs t = simp (read-store_self, erase-store)

  -- A whole body is written under its final path, and its size and digest are returned.
  pub write_stream_atomic-calm :
      (tmp final : Text) (chunks : List Text) (db : Db) (fs : Files) (t : ℕ)
      → length (flatten chunks) < u64_mod
      → write_stream_atomic x tmp final (map ok chunks) (calm db fs t) ≡ (
        ok (length (flatten chunks), x.hex_encode (x.md5 (flatten chunks))),
        calm db (store_file final (flatten chunks) (erase_file (tmp_path tmp t) fs)) (t + 1),
      )
  unfolding write_stream_atomic ◌>>=◌ sys create_file unique_tmp_path
  write_stream_atomic-calm tmp final chunks db fs t h =
      rw (write_chunks-calm chunks (tmp_path tmp t) [] 0 [] db fs (t + 1) (omega arith)) (
        rw zero-add (
          publish-calm (tmp_path tmp t) final (flatten chunks) (length (flatten chunks)) db fs
            (t + 1)))
