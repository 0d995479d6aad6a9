-- ===== src/Storage/Proofs/Assembly.antt =====
-- The concatenation of the parts of a block list.
use mathlib.Core.List.{append_assoc, append-nil}
use native.Mathlib.Nat.{add-zero, zero-add}
use mert_blob_storage.Base.{
  ℕ, zero, suc, ◌+◌, ◌-◌, ◌≤◌, ◌<◌, ◌≡◌, refl, ap, sym, ◌∙◌, some, List, [], ◌∷◌, ◌++◌, map, arith,
  All, false,
}
use mert_blob_storage.Base.Lists.{length, length-append, flatten, take, drop, length-drop}
use mert_blob_storage.Base.Text.{Text, ◌==◌}
use mert_blob_storage.Storage.Externals.{Externals}
use mert_blob_storage.Storage.Db.{Db}
use mert_blob_storage.Storage.Exec.{ok, ◌>>=◌}
use mert_blob_storage.Storage.FsIo.{
  Files, read_file, store_file, erase_file, sys, append_file, open_file, create_file, u64_mod,
  buffer_size, read_buffer, copy_part, copy_parts, concatenate_files_atomic, unique_tmp_path,
}
use mert_blob_storage.Storage.Proofs.Calm.{
  calm, read-store, read-store_self, store-store, mod_of_small, tmp_path, publish-calm,
}

take-drop : (n : ℕ) (xs : Text) → take n xs ++ drop n xs ≡ xs
take-drop zero xs = refl
take-drop (suc n) [] = refl
take-drop (suc n) (x ∷ xs) = ap (λ t. x ∷ t) (take-drop n xs)

pub read_buffer-append : (rest : Text) → (read_buffer rest).0 ++ (read_buffer rest).1 ≡ rest
unfolding read_buffer
read_buffer-append rest = take-drop buffer_size rest

left_over : (n : ℕ) (c : ℕ) (rest : Text) → length (drop (suc n) (c ∷ rest)) ≤ length rest
left_over n c rest = omega (arith, length-drop n rest)

-- a round that reads leaves less
pub read_buffer_shorter : (c : ℕ) (rest : Text) → length (read_buffer (c ∷ rest)).1 ≤ length rest
unfolding read_buffer
read_buffer_shorter c rest = left_over (buffer_size - 1) c rest

append_file-calm :
    (p content chunk : Text) (db : Db) (fs : Files) (t : ℕ)
    → append_file p chunk (calm db (store_file p content fs) t)
      ≡ (ok tt, calm db (store_file p (content ++ chunk) fs) t)
unfolding append_file
append_file-calm p content chunk db fs t = simp (read-store_self, store-store)

-- One part is copied whole, where the fuel is more than its length.
copy_part-calm :
    (fuel : ℕ) (rest p content : Text) (total : ℕ) (hashed : Text) (db : Db) (fs : Files) (t : ℕ)
    → length rest < fuel
    → total + length rest < u64_mod
    → copy_part p fuel rest total hashed (calm db (store_file p content fs) t)
      ≡ (ok (total + length rest, hashed ++ rest), calm db (store_file p (content ++ rest) fs) t)
unfolding copy_part ◌>>=◌ sys
copy_part-calm zero rest p content total hashed db fs t h k = ground arith
copy_part-calm (suc fuel) [] p content total hashed db fs t h k = simp (append-nil, add-zero)
copy_part-calm (suc fuel) (c ∷ rest) p content total hashed db fs t h k =
    let (u, v) = read_buffer (c ∷ rest) in
    let whole = read_buffer-append (c ∷ rest) in
    let sizes : length u + length v ≡ length (c ∷ rest) =
      sym (length-append u v) ∙ ap length whole in
    let sum : total + length u + length v ≡ total + length (c ∷ rest) = omega arith in
    let shorter = read_buffer_shorter c rest in
    let ih =
      copy_part-calm fuel v p (content ++ u) (total + length u) (hashed ++ u) db fs t (omega arith)
        (omega arith) in
    rw (append_file-calm p content u db fs t) (
      rw (mod_of_small (total + length u) (omega arith), ih)
        (rw (append_assoc hashed u v, append_assoc content u v, whole, sum)))

-- a part by its path and its bytes
abbrev pub Part : Type 0
Part = Text × Text

abbrev pub path_of : Part → Text
path_of (path, bytes) = path

abbrev pub bytes_of : Part → Text
bytes_of (path, bytes) = bytes

-- the part's file is there, and is not the temporary file
abbrev pub IsThere : Files → Text → Part → Type 0
IsThere fs tmp (path, bytes) = (read_file path fs ≡ some bytes) × ((tmp == path) ≡ false)

open_file-calm :
    (p q content bytes : Text) (db : Db) (fs : Files) (t : ℕ)
    → read_file q fs ≡ some bytes
    → (p == q) ≡ false
    → open_file q (calm db (store_file p content fs) t)
      ≡ (ok bytes, calm db (store_file p content fs) t)
unfolding open_file
open_file-calm p q content bytes db fs t h k = rw (read-store p q content fs) (rw k (rw h))

copy_parts-calm :
    (parts : List Part) (p content : Text) (total : ℕ) (hashed : Text) (db : Db) (fs : Files)
    (t : ℕ)
    → All (IsThere fs p) parts
    → total + length (flatten (map bytes_of parts)) < u64_mod
    → copy_parts p (map path_of parts) total hashed (calm db (store_file p content fs) t) ≡ (
      ok (total + length (flatten (map bytes_of parts)), hashed ++ flatten (map bytes_of parts)),
      calm db (store_file p (content ++ flatten (map bytes_of parts)) fs) t,
    )
unfolding copy_parts ◌>>=◌
copy_parts-calm [] p content total hashed db fs t h k = simp (append-nil, add-zero)
copy_parts-calm ((q, bytes) ∷ parts) p content total hashed db fs t ((there, apart), h) k =
    let rest = flatten (map bytes_of parts) in
    let sizes = length-append bytes rest in
    let sum : total + length bytes + length rest ≡ total + length (bytes ++ rest) = omega arith in
    rw (open_file-calm p q content bytes db fs t there apart) (
      rw
        (copy_part-calm (suc (length bytes)) bytes p content total hashed db fs t (omega arith)
          (omega arith))
        (rw
          (copy_parts-calm parts p (content ++ bytes) (total + length bytes) (hashed ++ bytes) db fs
            t h (omega arith))
          (rw (append_assoc hashed bytes rest, append_assoc content bytes rest, sum))))

-- Parts whose files are there are concatenated in their order, with no fault: where they have fewer
-- than 2^64 bytes in all and none of them is the temporary file, the final file holds their bytes one
-- after another, and the result is their total size and their digest.
pub concatenate_files_atomic_joins :
    (x : Externals) (tmp final : Text) (parts : List Part) (db : Db) (fs : Files) (t : ℕ)
    → All (IsThere fs (tmp_path x tmp t)) parts
    → length (flatten (map bytes_of parts)) < u64_mod
    → concatenate_files_atomic x tmp final (map path_of parts) (calm db fs t) ≡ (
      ok (
        length (flatten (map bytes_of parts)),
        x.hex_encode (x.md5 (flatten (map bytes_of parts))),
      ),
      calm db
          (store_file final (flatten (map bytes_of parts)) (erase_file (tmp_path x tmp t) fs))
          (t + 1),
    )
unfolding concatenate_files_atomic ◌>>=◌ sys create_file unique_tmp_path
concatenate_files_atomic_joins x tmp final parts db fs t h k =
    rw (copy_parts-calm parts (tmp_path x tmp t) [] 0 [] db fs (t + 1) h (omega arith)) (
      rw zero-add (
        publish-calm x (tmp_path x tmp t) final (flatten (map bytes_of parts))
          (length (flatten (map bytes_of parts))) db fs (t + 1)))
