-- ===== src/Storage/Proofs/FsKeeps.antt =====
-- The file operations do not touch the database.
use mert_blob_storage.Base.{ℕ, zero, suc, Option, none, some, List, [], ◌∷◌}
use mert_blob_storage.Base.Text.{Text}
use mert_blob_storage.Storage.Externals.{Externals}
use mert_blob_storage.Storage.Db.{Db}
use mert_blob_storage.Storage.Exec.{call, next_fault, later_faults}
use mert_blob_storage.Storage.Types.{ByteStream}
use mert_blob_storage.Storage.FsIo.{
  sys, create_file, append_file, move, rename, found, open_file, unlink, remove_file_if_exists,
  sync_opened, fsync_dir, unique_tmp_path, write_chunks, publish, write_stream_atomic, copy_part,
  copy_parts, concatenate_files_atomic, read_file,
}
use mert_blob_storage.Storage.Proofs.Keeps.{Keeps, Keeps-call, keeps_rules}

module _ (P : Db → Type 0) where
  pub Keeps-sys : Keeps P sys
  unfolding sys
  Keeps-sys = Keeps-call _ (record { at = λ w h. h })

  Keeps-create_file : (p : Text) → Keeps P (create_file p)
  unfolding create_file
  Keeps-create_file p = Keeps-call _ (record { at = λ w h. h })

  Keeps-append_file : (p c : Text) → Keeps P (append_file p c)
  unfolding append_file
  Keeps-append_file p c = Keeps-call _ (record { at = λ w h. h })

  move-Keeps : (p q : Text) (o : Option Text) → Keeps P (move p q o)
  move-Keeps p q none = record { at = λ w h. h }
  move-Keeps p q (some c) = record { at = λ w h. h }

  Keeps-rename : (p q : Text) → Keeps P (rename p q)
  unfolding rename
  Keeps-rename p q =
      Keeps-call _ (record { at = λ w h. (move-Keeps p q (read_file p w.files)).at w h })

  found-Keeps : (o : Option Text) → Keeps P (found o)
  found-Keeps none = record { at = λ w h. h }
  found-Keeps (some c) = record { at = λ w h. h }

  pub Keeps-open_file : (p : Text) → Keeps P (open_file p)
  unfolding open_file
  Keeps-open_file p =
      Keeps-call _ (record { at = λ w h. (found-Keeps (read_file p w.files)).at w h })

  unlink-Keeps : (p : Text) (o : Option Text) → Keeps P (unlink p o)
  unlink-Keeps p none = record { at = λ w h. h }
  unlink-Keeps p (some c) = record { at = λ w h. h }

  unlink-call-Keeps : (p : Text) → Keeps P (call (λ u. unlink p (read_file p u.files) u))
  unlink-call-Keeps p =
      Keeps-call _ (record { at = λ w h. (unlink-Keeps p (read_file p w.files)).at w h })

  pub Keeps-remove_file_if_exists : (p : Text) → Keeps P (remove_file_if_exists p)
  unfolding remove_file_if_exists
  Keeps-remove_file_if_exists p = record { at = λ w h. (unlink-call-Keeps p).at w h }

  sync_opened-Keeps : (o : Option Text) → Keeps P (sync_opened o)
  sync_opened-Keeps none = record { at = λ w h. Keeps-sys.at w h }
  sync_opened-Keeps (some m) = record { at = λ w h. h }

  Keeps-fsync_dir : Keeps P fsync_dir
  unfolding fsync_dir
  Keeps-fsync_dir = record {
    at = λ w h.
        (sync_opened-Keeps (next_fault w.faults)).at (record w { faults = later_faults w.faults })
          h;
  }

  Keeps-write_chunks :
      (p : Text) (body : ByteStream) (total : ℕ) (hashed : Text)
      → Keeps P (write_chunks p body total hashed)
  unfolding write_chunks
  Keeps-write_chunks p [] total hashed = search keeps_rules
  Keeps-write_chunks p (next ∷ body) total hashed =
      search (keeps_rules, Keeps-append_file, λ (t : ℕ) (s : Text). Keeps-write_chunks p body t s)

  Keeps-copy_part :
      (p : Text) (fuel : ℕ) (rest : Text) (total : ℕ) (hashed : Text)
      → Keeps P (copy_part p fuel rest total hashed)
  unfolding copy_part
  Keeps-copy_part p zero rest total hashed = search keeps_rules
  Keeps-copy_part p (suc fuel) [] total hashed = search (keeps_rules, Keeps-sys)
  Keeps-copy_part p (suc fuel) (c ∷ rest) total hashed = search (
    keeps_rules,
    Keeps-sys,
    Keeps-append_file,
    λ (r : Text) (t : ℕ) (s : Text). Keeps-copy_part p fuel r t s,
  )

  Keeps-copy_parts :
      (p : Text) (parts : List Text) (total : ℕ) (hashed : Text)
      → Keeps P (copy_parts p parts total hashed)
  unfolding copy_parts
  Keeps-copy_parts p [] total hashed = search keeps_rules
  Keeps-copy_parts p (part ∷ parts) total hashed = search (
    keeps_rules,
    Keeps-open_file,
    Keeps-copy_part,
    λ (t : ℕ) (s : Text). Keeps-copy_parts p parts t s,
  )

  module _ (x : Externals) where
    Keeps-unique_tmp_path : (tmp : Text) → Keeps P (unique_tmp_path x tmp)
    unfolding unique_tmp_path
    Keeps-unique_tmp_path tmp = record { at = λ w h. h }

    Keeps-publish : (p q : Text) (written : ℕ × Text) → Keeps P (publish x p q written)
    unfolding publish
    Keeps-publish p q (n, s) =
        search (keeps_rules, Keeps-sys, Keeps-rename, Keeps-fsync_dir) depth 9

    pub Keeps-write_stream_atomic :
        (tmp final : Text) (body : ByteStream) → Keeps P (write_stream_atomic x tmp final body)
    unfolding write_stream_atomic
    Keeps-write_stream_atomic tmp final body =
        search
          (
            keeps_rules, Keeps-sys, Keeps-unique_tmp_path, Keeps-create_file, Keeps-write_chunks,
            Keeps-publish,
          )
          depth 9

    pub Keeps-concatenate_files_atomic :
        (tmp final : Text) (parts : List Text)
        → Keeps P (concatenate_files_atomic x tmp final parts)
    unfolding concatenate_files_atomic
    Keeps-concatenate_files_atomic tmp final parts =
        search
          (
            keeps_rules, Keeps-sys, Keeps-unique_tmp_path, Keeps-create_file, Keeps-copy_parts,
            Keeps-publish,
          )
          depth 9
