-- ===== src/Storage/FsIo.antt =====
-- crates/blobstore-storage/src/fs_io.rs. The file system holds the bytes of each path; directories
-- are not modelled, but that the calls on them may fail. A call that fails has had no effect.
use mert_blob_storage.Base.{
  ℕ, zero, suc, ◌+◌, ◌*◌, ◌%◌, ◌^◌, Option, none, some, List, [], ◌∷◌, ◌++◌, if◌then◌else◌,
}
use mert_blob_storage.Base.Lists.{length, take, drop}
use mert_blob_storage.Base.Text.{Text, codes, ◌==◌, contains}
use mert_blob_storage.Core.Time.{lower_hex}
use mert_blob_storage.Storage.Externals.{Externals}
use mert_blob_storage.Storage.Exec.{
  World, Exec, Result, ok, err, IoError, not_found, pure, lift, ◌>>=◌, ◌>>◌, call, next_fault,
  later_faults,
}
use mert_blob_storage.Storage.PathLayout.{join}
use mert_blob_storage.Storage.Types.{ByteStream}

abbrev pub Files : Type 0
Files = List (Text × Text)

unfoldable pub read_file : Text → Files → Option Text
read_file p [] = none
read_file p ((q, content) ∷ fs) = if q == p then some content else read_file p fs

unfoldable pub erase_file : Text → Files → Files
erase_file p [] = []
erase_file p ((q, content) ∷ fs) =
    let rest = erase_file p fs in if q == p then rest else (q, content) ∷ rest

unfoldable pub store_file : Text → Text → Files → Files
unfolding erase_file
store_file p content fs = (p, content) ∷ erase_file p fs

-- the calls of the operating system
abbrev set_files : World → Files → World
set_files w fs = record w { files = fs }

-- create_dir_all, flush, sync_all, seek
unfoldable pub sys : Exec IoError (Unit {0})
unfolding call
sys = call (λ w. (ok tt, w))

-- File::create
unfoldable pub create_file : Text → Exec IoError (Unit {0})
unfolding call store_file
create_file p = call (λ w. (ok tt, set_files w (store_file p [] w.files)))

abbrev or_empty : Option Text → Text
or_empty none = []
or_empty (some s) = s

-- write_all on the file that was created at the path
unfoldable pub append_file : Text → Text → Exec IoError (Unit {0})
unfolding call store_file read_file
append_file p chunk =
    call
      (λ w. (ok tt, set_files w (store_file p (or_empty (read_file p w.files) ++ chunk) w.files)))

abbrev pub move : Text → Text → Option Text → Exec IoError (Unit {0})
move p q none w = (err not_found, w)
move p q (some content) w = (ok tt, set_files w (store_file q content (erase_file p w.files)))

unfoldable pub rename : Text → Text → Exec IoError (Unit {0})
unfolding call store_file erase_file read_file
rename p q = call (λ w. move p q (read_file p w.files) w)

abbrev pub found : Option Text → Exec IoError Text
found none w = (err not_found, w)
found (some content) w = (ok content, w)

-- File::open, with what the file holds then
unfoldable pub open_file : Text → Exec IoError Text
unfolding call read_file
open_file p = call (λ w. found (read_file p w.files) w)

abbrev pub unlink : Text → Option Text → Exec IoError (Unit {0})
unlink p none w = (err not_found, w)
unlink p (some content) w = (ok tt, set_files w (erase_file p w.files))

abbrev pub not_found_is_fine : Result IoError (Unit {0}) → Result IoError (Unit {0})
not_found_is_fine (ok a) = ok a
not_found_is_fine (err not_found) = ok tt
not_found_is_fine (err e) = err e

unfoldable pub remove_file_if_exists : Text → Exec IoError (Unit {0})
unfolding call read_file erase_file
remove_file_if_exists p w =
    let (r, w') = call (λ u. unlink p (read_file p u.files) u) w in (not_found_is_fine r, w')

-- A directory that cannot be opened is passed over; one that cannot be synced is an error.
abbrev pub sync_opened : Option Text → Exec IoError (Unit {0})
sync_opened none w = sys w
sync_opened (some message) w = (ok tt, w)

unfoldable pub fsync_dir : Exec IoError (Unit {0})
unfolding sys
fsync_dir w = sync_opened (next_fault w.faults) (record w { faults = later_faults w.faults })

-- the letters that `uuid_like` takes out of its text
abbrev tid_letters : Text
tid_letters = codes "()ThreadId"

unfoldable pub without_letters : Text → Text
unfolding contains
without_letters [] = []
without_letters (c ∷ s) =
    let rest = without_letters s in if contains c tid_letters then rest else c ∷ rest

abbrev pub u64_mod : ℕ
u64_mod = 2 ^ 64

-- the `while let` loop of `write_stream_atomic`: the size so far, and what was hashed so far
unfoldable pub write_chunks : Text → ByteStream → ℕ → Text → Exec IoError (ℕ × Text)
write_chunks p [] total hashed = pure (total, hashed)
write_chunks p (next ∷ body) total hashed = do
  chunk ← lift next
  append_file p chunk
  write_chunks p body ((total + length chunk) % u64_mod) (hashed ++ chunk)

abbrev pub buffer_size : ℕ
buffer_size = 256 * 1024

-- `read(&mut buf)`: the bytes that are read, and what is left
unfoldable pub read_buffer : Text → Text × Text
read_buffer rest = (take buffer_size rest, drop buffer_size rest)

-- the inner `loop` of `concatenate_files_atomic` over what is left of one part; the fuel is one
-- more than the length of the part, since every round but the last reads at least one byte
unfoldable pub copy_part : Text → ℕ → Text → ℕ → Text → Exec IoError (ℕ × Text)
copy_part p zero rest total hashed = pure (total, hashed)
copy_part p (suc fuel) [] total hashed = do sys; pure (total, hashed)
copy_part p (suc fuel) (c ∷ rest) total hashed = do
  sys
  let (chunk, more) = read_buffer (c ∷ rest)
  append_file p chunk
  copy_part p fuel more ((total + length chunk) % u64_mod) (hashed ++ chunk)

unfoldable pub copy_parts : Text → List Text → ℕ → Text → Exec IoError (ℕ × Text)
copy_parts p [] total hashed = pure (total, hashed)
copy_parts p (part ∷ parts) total hashed = do
  input ← open_file part
  (total', hashed') ← copy_part p (suc (length input)) input total hashed
  copy_parts p parts total' hashed'

module _ (x : Externals) where
  unfoldable pub uuid_like : ℕ → Text
  unfolding without_letters lower_hex
  uuid_like nanos = without_letters (lower_hex nanos ++ codes "-" ++ x.thread_id)

  unfoldable pub unique_tmp_path : Text → Exec IoError Text
  unfolding uuid_like join
  unique_tmp_path tmp_dir w = (
    ok (join tmp_dir (uuid_like (x.clock w.ticks) ++ codes ".tmp")),
    record w { ticks = w.ticks + 1 },
  )

  -- flush, sync, rename, sync of the directory, and the digest: the common end of both writers
  unfoldable pub publish : Text → Text → ℕ × Text → Exec IoError (ℕ × Text)
  publish tmp_path final_path (total, hashed) = do
    sys
    sys
    rename tmp_path final_path
    fsync_dir
    pure (total, x.hex_encode (x.md5 hashed))

  unfoldable pub write_stream_atomic : Text → Text → ByteStream → Exec IoError (ℕ × Text)
  unfolding publish write_chunks
  write_stream_atomic tmp_dir final_path body = do
    sys
    sys
    tmp_path ← unique_tmp_path tmp_dir
    create_file tmp_path
    written ← write_chunks tmp_path body 0 []
    publish tmp_path final_path written

  unfoldable pub concatenate_files_atomic : Text → Text → List Text → Exec IoError (ℕ × Text)
  unfolding publish copy_parts copy_part
  concatenate_files_atomic tmp_dir final_path part_paths = do
    sys
    sys
    tmp_path ← unique_tmp_path tmp_dir
    create_file tmp_path
    copied ← copy_parts tmp_path part_paths 0 []
    publish tmp_path final_path copied
