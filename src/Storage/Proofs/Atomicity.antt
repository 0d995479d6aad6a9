-- ===== src/Storage/Proofs/Atomicity.antt =====
-- A file that is published appears as a whole or not at all, whatever calls fail.
use mert_blob_storage.Base.{ℕ, ◌+◌, ◌%◌, ◌≡◌, refl, ap, ◌⊎◌, List, [], ◌∷◌, ◌++◌, map}
use mathlib.Core.List.{append_assoc, append-nil}
use mert_blob_storage.Base.Lists.{length, flatten}
use mert_blob_storage.Base.Text.{Text}
use mert_blob_storage.Storage.Externals.{Externals}
use mert_blob_storage.Storage.Exec.{World, ok, err, IoError, ◌>>=◌}
use mert_blob_storage.Storage.Types.{ByteStream}
use mert_blob_storage.Storage.FsIo.{Files, u64_mod, write_chunks, write_stream_atomic}
use mert_blob_storage.Storage.Proofs.Calm.{tmp_path}
use mert_blob_storage.Storage.Proofs.Publishing.{
  OnlyAt, Holding, Untouched, held, append_file-Leads, Published, Whole, untouched_whole,
  writer-whole,
}
use mert_blob_storage.Storage.Proofs.Disk.{Assertion, Leads, Leads-bind, Leads-weaken, Leads-pure}

module _ (p : Text) (before : Files) where
  module _ (X : Assertion) (u : (fs : Files) (t' : ℕ) → Untouched p before fs t' → X fs t') where
    -- all chunks came, and the file at `p` holds them behind its content
    abbrev Written : ByteStream → Text → ℕ × Text → Assertion
    Written body content r fs t' =
        (chunks : List Text) × (body ≡ map ok chunks)
        × Holding p before (content ++ flatten chunks) fs t'

    one_more :
        (chunk content : Text) (body : ByteStream) (r : ℕ × Text) (fs : Files) (t' : ℕ)
        → Written body (content ++ chunk) r fs t'
        → Written (ok chunk ∷ body) content r fs t'
    one_more chunk content body r fs t' (chunks, e, h) = (
      chunk ∷ chunks,
      ap (λ b. ok chunk ∷ b) e,
      rw (append_assoc content chunk (flatten chunks)) at h,
    )

    write_chunks-Leads :
        (body : ByteStream) (content : Text) (total : ℕ) (hashed : Text)
        → Leads
            (Holding p before content)
            (write_chunks p body total hashed)
            (Written body content)
            X
    unfolding write_chunks ◌>>=◌
    write_chunks-Leads [] content total hashed =
        Leads-pure _ (λ fs t' h. ([], refl, rw (append-nil content) h))
    write_chunks-Leads (err e ∷ body) content total hashed = record {
      at = λ w h. held p before X u content w.files w.ticks h;
    }
    write_chunks-Leads (ok chunk ∷ body) content total hashed =
        let rest = Leads-weaken _ (one_more chunk content body) (
          write_chunks-Leads body (content ++ chunk) ((total + length chunk) % u64_mod)
            (hashed ++ chunk)) in
        let both = Leads-bind _ _ (append_file-Leads p before X u content chunk) (λ _. rest) in
        record { at = λ w h. both.at w h }

-- Whatever calls of the file system fail, and whatever chunks of the body are errors: a write of a body
-- to a final path either fails, and no file but the temporary one is new or changed; or all chunks came,
-- and the file at the final path holds exactly their bytes, and no other file but the temporary one is
-- new or changed.
pub write_stream_atomic_whole :
    (x : Externals) (tmp final : Text) (body : ByteStream) (w : World)
    → ((e : IoError) × ((write_stream_atomic x tmp final body w).0 ≡ err e)
        × OnlyAt (tmp_path x tmp w.ticks) w.files (write_stream_atomic x tmp final body w).1.files)
      ⊎ ((chunks : List Text) × (body ≡ map ok chunks)
          × Published
              (tmp_path x tmp w.ticks)
              final
              (flatten chunks)
              w.files
              (write_stream_atomic x tmp final body w).1.files)
unfolding write_stream_atomic
write_stream_atomic_whole x tmp final body w =
    let Came = λ (chunks : List Text). body ≡ map ok chunks in
    writer-whole x tmp final Came w.files w.ticks (λ p. write_chunks p body 0 [])
      (write_chunks-Leads (tmp_path x tmp w.ticks) w.files (Whole x tmp final Came w.files w.ticks)
        (untouched_whole x tmp final Came w.files w.ticks) body [] 0 [])
      w refl refl
