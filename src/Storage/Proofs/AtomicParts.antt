-- ===== src/Storage/Proofs/AtomicParts.antt =====
-- The concatenation of the parts of a block list appears as a whole or not at all, whatever calls fail.
use mert_blob_storage.Base.{
  ℕ, zero, suc, ◌<◌, ◌≡◌, refl, sym, ◌∙◌, ap, ◌⊎◌, Option, none, some, List, [], ◌∷◌, ◌++◌, map,
  arith, All,
}
use mathlib.Core.List.{append_assoc, append-nil}
use mert_blob_storage.Base.Lists.{length, flatten}
use mert_blob_storage.Base.Text.{Text}
use mert_blob_storage.Storage.Externals.{Externals}
use mert_blob_storage.Storage.Exec.{World, err, IoError}
use mert_blob_storage.Storage.FsIo.{
  Files, read_file, found, open_file, read_buffer, copy_part, copy_parts, concatenate_files_atomic,
}
use mert_blob_storage.Storage.Proofs.Assembly.{read_buffer-append, read_buffer_shorter}
use mert_blob_storage.Storage.Proofs.Calm.{tmp_path}
use mert_blob_storage.Storage.Proofs.Disk.{
  Assertion, Either, Leads, Leads-bind, Leads-weaken, Leads-pure, Leads-call, Leads-sys,
}
use mert_blob_storage.Storage.Proofs.Publishing.{
  OnlyAt, Holding, Untouched, Published, held, append_file-Leads, writer-whole, Whole,
  untouched_whole,
}

module _ (p : Text) (before : Files) (X : Assertion)
    (u : (fs : Files) (t' : ℕ) → Untouched p before fs t' → X fs t') where
  copy_part-Leads :
      (fuel : ℕ) (rest content : Text) (total : ℕ) (hashed : Text)
      → length rest < fuel
      → Leads
          (Holding p before content)
          (copy_part p fuel rest total hashed)
          (λ _. Holding p before (content ++ rest))
          X
  unfolding copy_part
  copy_part-Leads zero rest content total hashed h = absurd (omega arith)
  copy_part-Leads (suc fuel) [] content total hashed h =
      Leads-bind _ _ (Leads-sys (held p before X u content))
        λ _. Leads-pure _ (λ fs t' k. rw (append-nil content) k)
  copy_part-Leads (suc fuel) (c ∷ rest) content total hashed h =
      let (chunk, more) = read_buffer (c ∷ rest) in
      let whole : (content ++ chunk) ++ more ≡ content ++ (c ∷ rest) =
        append_assoc content chunk more ∙ ap (λ s. content ++ s) (read_buffer-append (c ∷ rest)) in
      let shorter = read_buffer_shorter c rest in
      Leads-bind _ _ (Leads-sys (held p before X u content)) λ _.
        Leads-bind _ _ (append_file-Leads p before X u content chunk) λ _.
          Leads-weaken _ (λ _ fs t' k. rw whole at k)
            (copy_part-Leads fuel more (content ++ chunk) _ _ (omega arith))

  found-Leads :
      (content q : Text) (w : World) (o : Option Text)
      → read_file q before ≡ o
      → Holding p before content w.files w.ticks
      → Either
          (λ text fs t'. (read_file q before ≡ some text) × Holding p before content fs t')
          X
          (found o w).0
          (found o w).1
  found-Leads content q w none e h = held p before X u content w.files w.ticks h
  found-Leads content q w (some text) e h = (e, h)

  open_file-Leads :
      (content q : Text)
      → ¬ (p ≡ q)
      → Leads
          (Holding p before content)
          (open_file q)
          (λ text fs t'. (read_file q before ≡ some text) × Holding p before content fs t')
          X
  unfolding open_file
  open_file-Leads content q n = Leads-call _ (held p before X u content) (record {
    at = λ w h.
        let (only, r) = h in found-Leads content q w (read_file q w.files) (sym (only q n)) h;
  })

  -- all parts were found, and the file at `p` holds them behind its content
  abbrev Joined : List Text → Text → ℕ × Text → Assertion
  Joined parts content r fs t' =
      (texts : List Text) × (map (λ q. read_file q before) parts ≡ map some texts)
      × Holding p before (content ++ flatten texts) fs t'

  copy_parts-Leads :
      (parts : List Text) (content : Text) (total : ℕ) (hashed : Text)
      → All (λ q. ¬ (p ≡ q)) parts
      → Leads (Holding p before content) (copy_parts p parts total hashed) (Joined parts content) X
  unfolding copy_parts
  copy_parts-Leads [] content total hashed n =
      Leads-pure _ (λ fs t' h. ([], refl, rw (append-nil content) h))
  copy_parts-Leads (q ∷ parts) content total hashed (n, ns) =
      Leads-bind _ _ (open_file-Leads content q n) λ text. record {
        at = λ w h.
            let (e, holding) = h in
            let steps =
              Leads-bind _ _
                (copy_part-Leads (suc (length text)) text content total hashed (omega arith))
                λ (total', hashed').
                  Leads-weaken _
                    (λ r fs t' (texts, es, k). (
                      text ∷ texts,
                      cc (e, es),
                      rw (append_assoc content text (flatten texts)) at k,
                    ))
                    (copy_parts-Leads parts (content ++ text) total' hashed' ns) in
            steps.at w holding;
      }

-- Whatever calls of the file system fail, where no part is the temporary file: a concatenation of parts
-- to a final path either fails, and no file but the temporary one is new or changed; or every part was
-- found, and the file at the final path holds exactly the parts' bytes one after another, and no other
-- file but the temporary one is new or changed.
pub concatenate_files_atomic_whole :
    (x : Externals) (tmp final : Text) (parts : List Text) (w : World)
    → All (λ q. ¬ (tmp_path x tmp w.ticks ≡ q)) parts
    → ((e : IoError) × ((concatenate_files_atomic x tmp final parts w).0 ≡ err e)
        × OnlyAt
            (tmp_path x tmp w.ticks)
            w.files
            (concatenate_files_atomic x tmp final parts w).1.files)
      ⊎ ((texts : List Text) × (map (λ q. read_file q w.files) parts ≡ map some texts)
          × Published
              (tmp_path x tmp w.ticks)
              final
              (flatten texts)
              w.files
              (concatenate_files_atomic x tmp final parts w).1.files)
unfolding concatenate_files_atomic
concatenate_files_atomic_whole x tmp final parts w n =
    let Came = λ (texts : List Text). map (λ q. read_file q w.files) parts ≡ map some texts in
    writer-whole x tmp final Came w.files w.ticks (λ p. copy_parts p parts 0 [])
      (copy_parts-Leads (tmp_path x tmp w.ticks) w.files (Whole x tmp final Came w.files w.ticks)
        (untouched_whole x tmp final Came w.files w.ticks) parts [] 0 [] n)
      w refl refl
