-- ===== src/Storage/Proofs/Publishing.antt =====
-- Writing a temporary file and renaming it, whatever calls fail: what each step leaves in the files.
use mert_blob_storage.Base.{
  ℕ, ◌≡◌, refl, ◌⊎◌, inl, inr, Option, none, some, List, [], ◌++◌, Bool-cases, false,
}
use mert_blob_storage.Base.Lists.{flatten}
use mert_blob_storage.Base.Text.{Text, ◌==◌, eq_iff}
use mert_blob_storage.Storage.Externals.{Externals}
use mert_blob_storage.Storage.Exec.{
  World, Exec, Result, ok, err, IoError, ◌>>=◌, ◌>>◌, next_fault, later_faults,
}
use mert_blob_storage.Storage.FsIo.{
  Files, read_file, erase_file, store_file, sys, create_file, append_file, move, rename, fsync_dir,
  sync_opened, unique_tmp_path, publish,
}
use mert_blob_storage.Storage.Proofs.Calm.{read-store, read-erase, read-store_self, tmp_path}
use mert_blob_storage.Storage.Proofs.Disk.{
  Assertion, Either, Leads, Leads-bind, Leads-weaken, Leads-pure, Leads-call, Leads-sys,
}

-- the files but the one at `p` are as they were
abbrev pub OnlyAt : Text → Files → Files → Type 0
OnlyAt p before fs = (q : Text) → ¬ (p ≡ q) → read_file q fs ≡ read_file q before

different : (p q : Text) → ¬ (p ≡ q) → (p == q) ≡ false
different p q h = elim (Bool-cases (p == q)) [ inl e ↦ absurd (h ((eq_iff p q).0 e)) | inr e ↦ e ]

store-OnlyAt :
    (p content : Text) (before fs : Files)
    → OnlyAt p before fs
    → OnlyAt p before (store_file p content fs)
store-OnlyAt p content before fs h q n =
    rw (read-store p q content fs) (rw (different p q n) (h q n))

module _ (p : Text) (before : Files) where
  -- a temporary file at `p` with this content, and nothing else is new
  abbrev pub Holding : Text → Assertion
  Holding content fs t' = OnlyAt p before fs × (read_file p fs ≡ some content)

  abbrev pub Untouched : Assertion
  Untouched fs t' = OnlyAt p before fs

  module _ (X : Assertion) (u : (fs : Files) (t' : ℕ) → Untouched fs t' → X fs t') where
    pub held : (content : Text) (fs : Files) (t' : ℕ) → Holding content fs t' → X fs t'
    held content fs t' (only, r) = u fs t' only

    pub create_file-Leads : Leads Untouched (create_file p) (λ _. Holding []) X
    unfolding create_file
    create_file-Leads =
        Leads-call _ u (record {
          at = λ w h. (store-OnlyAt p [] before w.files h, read-store_self p [] w.files);
        })

    pub append_file-Leads :
        (content chunk : Text)
        → Leads (Holding content) (append_file p chunk) (λ _. Holding (content ++ chunk)) X
    unfolding append_file
    append_file-Leads content chunk = Leads-call _ (held content) (record {
      at = λ w h.
          let (only, r) = h in
          rw r (
            store-OnlyAt p (content ++ chunk) before w.files only,
            read-store_self p (content ++ chunk) w.files,
          );
    })

-- the file at `final` has this content, and no other file but the temporary one is new
abbrev pub Published : Text → Text → Text → Files → Files → Type 0
Published p final content before fs =
    (read_file final fs ≡ some content)
    × ((q : Text) → ¬ (p ≡ q) → ¬ (final ≡ q) → read_file q fs ≡ read_file q before)

moved-Published :
    (p final content : Text) (before fs : Files)
    → OnlyAt p before fs
    → Published p final content before (store_file final content (erase_file p fs))
moved-Published p final content before fs only = (
  read-store_self final content (erase_file p fs),
  λ q n m.
      rw (read-store final q content (erase_file p fs))
        (rw (different final q m) (rw (read-erase p q fs) (rw (different p q n) (only q n)))),
)

module _ (p final : Text) (before : Files) (content : Text) (X : Assertion)
    (u : (fs : Files) (t' : ℕ) → Untouched p before fs t' → X fs t')
    (v : (fs : Files) (t' : ℕ) → Published p final content before fs → X fs t') where
  abbrev Done : Assertion
  Done fs t' = Published p final content before fs

  moved-Leads :
      Leads (Holding p before content) (λ w. move p final (read_file p w.files) w) (λ _. Done) X
  moved-Leads = record {
    at = λ w h. let (only, r) = h in rw r (moved-Published p final content before w.files only);
  }

  rename-Leads : Leads (Holding p before content) (rename p final) (λ _. Done) X
  unfolding rename
  rename-Leads = Leads-call _ (held p before X u content) moved-Leads

  sync_opened-Leads : (o : Option Text) → Leads Done (sync_opened o) (λ _. Done) X
  sync_opened-Leads none = record { at = λ w h. (Leads-sys v).at w h }
  sync_opened-Leads (some message) = record { at = λ w h. h }

  fsync_dir-Leads : Leads Done fsync_dir (λ _. Done) X
  unfolding fsync_dir
  fsync_dir-Leads = record {
    at = λ w h.
        (sync_opened-Leads (next_fault w.faults)).at (record w { faults = later_faults w.faults })
          h;
  }

  pub publish-Leads :
      (x : Externals) (written : ℕ × Text)
      → Leads (Holding p before content) (publish x p final written) (λ _. Done) X
  unfolding publish
  publish-Leads x (n, s) =
      let kept = held p before X u content in
      Leads-bind _ _ (Leads-sys kept) λ _. Leads-bind _ _ (Leads-sys kept) λ _.
        Leads-bind _ _ rename-Leads
          λ _. Leads-bind _ _ fsync_dir-Leads λ _. Leads-pure _ (λ fs t' h. h)

-- One writer of a temporary file, which is then published: what came is a list of texts.
module _ (x : Externals) (tmp final : Text) (Came : List Text → Type 0) (before : Files)
    (t : ℕ) where
  -- all came, and the file holds them
  abbrev pub Complete : Files → Type 0
  Complete fs =
      (texts : List Text) × Came texts
      × Published (tmp_path x tmp t) final (flatten texts) before fs

  abbrev pub Whole : Assertion
  Whole fs t' = OnlyAt (tmp_path x tmp t) before fs ⊎ Complete fs

  pub untouched_whole :
      (fs : Files) (t' : ℕ) → Untouched (tmp_path x tmp t) before fs t' → Whole fs t'
  untouched_whole fs t' only = inl only

  publish_written :
      (written : ℕ × Text)
      → Leads
          (λ fs t'.
            (texts : List Text) × Came texts
            × Holding (tmp_path x tmp t) before (flatten texts) fs t')
          (publish x (tmp_path x tmp t) final written)
          (λ _ fs t'. Complete fs)
          Whole
  publish_written written = record {
    at = λ w h.
        let (texts, e, holding) = h in
        (Leads-weaken _ (λ r fs t' d. (texts, e, d))
            (publish-Leads (tmp_path x tmp t) final before (flatten texts) Whole untouched_whole
              (λ fs t' d. inr (texts, e, d)) x written)).at
          w holding;
  }

  named :
      Leads
        (λ fs t'. (t' ≡ t) × (fs ≡ before))
        (unique_tmp_path x tmp)
        (λ p fs t'. (p ≡ tmp_path x tmp t) × OnlyAt (tmp_path x tmp t) before fs)
        Whole
  unfolding unique_tmp_path
  named = record { at = λ w h. let (e, f) = h in (rw e refl, λ q n. rw f refl) }

  outcome :
      (r : Result IoError (ℕ × Text)) (w : World)
      → Either (λ _ fs t'. Complete fs) Whole r w
      → ((e : IoError) × (r ≡ err e) × OnlyAt (tmp_path x tmp t) before w.files) ⊎ Complete w.files
  outcome (ok written) w h = inr h
  outcome (err e) w (inl only) = inl (e, refl, only)
  outcome (err e) w (inr c) = inr c

  module _ (write : Text → Exec IoError (ℕ × Text))
      (k : Leads
        (Holding (tmp_path x tmp t) before [])
        (write (tmp_path x tmp t))
        (λ r fs t'.
          (texts : List Text) × Came texts
          × Holding (tmp_path x tmp t) before (flatten texts) fs t')
        Whole) where
    written_at :
        (p : Text)
        → Leads
            (λ fs t'. (p ≡ tmp_path x tmp t) × OnlyAt (tmp_path x tmp t) before fs)
            (do create_file p; written ← write p; publish x p final written)
            (λ _ fs t'. Complete fs)
            Whole
    written_at p = record {
      at = λ w h.
          let (e, only) = h in
          let steps =
            Leads-bind _ _ (create_file-Leads (tmp_path x tmp t) before Whole untouched_whole)
              λ _. Leads-bind _ _ k publish_written in
          rw e (steps.at w only);
    }

    abbrev pub writer : Exec IoError (ℕ × Text)
    writer = do
      sys
      sys
      p ← unique_tmp_path x tmp
      create_file p
      written ← write p
      publish x p final written

    writer-Leads : Leads (λ fs t'. (t' ≡ t) × (fs ≡ before)) writer (λ _ fs t'. Complete fs) Whole
    writer-Leads =
        let same : (fs : Files) (t' : ℕ) → (t' ≡ t) × (fs ≡ before) → Whole fs t' =
          λ fs t' h. let (e, f) = h in inl (λ q n. rw f refl) in
        Leads-bind _ _ (Leads-sys same)
          λ _. Leads-bind _ _ (Leads-sys same) λ _. Leads-bind _ _ named written_at

    pub writer-whole :
        (w : World)
        → w.ticks ≡ t
        → w.files ≡ before
        → ((e : IoError) × ((writer w).0 ≡ err e)
            × OnlyAt (tmp_path x tmp t) before (writer w).1.files)
          ⊎ Complete (writer w).1.files
    writer-whole w e f = outcome _ _ (writer-Leads.at w (e, f))
