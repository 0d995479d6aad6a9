-- ===== src/Storage/Proofs/Paging.antt =====
-- Following the markers of a listing comes to an end.
use mathlib.Core.Option
use mert_blob_storage.Base.{
  ℕ, zero, suc, ◌+◌, ◌<◌, ◌≤◌, ◌≡◌, refl, ap, sym, ◌∙◌, ◌⊎◌, inl, inr, Bool, true, false, Option,
  some, List, [], ◌∷◌, map, arith, Option-cases, Bool-cases,
}
use mert_blob_storage.Base.Lists.{length, take, get_last?, select, insert_by, sort_by}
use mert_blob_storage.Base.Text.{Text, lt}
use mert_blob_storage.Core.Error.{AzureError}
use mert_blob_storage.Storage.Externals.{Externals}
use mert_blob_storage.Storage.Db.{Db, BlobsRow}
use mert_blob_storage.Storage.Exec.{World, Result, ok, err, ◌>>=◌, pure}
use mert_blob_storage.Storage.MetadataDb.Rows.{BlobRow, row_to_blob, or_internal}
use mert_blob_storage.Storage.MetadataDb.Containers.{require_container}
use mert_blob_storage.Storage.MetadataDb.Listing.{
  page, lists_blob, by_blob_name, query_blobs, list_blobs,
}
use mert_blob_storage.Storage.Proofs.Keeps.{keeps_rules}
use mert_blob_storage.Storage.Proofs.Outcomes.{
  Post, Ends, Ends-Keeps_any, Ends-bind, Ends-map_err, Ends-fetch,
}

lt_irreflexive : (s : Text) → lt s s ≡ false
unfolding lt
lt_irreflexive [] = refl
lt_irreflexive (c ∷ s) = ground (arith, lt_irreflexive s)

lt_transitive : (s t u : Text) → lt s t ≡ true → lt t u ≡ true → lt s u ≡ true
unfolding lt
lt_transitive [] [] u h k = ground arith
lt_transitive [] (d ∷ t) [] h k = ground arith
lt_transitive [] (d ∷ t) (e ∷ u) h k = refl
lt_transitive (c ∷ s) [] u h k = ground arith
lt_transitive (c ∷ s) (d ∷ t) [] h k = ground arith
lt_transitive (c ∷ s) (d ∷ t) (e ∷ u) h k = ground (arith, lt_transitive s t u)

module _ {A : Type 0} where
  -- one of the elements
  abbrev Among : A → List A → Type 0
  Among x [] = ⊥
  Among x (y ∷ ys) = (x ≡ y) ⊎ Among x ys

  select-le :
      (p q : A → Bool) (xs : List A)
      → ((x : A) → p x ≡ true → q x ≡ true)
      → length (select p xs) ≤ length (select q xs)
  unfolding select
  select-le p q [] h = omega arith
  select-le p q (x ∷ xs) h = ground (arith, select-le p q xs h, h x)

  -- fewer elements pass a narrower test that one of them fails
  select-lt :
      (p q : A → Bool) (x : A) (xs : List A)
      → ((y : A) → p y ≡ true → q y ≡ true)
      → Among x xs
      → p x ≡ false
      → q x ≡ true
      → length (select p xs) < length (select q xs)
  unfolding select
  select-lt p q x [] h i e f = absurd i
  select-lt p q x (y ∷ xs) h (inl s) e f =
      let a : p y ≡ false = cc (s, e) in
      let b : q y ≡ true = cc (s, f) in ground (arith, select-le p q xs h)
  select-lt p q x (y ∷ xs) h (inr i) e f = ground (arith, select-lt p q x xs h i e f, h y)

  -- what a list has, a selection, a sorting and a cut of another list have from that list
  Among-select :
      (p : A → Bool) (x : A) (xs : List A) → Among x (select p xs) → Among x xs × (p x ≡ true)
  unfolding select
  Among-select p x [] i = absurd i
  Among-select p x (y ∷ xs) i = elim (Bool-cases (p y)) [
    | inr e ↦ let (j, t) = Among-select p x xs (rw e at i) in (inr j, t)
    | inl e ↦ elim (rw e at i) [
      | inl s ↦ (inl s, cc (s, e))
      | inr k ↦ let (j, t) = Among-select p x xs k in (inr j, t)
    ]
  ]

  Among-insert_by :
      (less : A → A → Bool) (x y : A) (ys : List A)
      → Among x (insert_by less y ys)
      → (x ≡ y) ⊎ Among x ys
  unfolding insert_by
  Among-insert_by less x y [] i = i
  Among-insert_by less x y (z ∷ ys) i = elim (Bool-cases (less z y)) [
    | inr e ↦ rw e at i
    | inl e ↦ elim (rw e at i) [
      | inl s ↦ inr (inl s)
      | inr k ↦ elim (Among-insert_by less x y ys k) [ inl s ↦ inl s | inr j ↦ inr (inr j) ]
    ]
  ]

  Among-sort_by :
      (less : A → A → Bool) (x : A) (xs : List A) → Among x (sort_by less xs) → Among x xs
  unfolding sort_by
  Among-sort_by less x [] i = i
  Among-sort_by less x (y ∷ xs) i = elim (Among-insert_by less x y (sort_by less xs) i) [
    | inl s ↦ inl s
    | inr j ↦ inr (Among-sort_by less x xs j)
  ]

  Among-take : (n : ℕ) (x : A) (xs : List A) → Among x (take n xs) → Among x xs
  Among-take zero x xs i = absurd i
  Among-take (suc n) x [] i = i
  Among-take (suc n) x (y ∷ xs) (inl s) = inl s
  Among-take (suc n) x (y ∷ xs) (inr i) = inr (Among-take n x xs i)

  get_last-Among : (x : A) (xs : List A) → get_last? xs ≡ some x → Among x xs
  get_last-Among x [] e = absurd (cc e)
  get_last-Among x (y ∷ []) e = inl (cc e)
  get_last-Among x (y ∷ z ∷ xs) e = inr (get_last-Among x (z ∷ xs) e)

module _ {A B : Type 0} where
  Among-map :
      (f : A → B) (b : B) (xs : List A) → Among b (map f xs) → (x : A) × Among x xs × (b ≡ f x)
  Among-map f b [] i = absurd i
  Among-map f b (x ∷ xs) (inl s) = (x, inl refl, s)
  Among-map f b (x ∷ xs) (inr i) = let (y, j, s) = Among-map f b xs i in (y, inr j, s)

module _ {A : Type 0} where
  page-next :
      (name : A → Text) (max_results : ℕ) (rows : List A) (next : Text)
      → (page name max_results rows).1 ≡ some next
      → (x : A) × Among x rows × (name x ≡ next)
  unfolding page
  page-next name max_results rows next h = elim (Option-cases (get_last? (take max_results rows))) [
    | inl e ↦ absurd (ground arith)
    | inr (x, e) ↦ (
      x,
      Among-take max_results x rows (get_last-Among x (take max_results rows) e),
      ground arith,
    )
  ]

module _ (x : Externals) (account container prefix : Text) where
  -- how many blobs of the listing come behind a marker
  abbrev pub remaining : Text → Db → ℕ
  remaining marker db = length (select (lists_blob x account container prefix marker) db.blobs)

  fewer :
      (marker next : Text) (r : BlobsRow) (db : Db)
      → Among r db.blobs
      → lists_blob x account container prefix marker r ≡ true
      → r.blob_name ≡ next
      → remaining next db < remaining marker db
  unfolding lists_blob
  fewer marker next r db i t n =
      let behind : lt marker next ≡ true = ground arith in
      select-lt (lists_blob x account container prefix next)
        (lists_blob x account container prefix marker) r db.blobs
        (λ y h.
          let both = lt_transitive marker next y.blob_name behind (ground arith) in ground arith)
        i (ground (arith, lt_irreflexive next)) t

  page-remaining :
      (marker : Text) (max_results limit : ℕ) (before : Db) (next : Text)
      → (page
          (λ (b : BlobRow). b.name)
          max_results
          (map (row_to_blob x) (query_blobs x account container prefix marker limit before))).1
        ≡ some next
      → remaining next before < remaining marker before
  unfolding query_blobs row_to_blob
  page-remaining marker max_results limit before next h =
      let selected = select (lists_blob x account container prefix marker) before.blobs in
      let sorted = sort_by by_blob_name selected in
      let (b, i, n) =
        page-next (λ (b : BlobRow). b.name) max_results (map (row_to_blob x) (take limit sorted))
          next h in
      let (r, j, s) = Among-map (row_to_blob x) b (take limit sorted) i in
      let k = Among-sort_by by_blob_name r selected (Among-take limit r sorted j) in
      let (l, t) = Among-select (lists_blob x account container prefix marker) r before.blobs k in
      fewer marker next r before l t (sym (ap (λ (z : BlobRow). z.name) s) ∙ n)

module _ (x : Externals) (account container : Text) (prefix marker : Option Text) (max_results : ℕ)
    (before : Db) where
  abbrev Advances : List BlobRow × Option Text → Type 0
  Advances (rows, following) =
      (next : Text)
      → following ≡ some next
      → remaining x account container (Option.get_or prefix []) next before
        < remaining x account container (Option.get_or prefix []) (Option.get_or marker []) before

  paged :
      (limit : ℕ) (rows : List BlobsRow)
      → Ends {E = AzureError}
          (λ db.
            rows
            ≡ query_blobs x account container
                (Option.get_or prefix [])
                (Option.get_or marker [])
                limit
                before)
          (pure (page (λ (b : BlobRow). b.name) max_results (map (row_to_blob x) rows)))
          (λ r db. Advances r)
          (λ _. Unit {0})
  unfolding ◌>>=◌
  paged limit rows = record {
    at = λ w h next e.
        page-remaining x account container (Option.get_or prefix []) (Option.get_or marker [])
          max_results limit before next (rw h at e);
  }

  list_blobs-Ends :
      Ends
        (λ db. db ≡ before)
        (list_blobs x account container prefix marker max_results)
        (λ r db. Advances r)
        (λ _. Unit {0})
  unfolding list_blobs require_container or_internal
  list_blobs-Ends =
      Ends-bind _ _ (Ends-Keeps_any _ (search keeps_rules))
        λ _. Ends-bind _ _ (Ends-map_err _ _ (Ends-fetch _ before tt)) (paged (max_results + 1))

  list_blobs-Advances :
      (r : Result AzureError (List BlobRow × Option Text)) (db : Db) (rows : List BlobRow)
      (following : Option Text)
      → Post (λ p d. Advances p) (λ _. Unit {0}) r db
      → r ≡ ok (rows, following)
      → Advances (rows, following)
  list_blobs-Advances (ok p) db rows following h e =
      let same : p ≡ (rows, following) = cc e in rw same at h
  list_blobs-Advances (err a) db rows following h e = absurd (cc e)

-- Where a page of List Blobs, whatever its size, prefix and marker, names a next marker, strictly fewer blobs of the listing come behind the next marker than
-- behind the marker that was asked with: following the markers comes to an end.
pub list_blobs_progress :
    (x : Externals) (account container : Text) (prefix marker : Option Text) (max_results : ℕ)
    (w : World) (rows : List BlobRow) (next : Text)
    → (list_blobs x account container prefix marker max_results w).0 ≡ ok (rows, some next)
    → remaining x account container (Option.get_or prefix []) next w.db
      < remaining x account container (Option.get_or prefix []) (Option.get_or marker []) w.db
list_blobs_progress x account container prefix marker max_results w rows next h =
    list_blobs-Advances x account container prefix marker max_results w.db _ _ rows (some next)
      ((list_blobs-Ends x account container prefix marker max_results w.db).at w refl) h next refl
