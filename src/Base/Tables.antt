-- ===== src/Base/Tables.antt =====
-- How the statements on a table meet the queries on it. A row is selected by a test.
use mathlib.Core.Option
use mert_blob_storage.Base.Tests.{Bool-cases, Option-cases}
use mert_blob_storage.Base.Lists.{All, find, select, remove, update, exists, upsert}
use mathlib.Core.Path.{◌≡◌, refl}
use mathlib.Core.Logic.{inl, inr}
use mathlib.Core.Bool.{Bool, true, false}
use mathlib.Core.List.{List, [], ◌∷◌, ◌++◌}
use mathlib.Core.Option.{Option, none, some}
use native.Mathlib.Omega.{arith}

module _ {ℓ} {A : Type ℓ} where
  -- The row that a query finds passes its test.
  pub find-test : (p : A → Bool) (xs : List A) {r : A} → find p xs ≡ some r → p r ≡ true
  unfolding find
  find-test p [] h = cc
  find-test p (x ∷ xs) {r} h = elim (Bool-cases (p x)) [
    | inl e ↦ ground arith
    | inr e ↦ find-test p xs (rw (e, find) at h)
  ]

  pub exists_iff_find :
      (p : A → Bool) (xs : List A)
      → exists p xs ≡ (elim (find p xs) [ none ↦ false | some _ ↦ true ])
  unfolding exists find
  exists_iff_find p [] = refl
  exists_iff_find p (x ∷ xs) = ground (arith, exists_iff_find p xs)

  pub find-append :
      (p : A → Bool) (xs ys : List A)
      → find p (xs ++ ys) ≡ (elim (find p xs) [ none ↦ find p ys | some r ↦ some r ])
  unfolding find
  find-append p [] ys = refl
  find-append p (x ∷ xs) ys = ground (arith, find-append p xs ys)

  module _ (p q : A → Bool) where
    -- A query that selects only deleted rows finds nothing.
    pub find-remove_under :
        ((r : A) → q r ≡ true → p r ≡ true) → (xs : List A) → find q (remove p xs) ≡ none
    unfolding find remove
    find-remove_under h [] = refl
    find-remove_under h (x ∷ xs) = ground (arith, find-remove_under h xs, h x)

    -- A query that selects no deleted row finds what it found before.
    pub find-remove_apart :
        ((r : A) → q r ≡ true → p r ≡ false) → (xs : List A) → find q (remove p xs) ≡ find q xs
    unfolding find remove
    find-remove_apart h [] = refl
    find-remove_apart h (x ∷ xs) = ground (arith, find-remove_apart h xs, h x)

    pub select-remove_apart :
        ((r : A) → q r ≡ true → p r ≡ false) → (xs : List A) → select q (remove p xs) ≡ select q xs
    unfolding select remove
    select-remove_apart h [] = refl
    select-remove_apart h (x ∷ xs) = ground (arith, select-remove_apart h xs, h x)

    pub select-remove_under :
        ((r : A) → q r ≡ true → p r ≡ true) → (xs : List A) → select q (remove p xs) ≡ []
    unfolding select remove
    select-remove_under h [] = refl
    select-remove_under h (x ∷ xs) = ground (arith, select-remove_under h xs, h x)

  module _ (p q : A → Bool) (f : A → A) where
    -- An update that keeps the query's test, of the rows that the query selects and no others.
    pub find-update :
        ((r : A) → q r ≡ true → p r ≡ true)
        → ((r : A) → q (f r) ≡ q r)
        → (xs : List A) → find q (update p f xs) ≡ Option.map f (find q xs)
    unfolding find update
    find-update h k [] = refl
    find-update h k (x ∷ xs) = ground (arith, find-update h k xs, h x, k x)

    pub find-update_apart :
        ((r : A) → p r ≡ true → q r ≡ false)
        → ((r : A) → p r ≡ true → q (f r) ≡ false)
        → (xs : List A) → find q (update p f xs) ≡ find q xs
    unfolding find update
    find-update_apart h k [] = refl
    find-update_apart h k (x ∷ xs) = ground (arith, find-update_apart h k xs, h x, k x)

  module _ (p q : A → Bool) where
    find_under :
        ((r : A) → q r ≡ true → p r ≡ true) → (xs : List A) → find p xs ≡ none → find q xs ≡ none
    unfolding find
    find_under h [] e = refl
    find_under h (x ∷ xs) e = ground (arith, find_under h xs, h x)

    find-update_hit :
        (f : A → A)
        → ((r : A) → q r ≡ true → p r ≡ true)
        → ((r : A) → p r ≡ true → q (f r) ≡ true)
        → (xs : List A) → find q (update p f xs) ≡ Option.map f (find p xs)
    unfolding find update
    find-update_hit f h k [] = refl
    find-update_hit f h k (x ∷ xs) = ground (arith, find-update_hit f h k xs, h x, k x)

  abbrev pub merged : A → (A → A) → Option A → A
  merged new f none = new
  merged new f (some r) = f r

  module _ (p q : A → Bool) (new : A) (f : A → A) where
    -- After INSERT … ON CONFLICT DO UPDATE the query for the key finds the new row, or the old row
    -- with the update.
    pub find-upsert :
        ((r : A) → q r ≡ true → p r ≡ true)
        → ((r : A) → p r ≡ true → q (f r) ≡ true)
        → q new ≡ true
        → (xs : List A) → find q (upsert p new f xs) ≡ some (merged new f (find p xs))
    unfolding upsert find
    find-upsert h k n xs = elim (Option-cases (find p xs)) [
      | inl e ↦
          ground (arith, exists_iff_find p xs, find-append q xs (new ∷ []), find_under p q h xs)
      | inr (r, e) ↦ ground (arith, exists_iff_find p xs, find-update_hit p q f h k xs)
    ]

    pub find-upsert_apart :
        ((r : A) → p r ≡ true → q r ≡ false)
        → ((r : A) → p r ≡ true → q (f r) ≡ false)
        → q new ≡ false
        → (xs : List A) → find q (upsert p new f xs) ≡ find q xs
    unfolding upsert find
    find-upsert_apart h k n xs =
        ground (arith, find-append q xs (new ∷ []), find-update_apart p q f h k xs)

-- Invariants of the rows.
module _ {ℓ κ} {A : Type ℓ} (P : A → Type κ) where
  pub All-append : (xs ys : List A) → All P xs → All P ys → All P (xs ++ ys)
  All-append [] ys h k = k
  All-append (x ∷ xs) ys (p, h) k = (p, All-append xs ys h k)

  pub All-remove : (p : A → Bool) (xs : List A) → All P xs → All P (remove p xs)
  unfolding remove
  All-remove p [] h = tt
  All-remove p (x ∷ xs) (a, h) = elim (Bool-cases (p x)) [
    | inl e ↦ rw e (All-remove p xs h)
    | inr e ↦ rw e (a, All-remove p xs h)
  ]

  pub All-update :
      (p : A → Bool) (f : A → A)
      → ((r : A) → p r ≡ true → P r → P (f r))
      → (xs : List A) → All P xs
      → All P (update p f xs)
  unfolding update
  All-update p f k [] h = tt
  All-update p f k (x ∷ xs) (a, h) = elim (Bool-cases (p x)) [
    | inl e ↦ rw e (k x e a, All-update p f k xs h)
    | inr e ↦ rw e (a, All-update p f k xs h)
  ]

  pub All-upsert :
      (p : A → Bool) (new : A) (f : A → A)
      → ((r : A) → p r ≡ true → P r → P (f r))
      → P new
      → (xs : List A) → All P xs
      → All P (upsert p new f xs)
  unfolding upsert
  All-upsert p new f k n xs h = elim (Bool-cases (exists p xs)) [
    | inl e ↦ rw e (All-update p f k xs h)
    | inr e ↦ rw e (All-append xs (new ∷ []) h (n, tt))
  ]

module _ {ℓ κ λ'} {A : Type ℓ} {P : A → Type κ} {Q : A → Type λ'} where
  pub All-map : ((r : A) → P r → Q r) → (xs : List A) → All P xs → All Q xs
  All-map k [] h = tt
  All-map k (x ∷ xs) (a, h) = (k x a, All-map k xs h)

module _ {ℓ κ λ' μ} {A : Type ℓ} {P : A → Type κ} {Q : A → Type λ'} {R : A → Type μ} where
  pub All-both : ((r : A) → P r → Q r → R r) → (xs : List A) → All P xs → All Q xs → All R xs
  All-both k [] h g = tt
  All-both k (x ∷ xs) (a, h) (b, g) = (k x a b, All-both k xs h g)
