-- ===== src/Base/Rows.antt =====
-- Which rows a table holds after an insertion, an update or a removal.
use mathlib.Core.Path.{◌≡◌, refl}
use mathlib.Core.Logic.{inl, inr}
use mathlib.Core.Bool.{Bool, true, false}
use mathlib.Core.List.{List, [], ◌∷◌, ◌++◌}
use native.Mathlib.Omega.{arith}
use mert_blob_storage.Base.Tests.{Bool-cases}
use mert_blob_storage.Base.Lists.{All, remove, update, exists}

module _ {ℓ} {A : Type ℓ} where
  pub All-of_remove : (p : A → Bool) (xs : List A) → All (λ y. p y ≡ false) (remove p xs)
  unfolding remove
  All-of_remove p [] = tt
  All-of_remove p (x ∷ xs) = elim (Bool-cases (p x)) [
    | inl e ↦ rw e (All-of_remove p xs)
    | inr e ↦ rw e (e, All-of_remove p xs)
  ]

  pub exists-append :
      (p : A → Bool) (xs ys : List A) → exists p xs ≡ true → exists p (xs ++ ys) ≡ true
  unfolding exists
  exists-append p [] ys h = cc
  exists-append p (x ∷ xs) ys h = ground (arith, exists-append p xs ys)

  -- An update that keeps the key tested by `q` does not change whether the key is there.
  pub exists-update :
      (p q : A → Bool) (f : A → A)
      → ((r : A) → q (f r) ≡ q r)
      → (xs : List A) → exists q (update p f xs) ≡ exists q xs
  unfolding exists update
  exists-update p q f k [] = refl
  exists-update p q f k (x ∷ xs) = ground (arith, k x, exists-update p q f k xs)

  pub exists-remove_apart :
      (p q : A → Bool)
      → ((r : A) → q r ≡ true → p r ≡ false)
      → (xs : List A) → exists q (remove p xs) ≡ exists q xs
  unfolding exists remove
  exists-remove_apart p q h [] = refl
  exists-remove_apart p q h (x ∷ xs) = ground (arith, exists-remove_apart p q h xs, h x)
