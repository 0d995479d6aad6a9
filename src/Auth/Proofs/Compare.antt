-- ===== src/Auth/Proofs/Compare.antt =====
-- The comparison in constant time is equality.
use Prim.Native.Nat.{max, digits, differ, bit_or, bit_xor, bit_or-bitwise, bit_xor-bitwise}
use mert_blob_storage.Base.{
  ℕ, zero, suc, ◌/◌, ◌%◌, ◌≤◌, ◌≡◌, ◌↔◌, refl, ap, sym, ◌∙◌, true, [], ◌∷◌, arith,
}
use mert_blob_storage.Base.Lists.{length}
use mert_blob_storage.Base.Text.{Text}
use mert_blob_storage.Auth.SharedKey.{differences, constant_time_eq}

eq_of_differ : (x y : ℕ) → differ x y ≡ 0 → x ≡ y
eq_of_differ zero y h = sym h
eq_of_differ (suc x) zero h = cc
eq_of_differ (suc x) (suc y) h = ap suc (eq_of_differ x y h)

differ_self : (x : ℕ) → differ x x ≡ 0
differ_self zero = refl
differ_self (suc x) = differ_self x

digits-differ : (n a b : ℕ) → a ≤ n → digits (λ y. y) differ n a b ≡ 0 → a ≡ b
digits-differ zero zero b h e = sym e
digits-differ zero (suc a) b h e = absurd (omega arith)
digits-differ (suc n) zero b h e = sym e
digits-differ (suc n) (suc a) b h e =
    let half = digits-differ n (suc a / 2) (b / 2) (omega arith) (omega arith) in
    let last = eq_of_differ (suc a % 2) (b % 2) (omega arith) in omega arith

digits-differ_self : (n a : ℕ) → a ≤ n → digits (λ y. y) differ n a a ≡ 0
digits-differ_self zero zero h = refl
digits-differ_self zero (suc a) h = absurd (omega arith)
digits-differ_self (suc n) zero h = refl
digits-differ_self (suc n) (suc a) h =
    omega (arith, digits-differ_self n (suc a / 2) (omega arith), differ_self (suc a % 2))

digits-max : (n a b : ℕ) → a ≤ n → digits (λ y. y) max n a b ≡ 0 → (a ≡ 0) × (b ≡ 0)
digits-max zero zero b h e = (refl, e)
digits-max zero (suc a) b h e = absurd (omega arith)
digits-max (suc n) zero b h e = (refl, e)
digits-max (suc n) (suc a) b h e =
    let (half, rest) = digits-max n (suc a / 2) (b / 2) (omega arith) (omega arith) in omega arith

eq_of_bit_xor : (a b : ℕ) → bit_xor a b ≡ 0 → a ≡ b
eq_of_bit_xor a b h = digits-differ a a b (omega arith) (sym (bit_xor-bitwise a b) ∙ h)

bit_xor_self : (a : ℕ) → bit_xor a a ≡ 0
bit_xor_self a = bit_xor-bitwise a a ∙ digits-differ_self a a (omega arith)

zero_of_bit_or : (a b : ℕ) → bit_or a b ≡ 0 → (a ≡ 0) × (b ≡ 0)
zero_of_bit_or a b h = digits-max a a b (omega arith) (sym (bit_or-bitwise a b) ∙ h)

differences_zero :
    (d : ℕ) (a b : Text) → length a ≡ length b → differences d a b ≡ 0 → (d ≡ 0) × (a ≡ b)
unfolding differences
differences_zero d [] [] n h = (h, refl)
differences_zero d [] (y ∷ b) n h = absurd (omega arith)
differences_zero d (x ∷ a) [] n h = absurd (omega arith)
differences_zero d (x ∷ a) (y ∷ b) n h =
    let (both, rest) = differences_zero (bit_or d (bit_xor x y)) a b (omega arith) h in
    let (old, new) = zero_of_bit_or d (bit_xor x y) both in (old, cc (eq_of_bit_xor x y new, rest))

differences_self : (a : Text) → differences 0 a a ≡ 0
unfolding differences
differences_self [] = refl
differences_self (x ∷ a) = rw (bit_xor_self x) (differences_self a)

-- The comparison that looks at every byte answers true exactly for equal texts.
pub constant_time_eq_exact : (a b : Text) → (constant_time_eq a b ≡ true) ↔ (a ≡ b)
unfolding constant_time_eq
constant_time_eq_exact a b = (
  λ h. (differences_zero 0 a b (ground arith) (ground arith)).1,
  λ h. rw h (rw (differences_self b) (ground arith)),
)
