-- ===== src/Base/Numbers/RoundTrip.antt =====
-- A number that is printed is read back.
use Prim.Native.Nat.{ℕ, zero, suc, ◌+◌, ◌*◌, ◌/◌, ◌%◌, ◌<◌, ◌≤◌}
use mathlib.Core.Path.{◌≡◌, refl}
use mathlib.Core.Logic.{inl, inr}
use mathlib.Core.Bool.{false}
use mathlib.Core.List.{[], ◌∷◌}
use mathlib.Core.Option.{some}
use native.Mathlib.Omega.{arith}
use mert_blob_storage.Base.Tests.{ltb, eqb, Bool-cases}
use mert_blob_storage.Base.Text.{Text, digits_from, to_string, contains, is_empty}
use mert_blob_storage.Base.Numbers.{scan, scan_digits, parse_unsigned}

scan_digit :
    (max n d : ℕ) (acc : Text)
    → d < 10
    → n * 10 + d ≤ max
    → scan max ((b'0' + d) ∷ acc) n ≡ scan max acc (n * 10 + d)
unfolding scan
scan_digit max n d acc h k = ground arith

pub scan-digits_from :
    (max f n : ℕ) (acc : Text) → n < f → n ≤ max → scan max (digits_from f n acc) 0 ≡ scan max acc n
unfolding digits_from
scan-digits_from max zero n acc h k = absurd (omega arith)
scan-digits_from max (suc f) n acc h k = elim (Bool-cases (ltb n 10)) [
  | inl e ↦
      let last = scan_digit max 0 n acc (ground arith) (omega arith) in
      let zero_plus : 0 * 10 + n ≡ n = omega arith in rw e (cc (last, zero_plus))
  | inr e ↦
      let step =
        scan-digits_from max f (n / 10) ((b'0' + n % 10) ∷ acc) (ground arith) (omega arith) in
      let last = scan_digit max (n / 10) (n % 10) acc (omega arith) (omega arith) in
      let whole : n / 10 * 10 + n % 10 ≡ n = omega arith in rw e (cc (step, last, whole))
]

pub contains-digits_from :
    (x f n : ℕ) (acc : Text)
    → x < b'0'
    → contains x acc ≡ false
    → contains x (digits_from f n acc) ≡ false
unfolding digits_from contains
contains-digits_from x zero n acc h k = k
contains-digits_from x (suc f) n acc h k =
    ground (arith, contains-digits_from x f (n / 10) ((b'0' + n % 10) ∷ acc))

-- what is not empty and does not start with a plus sign
abbrev pub IsPlain : Text → Type 0
IsPlain [] = ⊥
IsPlain (c ∷ s) = eqb c b'+' ≡ false

digits_from-IsPlain : (f n : ℕ) (acc : Text) → n < f → IsPlain (digits_from f n acc)
unfolding digits_from
digits_from-IsPlain zero n acc h = absurd (omega arith)
digits_from-IsPlain (suc f) n acc h = elim (Bool-cases (ltb n 10)) [
  | inl e ↦ rw e (ground arith)
  | inr e ↦ rw e (digits_from-IsPlain f (n / 10) ((b'0' + n % 10) ∷ acc) (ground arith))
]

parse_unsigned-scan : (max : ℕ) (s : Text) → IsPlain s → parse_unsigned max s ≡ scan max s 0
unfolding parse_unsigned scan_digits
parse_unsigned-scan max [] h = absurd h
parse_unsigned-scan max (c ∷ s) h = rw h refl

pub parse_unsigned-to_string : (max n : ℕ) → n ≤ max → parse_unsigned max (to_string n) ≡ some n
unfolding to_string scan
parse_unsigned-to_string max n h =
    let plain = parse_unsigned-scan max _ (digits_from-IsPlain (suc n) n [] (omega arith)) in
    let read = scan-digits_from max (suc n) n [] (omega arith) h in cc (plain, read)

nonempty : (s : Text) → IsPlain s → is_empty s ≡ false
unfolding is_empty
nonempty [] h = absurd h
nonempty (c ∷ s) h = refl

pub to_string-is_empty : (n : ℕ) → is_empty (to_string n) ≡ false
unfolding to_string is_empty
to_string-is_empty n = nonempty _ (digits_from-IsPlain (suc n) n [] (omega arith))
