-- ===== src/Base/Numbers.antt =====
-- Decimal numbers in texts: `str::parse` of the unsigned integers.
pub mod RoundTrip
use mathlib.Core.Option
use Prim.Native.Nat.{ℕ, ◌+◌, ◌-◌, ◌*◌, ◌^◌}
use mathlib.Core.Bool.{Bool, true, false, ◌||◌}
use mathlib.Core.List.{List, [], ◌∷◌}
use mathlib.Core.Option.{Option, none, some}
use mert_blob_storage.Base.Tests.{ltb, leb, eqb, if◌then◌else◌}
use mert_blob_storage.Base.Text.{Text}

-- a digit after the number that was read; a number past `max` is an error
unfoldable pub scan : ℕ → Text → ℕ → Option ℕ
scan max [] n = some n
scan max (c ∷ s) n =
    let m = n * 10 + (c - b'0') in
    let rest = scan max s m in
    if ltb c b'0' || ltb b'9' c then none else if ltb max m then none else rest

-- at least one digit
unfoldable pub scan_digits : ℕ → Text → Option ℕ
unfolding scan
scan_digits max [] = none
scan_digits max (c ∷ s) = scan max (c ∷ s) 0

-- a plus sign may stand in front
unfoldable pub parse_unsigned : ℕ → Text → Option ℕ
unfolding scan_digits
parse_unsigned max [] = none
parse_unsigned max (c ∷ s) = if eqb c b'+' then scan_digits max s else scan_digits max (c ∷ s)

abbrev pub max_u64 : ℕ
max_u64 = 2 ^ 64 - 1

abbrev pub max_u32 : ℕ
max_u32 = 2 ^ 32 - 1
