-- ===== src/Api/Proofs/Ranges.antt =====
-- The Range header, from the numbers that a client writes to those that the backend gets.
use mert_blob_storage.Base.{
  ℕ, suc, ◌<◌, ◌≤◌, ◌≡◌, refl, false, Option, none, some, [], ◌∷◌, ◌++◌, arith,
}
use mert_blob_storage.Base.Text.{Text, codes, contains, strip_prefix, is_empty, to_string}
use mert_blob_storage.Base.Numbers.{parse_unsigned, max_u64}
use mert_blob_storage.Base.Numbers.RoundTrip.{
  contains-digits_from, parse_unsigned-to_string, to_string-is_empty,
}
use mert_blob_storage.Xml.Proofs.Escape.{contains-append}
use mert_blob_storage.Api.Helpers.{range_end, parse_range, single_range, range_bounds}
use mert_blob_storage.Api.Proofs.Access.{split_once-append}

contains-to_string : (x n : ℕ) → x < b'0' → contains x (to_string n) ≡ false
unfolding to_string contains
contains-to_string x n h = contains-digits_from x (suc n) n [] h refl

-- the text of the end of a range, if it has one
abbrev pub end_text : Option ℕ → Text
end_text none = []
end_text (some end) = to_string end

abbrev pub end_of : Option ℕ → ℕ
end_of none = max_u64
end_of (some end) = end

contains-end_text : (x : ℕ) (end : Option ℕ) → x < b'0' → contains x (end_text end) ≡ false
unfolding contains
contains-end_text x none h = refl
contains-end_text x (some end) h = contains-to_string x end h

-- no comma behind the dash
no_comma : (end : Option ℕ) → contains b',' (b'-' ∷ end_text end) ≡ false
unfolding contains
no_comma end = contains-end_text b',' end (omega arith)

range_end-parse : (c : ℕ) (s : Text) → is_empty s ≡ false → range_end s ≡ parse_unsigned max_u64 s
unfolding range_end is_empty
range_end-parse c [] h = absurd (ground arith)
range_end-parse c (d ∷ s) h = refl

range_end-end_text :
    (end : Option ℕ) → end_of end ≤ max_u64 → range_end (end_text end) ≡ some (end_of end)
unfolding range_end
range_end-end_text none h = refl
range_end-end_text (some end) h = cc (
  range_end-parse 0 (to_string end) (to_string-is_empty end),
  parse_unsigned-to_string max_u64 end h,
)

-- A Range header with one range, whose start and end are the decimal digits of two numbers of 64 bits,
-- is read as these two numbers; one with no end has the largest number of 64 bits in its place.
pub parse_range_roundtrip :
    (start : ℕ) (end : Option ℕ)
    → start ≤ max_u64
    → end_of end ≤ max_u64
    → parse_range (codes "bytes=" ++ (to_string start ++ (b'-' ∷ end_text end)))
      ≡ some (start, end_of end)
unfolding parse_range strip_prefix single_range range_bounds
parse_range_roundtrip start end h k =
    let comma =
      contains-append b',' (to_string start) (b'-' ∷ end_text end)
        (contains-to_string b',' start (omega arith)) (no_comma end) in
    let split =
      split_once-append b'-' (to_string start) (end_text end)
        (contains-to_string b'-' start (omega arith)) in
    rw comma (
      rw split (
        rw (to_string-is_empty start)
          (rw (parse_unsigned-to_string max_u64 start h, range_end-end_text end k) refl)))
