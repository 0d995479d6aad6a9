-- ===== src/Core/Time.antt =====
-- crates/blobstore-core/src/lib.rs: the date format of the HTTP headers, and the ETag. The calendar
-- of the `time` crate is a parameter of the callers; here stand only the fields that it yields.
use Prim.Native.String.{String}
use mert_blob_storage.Base.{
  ℕ, zero, suc, ◌+◌, ◌-◌, ◌/◌, ◌%◌, List, [], ◌∷◌, ◌++◌, ltb, if◌then◌else◌,
}
use mert_blob_storage.Base.Text.{Text, codes, pad}

-- what `format_http_date` reads of a `time::OffsetDateTime` in UTC
pub record DateTime : Type 0 where
  pub number_days_from_monday : ℕ
  pub day : ℕ
  pub month : ℕ
  pub year : ℕ
  pub hour : ℕ
  pub minute : ℕ
  pub second : ℕ

-- an index into a constant table; the table is never left, so the default is not reached
name_at : List String → ℕ → Text
name_at [] i = []
name_at (s ∷ ss) zero = codes s
name_at (s ∷ ss) (suc i) = name_at ss i

abbrev weekdays : List String
weekdays = "Mon" ∷ "Tue" ∷ "Wed" ∷ "Thu" ∷ "Fri" ∷ "Sat" ∷ "Sun" ∷ []

abbrev months : List String
months =
    "Jan" ∷ "Feb" ∷ "Mar" ∷ "Apr" ∷ "May" ∷ "Jun" ∷ "Jul" ∷ "Aug" ∷ "Sep" ∷ "Oct" ∷ "Nov" ∷ "Dec"
    ∷ []

unfoldable pub format_http_date : DateTime → Text
unfolding name_at pad
format_http_date t =
    name_at weekdays t.number_days_from_monday
    ++ codes ", "
    ++ pad 2 t.day
    ++ codes " "
    ++ name_at months (t.month - 1)
    ++ codes " "
    ++ pad 4 t.year
    ++ codes " "
    ++ pad 2 t.hour
    ++ codes ":"
    ++ pad 2 t.minute
    ++ codes ":"
    ++ pad 2 t.second
    ++ codes " GMT"

-- hexadecimal printing, from the letter that stands for ten; the fuel is the number and one more
hex_digit : ℕ → ℕ → ℕ
hex_digit ten d = if ltb d 10 then b'0' + d else ten + (d - 10)

pub hex_from : ℕ → ℕ → ℕ → Text → Text
hex_from ten zero n acc = acc
hex_from ten (suc f) n acc =
    let more = hex_from ten f (n / 16) (hex_digit ten (n % 16) ∷ acc) in
    if ltb n 16 then hex_digit ten n ∷ acc else more

-- `{:X}`
unfoldable pub upper_hex : ℕ → Text
unfolding hex_from hex_digit
upper_hex n = hex_from b'A' (suc n) n []

-- `{:x}`
unfoldable pub lower_hex : ℕ → Text
unfolding hex_from hex_digit
lower_hex n = hex_from b'a' (suc n) n []

-- from the nanoseconds since 1970
unfoldable pub generate_etag : ℕ → Text
unfolding upper_hex
generate_etag nanos = codes "\"0x" ++ upper_hex nanos ++ codes "\""
