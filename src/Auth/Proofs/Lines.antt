-- ===== src/Auth/Proofs/Lines.antt =====
-- The string to sign determines what is signed.
use mert_blob_storage.Base.{
  ℕ, suc, zero, ◌+◌, ◌≡◌, refl, sym, ◌∙◌, ap, false, true, Option, none, some, List, [], ◌∷◌, ◌++◌,
  arith, eqb, if◌then◌else◌, All,
}
use mert_blob_storage.Base.Lists.{length, drop}
use mert_blob_storage.Base.Text.{Text, contains}
use mert_blob_storage.Auth.Sas.{
  SasParams, join_lines, lines_to_sign, string_to_sign, canonicalized_resource,
}

count : ℕ → Text → ℕ
count c [] = 0
count c (d ∷ s) = if eqb d c then suc (count c s) else count c s

count-append : (c : ℕ) (s t : Text) → count c (s ++ t) ≡ count c s + count c t
unfolding count
count-append c [] t = omega arith
count-append c (d ∷ s) t = ground (arith, count-append c s t)

count_zero : (c : ℕ) (s : Text) → contains c s ≡ false → count c s ≡ 0
unfolding count contains
count_zero c [] h = refl
count_zero c (d ∷ s) h = ground (arith, count_zero c s)

contains_of_count : (c : ℕ) (s : Text) → count c s ≡ 0 → contains c s ≡ false
unfolding count contains
contains_of_count c [] h = refl
contains_of_count c (d ∷ s) h = ground (arith, contains_of_count c s)

-- Before the first separator there is one way to split.
pub split_unique :
    (c : ℕ) (s t r q : Text)
    → contains c s ≡ false
    → contains c t ≡ false
    → s ++ c ∷ r ≡ t ++ c ∷ q
    → (s ≡ t) × (r ≡ q)
unfolding contains
split_unique c [] [] r q h k e = ground (arith)
split_unique c [] (y ∷ t) r q h k e = ground (arith)
split_unique c (x ∷ s) [] r q h k e = ground (arith)
split_unique c (x ∷ s) (y ∷ t) r q h k e = ground (arith, split_unique c s t r q)

breaks : List Text → ℕ
breaks [] = 0
breaks (s ∷ ss) = count b'\n' s + breaks ss

count-join_lines :
    (s : Text) (ss : List Text) → count b'\n' (join_lines (s ∷ ss)) ≡ length ss + breaks (s ∷ ss)
unfolding join_lines breaks count
count-join_lines s [] = omega arith
count-join_lines s (t ∷ ts) =
    omega (arith, count-append b'\n' s (b'\n' ∷ join_lines (t ∷ ts)), count-join_lines t ts)

abbrev pub IsLine : Text → Type 0
IsLine s = contains b'\n' s ≡ false

breaks_zero : (ss : List Text) → All IsLine ss → breaks ss ≡ 0
unfolding breaks
breaks_zero [] h = refl
breaks_zero (s ∷ ss) (a, h) = omega (arith, count_zero b'\n' s a, breaks_zero ss h)

lines_of_breaks : (ss : List Text) → breaks ss ≡ 0 → All IsLine ss
unfolding breaks
lines_of_breaks [] h = tt
lines_of_breaks (s ∷ ss) h =
    (contains_of_count b'\n' s (omega arith), lines_of_breaks ss (omega arith))

join_lines_unique :
    (s t : Text) (ss ts : List Text)
    → length ss ≡ length ts
    → All IsLine (s ∷ ss)
    → All IsLine (t ∷ ts)
    → join_lines (s ∷ ss) ≡ join_lines (t ∷ ts)
    → (s ∷ ss) ≡ (t ∷ ts)
unfolding join_lines
join_lines_unique s t [] [] n h k e = ground arith
join_lines_unique s t [] (v ∷ ts) n h k e = ground arith
join_lines_unique s t (u ∷ ss) [] n h k e = ground arith
join_lines_unique s t (u ∷ ss) (v ∷ ts) n (a, h) (b, k) e =
    let (p, q) = split_unique b'\n' s t _ _ a b e in
    cc (p, join_lines_unique u v ss ts (omega arith) h k q)

-- Texts of which the first are known to be lines are determined by the joined text: the others
-- cannot hold more line breaks.
pub join_lines_injective :
    (s t : Text) (ss ts : List Text)
    → length ss ≡ length ts
    → All IsLine (s ∷ ss)
    → join_lines (s ∷ ss) ≡ join_lines (t ∷ ts)
    → (s ∷ ss) ≡ (t ∷ ts)
join_lines_injective s t ss ts n h e =
    let same = ap (count b'\n') e in
    let none_there : breaks (t ∷ ts) ≡ 0 =
      omega (arith, count-join_lines s ss, count-join_lines t ts, breaks_zero (s ∷ ss) h) in
    join_lines_unique s t ss ts n h (lines_of_breaks (t ∷ ts) none_there) e

abbrev IsName : Text → Type 0
IsName s = contains b'/' s ≡ false

contains-append : (c : ℕ) (s t : Text) → contains c (s ++ c ∷ t) ≡ true
unfolding contains
contains-append c [] t = ground arith
contains-append c (d ∷ s) t = ground (arith, contains-append c s t)

names_apart : (c d b : Text) → IsName c → c ≡ d ++ b'/' ∷ b → (true ≡ false)
names_apart c d b h e = sym (contains-append b'/' d b) ∙ sym (ap (contains b'/') e) ∙ h

resource_parts :
    (c d : Text) (b e : Option Text)
    → IsName c
    → IsName d
    → (a : Text) → IsName a
    → (a' : Text) → IsName a'
    → canonicalized_resource a c b ≡ canonicalized_resource a' d e
    → (a ≡ a') × (c ≡ d) × (b ≡ e)
unfolding canonicalized_resource
resource_parts c d none none h k a ha a' ha' q =
    let (x, y) = split_unique b'/' a a' c d ha ha' (ap (drop 6) q) in (x, y, refl)
resource_parts c d none (some e) h k a ha a' ha' q =
    let (x, y) = split_unique b'/' a a' c (d ++ b'/' ∷ e) ha ha' (ap (drop 6) q) in
    ground (arith, names_apart c d e)
resource_parts c d (some b) none h k a ha a' ha' q =
    let (x, y) = split_unique b'/' a a' (c ++ b'/' ∷ b) d ha ha' (ap (drop 6) q) in
    ground (arith, names_apart d c b)
resource_parts c d (some b) (some e) h k a ha a' ha' q =
    let (x, y) = split_unique b'/' a a' (c ++ b'/' ∷ b) (d ++ b'/' ∷ e) ha ha' (ap (drop 6) q) in
    let (z, w) = split_unique b'/' c d b e h k y in (x, z, ap some w)

nth : ℕ → List Text → Text
nth n [] = []
nth zero (s ∷ ss) = s
nth (suc n) (s ∷ ss) = nth n ss

-- the parameters, from the lines
from_lines : Text → List Text → SasParams
from_lines sig ss = record {
  sp = nth 0 ss;
  st = nth 1 ss;
  se = nth 2 ss;
  si = nth 4 ss;
  sip = nth 5 ss;
  spr = nth 6 ss;
  sv = nth 7 ss;
  sr = nth 8 ss;
  rscc = nth 11 ss;
  rscd = nth 12 ss;
  rsce = nth 13 ss;
  rscl = nth 14 ss;
  rsct = nth 15 ss;
  sig = sig;
}

from_lines_lem :
    (resource sig : Text) (p : SasParams)
    → from_lines sig (lines_to_sign resource p) ≡ record p { sig = sig }
unfolding from_lines lines_to_sign nth
from_lines_lem resource sig p = refl

resource_at :
    (resource resource' : Text) (p q : SasParams)
    → lines_to_sign resource p ≡ lines_to_sign resource' q
    → resource ≡ resource'
unfolding lines_to_sign nth
resource_at resource resource' p q e = ap (nth 3) e

-- One signature is good for one grant: where the account and container names hold no slash and no
-- line of the first grant holds a line break, a second grant with the same string to sign is for the
-- same account, container and blob, and it has the same parameters (the signature apart).
pub string_to_sign_injective :
    (account container account' container' : Text) (blob blob' : Option Text) (p q : SasParams)
    → contains b'/' account ≡ false
    → contains b'/' container ≡ false
    → contains b'/' account' ≡ false
    → contains b'/' container' ≡ false
    → All IsLine (lines_to_sign (canonicalized_resource account container blob) p)
    → string_to_sign account container blob p ≡ string_to_sign account' container' blob' q
    → (account ≡ account')
      × (container ≡ container')
      × (blob ≡ blob')
      × (p ≡ record q { sig = p.sig })
unfolding string_to_sign lines_to_sign
string_to_sign_injective account container account' container' blob blob' p q ha hc ha' hc' h e =
    let resource = canonicalized_resource account container blob in
    let resource' = canonicalized_resource account' container' blob' in
    let same : lines_to_sign resource p ≡ lines_to_sign resource' q =
      join_lines_injective p.sp q.sp _ _ refl h e in
    let (a, c, b) =
      resource_parts container container' blob blob' hc hc' account ha account' ha'
        (resource_at resource resource' p q same) in
    (
      a,
      c,
      b,
      sym (from_lines_lem resource p.sig p)
          ∙ ap (from_lines p.sig) same
          ∙ from_lines_lem resource' p.sig q,
    )
