-- ===== src/Xml/Proofs/Escape.antt =====
-- `xml_escape` of crates/blobstore-xml/src/lib.rs
use mert_blob_storage.Base.{ℕ, ◌≡◌, sym, ◌⊎◌, refl, false, [], ◌∷◌, ◌++◌, arith}
use mert_blob_storage.Base.Text.{Text, contains}
use mert_blob_storage.Xml.Escape.{escape_char, xml_escape}

pub contains-append :
    (c : ℕ) (s t : Text) → contains c s ≡ false → contains c t ≡ false → contains c (s ++ t) ≡ false
unfolding contains
contains-append c [] t h k = k
contains-append c (d ∷ s) t h k = ground (arith, contains-append c s t)

-- the characters that would end a text or an attribute
abbrev pub IsMarkup : ℕ → Type 0
IsMarkup m = ((m ≡ b'<') ⊎ (m ≡ b'>')) ⊎ ((m ≡ b'"') ⊎ (m ≡ 39))

escape_char-markup : (m c : ℕ) → IsMarkup m → contains m (escape_char c) ≡ false
unfolding escape_char contains
escape_char-markup m c h = ground arith

-- An escaped text holds no angle bracket and no quote, whatever the text.
pub xml_escape_safe : (m : ℕ) (s : Text) → IsMarkup m → contains m (xml_escape s) ≡ false
unfolding xml_escape contains
xml_escape_safe m [] h = refl
xml_escape_safe m (c ∷ s) h =
    contains-append m (escape_char c) (xml_escape s) (escape_char-markup m c h)
      (xml_escape_safe m s h)

escape_char-first :
    (c d : ℕ) (x y : Text) → escape_char c ++ x ≡ escape_char d ++ y → (c ≡ d) × (x ≡ y)
unfolding escape_char
escape_char-first c d x y h = ground arith

escape_char-cons : (c : ℕ) (x : Text) → ¬ (escape_char c ++ x ≡ [])
unfolding escape_char
escape_char-cons c x h = ground arith

-- Texts that are escaped to the same text are the same.
pub xml_escape_injective : (s t : Text) → xml_escape s ≡ xml_escape t → s ≡ t
unfolding xml_escape
xml_escape_injective [] [] h = refl
xml_escape_injective [] (d ∷ t) h = absurd (escape_char-cons d (xml_escape t) (sym h))
xml_escape_injective (c ∷ s) [] h = absurd (escape_char-cons c (xml_escape s) h)
xml_escape_injective (c ∷ s) (d ∷ t) h =
    let (e, rest) = escape_char-first c d (xml_escape s) (xml_escape t) h in
    cc (e, xml_escape_injective s t rest)
