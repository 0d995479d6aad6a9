-- ===== src/Xml/Escape.antt =====
-- `xml_escape` of crates/blobstore-xml/src/lib.rs. Its five characters are ASCII, so the map of the
-- characters is the map of the bytes.
use mert_blob_storage.Base.{ℕ, [], ◌∷◌, ◌++◌, eqb, if◌then◌else◌}
use mert_blob_storage.Base.Text.{Text, codes}

unfoldable pub escape_char : ℕ → Text
escape_char c =
    if eqb c b'&'
    then codes "&amp;"
    else if eqb c b'<'
    then codes "&lt;"
    else if eqb c b'>'
    then codes "&gt;"
    else if eqb c b'"'
    then codes "&quot;"
    else if eqb c 39
    then codes "&apos;"
    else c ∷ []

unfoldable pub xml_escape : Text → Text
unfolding escape_char
xml_escape [] = []
xml_escape (c ∷ s) = escape_char c ++ xml_escape s

-- `<name>body</name>`
abbrev pub element : Text → Text → Text
element name body = b'<' ∷ (name ++ (b'>' ∷ (body ++ (codes "</" ++ (name ++ (b'>' ∷ []))))))
