-- ===== src/Xml/Proofs/BlockList.antt =====
-- The order of the blocks in the body of Put Block List.
use mert_blob_storage.Base.{◌≡◌, refl, none, some, List, [], ◌∷◌, ◌++◌}
use mathlib.Core.List.{append-nil, append_assoc}
use mert_blob_storage.Base.Text.{Text, codes, ◌==◌}
use mert_blob_storage.Storage.Exec.{ok, err}
use mert_blob_storage.Core.Error.{azure_error, invalid_block_list}
use mert_blob_storage.Storage.Types.{BlockRefKind, committed, uncommitted, latest, BlockRef}
use mert_blob_storage.Xml.BlockList.{
  XmlEvent, start_tag, text_event, other_event, eof, XmlReader, kind_of, read_blocks,
  parse_block_list_request,
}

-- the tag of each kind
abbrev pub tag_of : BlockRefKind → Text
tag_of committed = codes "Committed"
tag_of uncommitted = codes "Uncommitted"
tag_of latest = codes "Latest"

-- the events of the elements of a list, one after another
abbrev pub elements : List BlockRef → List XmlEvent → List XmlEvent
elements [] events = events
elements (r ∷ refs) events =
    start_tag (tag_of r.kind) ∷ text_event (ok r.block_id) ∷ other_event ∷ elements refs events

-- the events of a document, behind its declaration
abbrev pub document : List BlockRef → List XmlEvent
document refs = other_event ∷ start_tag (codes "BlockList") ∷ elements refs (other_event ∷ eof ∷ [])

kind_of-tag_of : (k : BlockRefKind) → kind_of (tag_of k) ≡ some k
unfolding kind_of ◌==◌
kind_of-tag_of committed = refl
kind_of-tag_of uncommitted = refl
kind_of-tag_of latest = refl

read_blocks-elements :
    (refs blocks : List BlockRef)
    → read_blocks none blocks (elements refs (other_event ∷ eof ∷ [])) ≡ ok (blocks ++ refs)
unfolding read_blocks
read_blocks-elements [] blocks = rw (append-nil blocks) refl
read_blocks-elements (r ∷ refs) blocks =
    let tagged : read_blocks none blocks (elements (r ∷ refs) (other_event ∷ eof ∷ []))
        ≡ read_blocks (some r.kind) blocks
            (text_event (ok r.block_id) ∷ other_event ∷ elements refs (other_event ∷ eof ∷ [])) =
      rw (kind_of-tag_of r.kind, read_blocks) refl in
    cc (tagged, read_blocks-elements refs (blocks ++ r ∷ []), append_assoc blocks (r ∷ []) refs)

-- Where the reader finds in a body the elements of a block list one after another, the parsed list has
-- the same blocks, each with its kind, in the order of the document; a body with none is refused.
pub parse_block_list_request_order :
    (reader : XmlReader) (body : Text) (refs : List BlockRef)
    → reader.read_events body ≡ document refs
    → parse_block_list_request reader body
      ≡ elim refs [ [] ↦ err (azure_error invalid_block_list) | r ∷ rest ↦ ok (r ∷ rest) ]
unfolding parse_block_list_request read_blocks kind_of ◌==◌
parse_block_list_request_order reader body [] h = rw h refl
parse_block_list_request_order reader body (r ∷ refs) h =
    rw h (rw (read_blocks-elements (r ∷ refs) []) refl)
