-- ===== src/Xml/BlockList.antt =====
-- crates/blobstore-xml/src/block_list.rs: the request body of Put Block List, over the events of the
-- quick-xml reader, and the response body of Get Block List.
use mert_blob_storage.Base.{Option, none, some, List, [], ◌∷◌, ◌++◌, if◌then◌else◌}
use mert_blob_storage.Base.Text.{Text, codes, ◌==◌, to_string}
use mert_blob_storage.Core.Error.{
  AzureError, azure_error, with_message, invalid_xml_document, invalid_block_list,
}
use mert_blob_storage.Storage.Exec.{Result, ok, err}
use mert_blob_storage.Storage.Types.{
  BlockRefKind, committed, uncommitted, latest, BlockRef, CommittedBlock, BlockListResult,
}
use mert_blob_storage.Xml.Escape.{xml_escape, element}

-- What `read_event_into` returns.
pub data XmlEvent : Type 0 where
  -- the local name of an opening tag
  start_tag : Text → XmlEvent
  -- a text, trimmed, as `unescape` reads it, or the text of its error
  text_event : Result Text Text → XmlEvent
  -- a closing tag, an empty element, a comment, a declaration and the rest
  other_event : XmlEvent
  eof : XmlEvent
  -- the text of the reader's error
  bad_xml : Text → XmlEvent

-- quick_xml::Reader with `trim_text(true)`: the events of a document
pub record XmlReader : Type 0 where
  pub read_events : Text → List XmlEvent

unfoldable pub kind_of : Text → Option BlockRefKind
kind_of name =
    if name == codes "Committed"
    then some committed
    else if name == codes "Uncommitted"
    then some uncommitted
    else if name == codes "Latest"
    then some latest
    else none

-- the loop: what is pushed next, or an error; `take` empties the current kind
unfoldable pub read_blocks :
    Option BlockRefKind → List BlockRef → List XmlEvent → Result AzureError (List BlockRef)
unfolding kind_of
read_blocks kind blocks [] = ok blocks
read_blocks kind blocks (start_tag name ∷ events) = read_blocks (kind_of name) blocks events
read_blocks none blocks (text_event text ∷ events) = read_blocks none blocks events
read_blocks (some kind) blocks (text_event (ok text) ∷ events) =
    read_blocks none (blocks ++ record { block_id = text; kind = kind } ∷ []) events
read_blocks (some kind) blocks (text_event (err message) ∷ events) =
    err (with_message invalid_xml_document message)
read_blocks kind blocks (other_event ∷ events) = read_blocks kind blocks events
read_blocks kind blocks (eof ∷ events) = ok blocks
read_blocks kind blocks (bad_xml message ∷ events) = err (with_message invalid_xml_document message)

-- `if blocks.is_empty()`
abbrev pub not_empty : Result AzureError (List BlockRef) → Result AzureError (List BlockRef)
not_empty (err e) = err e
not_empty (ok []) = err (azure_error invalid_block_list)
not_empty (ok (b ∷ blocks)) = ok (b ∷ blocks)

unfoldable pub parse_block_list_request : XmlReader → Text → Result AzureError (List BlockRef)
unfolding read_blocks
parse_block_list_request reader body = not_empty (read_blocks none [] (reader.read_events body))

-- the loop over the blocks of one list
unfoldable pub render_blocks : List CommittedBlock → Text
render_blocks [] = []
render_blocks (b ∷ blocks) =
    element (codes "Block")
      (element (codes "Name") (xml_escape b.block_id) ++ element (codes "Size") (to_string b.size))
    ++ render_blocks blocks

abbrev pub declaration : Text
declaration =
    codes "<?xml version="
    ++ (b'"' ∷ codes "1.0")
    ++ (b'"' ∷ codes " encoding=")
    ++ (b'"' ∷ codes "utf-8")
    ++ (b'"' ∷ codes "?>")
    ++ (10 ∷ [])

unfoldable pub render_block_list_response : BlockListResult → Text
unfolding render_blocks
render_block_list_response result =
    declaration
    ++ element (codes "BlockList") (
        element (codes "CommittedBlocks") (render_blocks result.committed)
        ++ element (codes "UncommittedBlocks") (render_blocks result.uncommitted))
