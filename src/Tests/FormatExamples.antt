-- ===== src/Tests/FormatExamples.antt =====
-- The theorems about the Range header and about the XML bodies, at inputs that meet their hypotheses.
use mert_blob_storage.Base.{◌≡◌, refl, false, some, [], ◌∷◌, ◌++◌, arith, inl}
use mert_blob_storage.Base.Text.{codes, contains, to_string}
use mert_blob_storage.Storage.Exec.{ok}
use mert_blob_storage.Storage.Types.{latest}
use mert_blob_storage.Xml.Escape.{xml_escape}
use mert_blob_storage.Xml.Proofs.Escape.{xml_escape_safe, xml_escape_injective}
use mert_blob_storage.Xml.BlockList.{parse_block_list_request}
use mert_blob_storage.Xml.Proofs.BlockList.{parse_block_list_request_order}
use mert_blob_storage.Api.Helpers.{parse_range}
use mert_blob_storage.Api.Proofs.Ranges.{end_text, parse_range_roundtrip}
use mert_blob_storage.Tests.SampleServer.{sample_xml}

parse_range_roundtrip_example :
    parse_range (codes "bytes=" ++ (to_string 5 ++ (b'-' ∷ end_text (some 17)))) ≡ some (5, 17)
parse_range_roundtrip_example = parse_range_roundtrip 5 (some 17) (omega arith) (omega arith)

xml_escape_safe_example : contains b'<' (xml_escape (codes "a<b")) ≡ false
xml_escape_safe_example = xml_escape_safe b'<' (codes "a<b") (inl (inl refl))

xml_escape_injective_example : codes "a<b" ≡ codes "a<b"
xml_escape_injective_example = xml_escape_injective (codes "a<b") (codes "a<b") refl

parse_block_list_request_order_example :
    parse_block_list_request sample_xml (codes "doc")
    ≡ ok (record { block_id = codes "QQ=="; kind = latest } ∷ [])
parse_block_list_request_order_example =
    parse_block_list_request_order sample_xml (codes "doc")
      (record { block_id = codes "QQ=="; kind = latest } ∷ []) refl
