-- ===== src/Tests/CoreExamples.antt =====
-- The theorems about the core types, at concrete inputs.
use mert_blob_storage.Base.{◌≡◌, refl}
use mert_blob_storage.Core.Error.{internal_error}
use mert_blob_storage.Core.Error.Laws.{code_str_injective}
use mert_blob_storage.Core.Model.{blob, from_db_str, as_db_str, from_header_value, as_header_value}
use mert_blob_storage.Core.Model.Laws.{access_level_roundtrip}

code_str_injective_example : internal_error ≡ internal_error
code_str_injective_example = code_str_injective internal_error internal_error refl

access_level_roundtrip_example :
    (from_db_str (as_db_str blob) ≡ blob) × (from_header_value (as_header_value blob) ≡ blob)
access_level_roundtrip_example = access_level_roundtrip blob
