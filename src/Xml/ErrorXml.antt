-- ===== src/Xml/ErrorXml.antt =====
-- crates/blobstore-xml/src/error_xml.rs: the body of an error response. It reads the clock.
use mathlib.Core.Option
use mert_blob_storage.Base.{◌+◌, [], ◌∷◌, ◌++◌}
use mert_blob_storage.Base.Text.{Text, codes}
use mert_blob_storage.Core.Error.{AzureError, code_str}
use mert_blob_storage.Storage.Externals.{Externals}
use mert_blob_storage.Storage.Exec.{World}
use mert_blob_storage.Xml.Escape.{xml_escape, element}
use mert_blob_storage.Xml.BlockList.{declaration}

unfoldable pub render_error : Externals → AzureError → Text → World → Text × World
render_error x error request_id w =
    let time = Option.get_or (x.rfc3339 (x.clock w.ticks)) [] in
    (
      declaration
          ++ element (codes "Error") (
              element (codes "Code") (code_str error.code)
              ++ element (codes "Message") (
                  xml_escape error.message
                  ++ (10
                      ∷ (codes "RequestId:" ++ (request_id ++ (10 ∷ (codes "Time:" ++ time))))))),
      record w { ticks = w.ticks + 1 },
    )
