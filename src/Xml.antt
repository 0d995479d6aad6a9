-- ===== src/Xml.antt =====
-- crates/blobstore-xml: the bodies of requests and responses.
pub mod Escape
pub mod BlockList
pub mod Listings
pub mod ErrorXml
pub mod Proofs
