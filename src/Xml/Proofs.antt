-- ===== src/Xml/Proofs.antt =====
-- The theorems about the XML bodies.
pub mod Escape
pub mod BlockList
