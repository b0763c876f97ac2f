-- ===== src/Store.antt =====
-- memory/store: the key-value tables of the engine.
pub mod Rows
pub mod Kv
pub mod Map
pub mod Refinement
pub mod Redaction
pub mod Listing
pub mod Newest
pub mod Records
pub mod Listed
mod Tests
