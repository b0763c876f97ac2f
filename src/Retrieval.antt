-- ===== src/Retrieval.antt =====
-- memory/retrieval: the read path over the summary trees.
pub mod Cover
pub mod Versions
pub mod Below
pub mod Planned
pub mod Covered
pub mod Subtrees
pub mod Losers
pub mod Once
pub mod Superseded
pub mod Shown
mod Tests
