-- ===== src/Tree.antt =====
-- memory/tree: summary trees and their seal buffers.
pub mod Buffer
pub mod Append
pub mod Rows
pub mod Growth
pub mod Snapshot
pub mod Retry
pub mod Forest
pub mod Seal
pub mod Commit
pub mod Cascade
pub mod Sealed
mod Tests
