-- ===== src/Sources.antt =====
-- memory/sources: the readers that feed memory.
pub mod Ssrf
pub mod Networks
pub mod Documented
pub mod Resolver
pub mod Entry
pub mod Patch
pub mod Edits
pub mod Registry
pub mod Ids
pub mod Changed
pub mod Written
pub mod Steps
pub mod Added
mod RegistryTests
mod Tests
