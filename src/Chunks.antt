-- ===== src/Chunks.antt =====
-- memory/chunks: the unit of storage of the memory engine.
pub mod Split
pub mod Pieces
pub mod Atomic
pub mod Pack
pub mod Budget
pub mod Tiling
pub mod Within
pub mod Breaker
mod Tests
