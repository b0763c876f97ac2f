-- ===== src/Graph.antt =====
-- memory/graph: the co-occurrence edges of entities.
pub mod Edges
pub mod Compare
pub mod Order
pub mod Weights
pub mod Upserts
mod Tests
