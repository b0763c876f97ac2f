-- ===== src/Sync.antt =====
-- memory/sync: the state that a synchronization keeps between its runs.
pub mod State
pub mod Persisted
pub mod Budgets
mod Tests
