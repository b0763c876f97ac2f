-- ===== src/Goals.antt =====
-- memory/goals: the list of long-term goals.
pub mod Doc
pub mod Disk
pub mod Trim
pub mod First
pub mod Saved
mod Tests
