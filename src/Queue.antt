-- ===== src/Queue.antt =====
-- memory/queue: the durable job queue.
pub mod Config
pub mod Payloads
pub mod Types
pub mod Table
pub mod Store
pub mod Settle
pub mod Recovery
pub mod Index
pub mod Selection
pub mod Requeue
pub mod Claim
pub mod Lease
pub mod Backoff
pub mod Deferral
pub mod Failure
pub mod Enqueue
pub mod Wire
pub mod Commit
pub mod Gate
pub mod Handlers
pub mod Worker
pub mod Poison
mod Tests
