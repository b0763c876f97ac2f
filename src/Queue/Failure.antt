-- ===== src/Queue/Failure.antt =====
-- `mark_failed_typed` of memory/queue/store_settle.rs on a row whose lease is held.
use mathlib.Core.Option
use tinycortex.Queue.Index.{IsSub, IsUnique, exec_update_keeps, In-image}
use tinycortex.Queue.Backoff.{backoff_ms_lem}
use tinycortex.Queue.Store.{backoff_ms}
use tinycortex.Queue.Config.{QueueConfig}
use tinycortex.Queue.Settle.{fails_fast, failed_row, retry_row, has_token, mark_failed_typed}
use tinycortex.Base.{
  ◌+◌, ◌-◌, ◌≤◌, ◌≡◌, ◌⊎◌, ◌||◌, if◌then◌else◌, Option, true, ℕ, String, none, some, i64_max, leb,
  saturating_add, arith, In, ok, false, refl,
}
use tinycortex.Queue.Table.{Row, Table, is_active, index_entry, update_where}
use tinycortex.Queue.Types.{Job, JobFailure, failed, ready}

-- The retry budget is used up, or retrying cannot help.
abbrev pub IsFatal : Job → Option JobFailure → Type 0
IsFatal job failure = (job.max_attempts ≤ job.attempts) ⊎ (fails_fast failure ≡ true)

-- What a failure makes of a row.
abbrev pub IsSettled : QueueConfig → ℕ → Job → String → Option JobFailure → Row → Row → Type 0
IsSettled config now job error failure r s =
    (s.id ≡ r.id)
    × (s.attempts ≡ r.attempts)
    × (s.locked_until_ms ≡ none)
    × (s.last_error ≡ some error)
    × (IsFatal job failure
        → (s.status ≡ failed)
          × (s.completed_at_ms ≡ some now)
          × (s.failure_class ≡ Option.map (λ f. f.class) failure))
    × (¬ IsFatal job failure
        → (s.status ≡ ready)
          × (now ≤ i64_max - config.retry_cap_ms
              → (now + config.retry_base_ms ≤ s.available_at_ms)
                × (s.available_at_ms ≤ now + config.retry_cap_ms)))

settled_row : QueueConfig → ℕ → Job → String → Option JobFailure → Row → Row
settled_row config now job error failure =
    if leb job.max_attempts job.attempts || fails_fast failure
    then failed_row now error failure
    else retry_row
        (saturating_add now (backoff_ms job.attempts config.retry_base_ms config.retry_cap_ms))
        error

settled_row-IsSettled :
    (config : QueueConfig) (now : ℕ) (job : Job) (error : String) (failure : Option JobFailure)
    (r : Row)
    → config.retry_base_ms ≤ config.retry_cap_ms
    → config.retry_cap_ms ≤ i64_max
    → IsSettled config now job error failure r (settled_row config now job error failure r)
unfolding settled_row failed_row retry_row
settled_row-IsSettled config now job error failure r h k =
    let bounds = backoff_ms_lem job.attempts config.retry_base_ms config.retry_cap_ms h k in
    (
      ground arith,
      ground arith,
      ground arith,
      ground arith,
      (λ f. ground arith),
      λ f. (ground arith, λ b. ground (arith, bounds.0, bounds.1)),
    )

settled_row-IsSub :
    (config : QueueConfig) (now : ℕ) (job : Job) (error : String) (failure : Option JobFailure)
    (r : Row)
    → is_active r.status ≡ true
    → IsSub (index_entry (settled_row config now job error failure r)) (index_entry r)
unfolding settled_row failed_row retry_row index_entry
settled_row-IsSub config now job error failure r h = ground arith

-- Failing a job whose row is still leased (ready or running): on a table with unique active keys and
-- a configuration whose base delay is at most its cap, the statement is not refused and keeps the
-- active keys unique, every row without the job's token is kept, and each row with it keeps its
-- attempts, loses its lock and records the error; it is failed for good exactly when the budget is
-- used up or the failure is unrecoverable, with the class recorded, and else it is ready again after
-- a delay between the base and the cap (for instants at which the cap does not overflow an `i64`).
pub mark_failed_typed_lem :
    (config : QueueConfig) (now : ℕ) (job : Job) (error : String) (failure : Option JobFailure)
    (t : Table)
    → IsUnique t
    → config.retry_base_ms ≤ config.retry_cap_ms
    → config.retry_cap_ms ≤ i64_max
    → ((r : Row) → In r t → has_token job r ≡ true → is_active r.status ≡ true)
    → (t' : Table) × (mark_failed_typed config now job error failure t ≡ ok t')
      × IsUnique t'
      × ((r : Row)
          → In r t
          → (s : Row) × In s t'
            × (has_token job r ≡ false → s ≡ r)
            × (has_token job r ≡ true → IsSettled config now job error failure r s))
unfolding mark_failed_typed settled_row
mark_failed_typed_lem config now job error failure t u h k active =
    let change = settled_row config now job error failure in
    let (e, w) =
      exec_update_keeps (has_token job) change t u
        (λ r m g. settled_row-IsSub config now job error failure r (active r m g)) in
    (
      update_where (has_token job) change t,
      rw e refl,
      w,
      λ r m. (
        (if has_token job r then change r else r),
        In-image (has_token job) change r t m,
        (λ g. rw g refl),
        (λ g. rw g (settled_row-IsSettled config now job error failure r h k)),
      ),
    )
