-- ===== src/Queue/Settle.antt =====
-- memory/queue/store_settle.rs, the settlement of one claimed job. Every statement is gated on the
-- claim token, `attempts` and `started_at_ms`.
use tinycortex.Base.{
  ℕ, ◌+◌, ◌-◌, String, Bool, true, false, ◌&&◌, ◌||◌, Option, none, some, List, [], ◌∷◌, Result, ok,
  ◌>>=◌, if◌then◌else◌, leb, ◌==◌, saturating_add,
}
use mathlib.Core.Option
use tinycortex.Queue.Config.{QueueConfig}
use tinycortex.Queue.Types.{Job, JobFailure, NewJob, ready, done, failed, is_unrecoverable}
use tinycortex.Queue.Table.{Row, Table, DbError, exec_update, has_id}
use tinycortex.Queue.Store.{enqueue_conn, backoff_ms}

-- SQL's `IS` on two optional instants.
unfoldable pub same_instant : Option ℕ → Option ℕ → Bool
same_instant none none = true
same_instant (some a) (some b) = a == b
same_instant _ _ = false

-- `WHERE id = … AND attempts = … AND started_at_ms IS …`.
unfoldable pub has_token : Job → Row → Bool
unfolding has_id same_instant
has_token job r =
    has_id job.id r
    && (r.attempts == job.attempts && same_instant r.started_at_ms job.started_at_ms)

unfoldable pub done_row : ℕ → Row → Row
done_row now r = record r {
  status = done;
  completed_at_ms = some now;
  locked_until_ms = none;
  last_error = none;
}

-- The follow-ups with the ids that their rows get.
unfoldable pub enqueue_all : ℕ → ℕ → List (String × NewJob) → Table → Table
enqueue_all now default [] t = t
enqueue_all now default ((id, job) ∷ js) t =
    enqueue_all now default js (enqueue_conn id now job default t).1

unfoldable pub mark_done_with_followups :
    QueueConfig → ℕ → Job → List (String × NewJob) → Table → Result DbError (Bool × Table)
unfolding has_token done_row exec_update
mark_done_with_followups config now job follow_ups t = do
  updated ← exec_update (has_token job) (done_row now) t
  ok (
      if updated.0 == 0
      then (false, updated.1)
      else (true, enqueue_all now config.max_attempts follow_ups updated.1))

unfoldable pub mark_done : QueueConfig → ℕ → Job → Table → Result DbError Table
unfolding mark_done_with_followups
mark_done config now job t = mark_done_with_followups config now job [] t >>= λ r. ok r.1

unfoldable pub failed_row : ℕ → String → Option JobFailure → Row → Row
failed_row now error failure r = record r {
  status = failed;
  completed_at_ms = some now;
  locked_until_ms = none;
  last_error = some error;
  failure_reason = Option.map (λ f. f.code) failure;
  failure_class = Option.map (λ f. f.class) failure;
}

unfoldable pub retry_row : ℕ → String → Row → Row
retry_row next_at error r = record r {
  status = ready;
  available_at_ms = next_at;
  locked_until_ms = none;
  last_error = some error;
}

unfoldable pub fails_fast : Option JobFailure → Bool
unfolding is_unrecoverable
fails_fast none = false
fails_fast (some f) = is_unrecoverable f

unfoldable pub mark_failed_typed :
    QueueConfig → ℕ → Job → String → Option JobFailure → Table → Result DbError Table
unfolding has_token failed_row retry_row fails_fast backoff_ms exec_update
mark_failed_typed config now job error failure t = do
  let change =
      if leb job.max_attempts job.attempts || fails_fast failure
      then failed_row now error failure
      else retry_row
          (saturating_add now (backoff_ms job.attempts config.retry_base_ms config.retry_cap_ms))
          error
  updated ← exec_update (has_token job) change t
  ok updated.1

unfoldable pub mark_failed : QueueConfig → ℕ → Job → String → Table → Result DbError Table
unfolding mark_failed_typed
mark_failed config now job error = mark_failed_typed config now job error none

-- `created_at_ms <= now - max_defer_age_ms`, whose right side may be negative.
unfoldable pub defer_expired : QueueConfig → ℕ → Row → Bool
defer_expired config now r = leb (r.created_at_ms + config.max_defer_age_ms) now

unfoldable pub defer_row : QueueConfig → ℕ → Job → ℕ → String → Row → Row
unfolding defer_expired
defer_row config now job until_ms reason r =
    let old = defer_expired config now r in
    record r {
      status = if old then failed else ready;
      attempts = job.attempts - 1;
      available_at_ms = until_ms;
      locked_until_ms = none;
      started_at_ms = none;
      completed_at_ms = if old then some now else none;
      last_error = some reason;
      failure_reason = if old then some "defer_age_exceeded" else none;
      failure_class = if old then some "unrecoverable" else none;
    }

unfoldable pub mark_deferred : QueueConfig → ℕ → Job → ℕ → String → Table → Result DbError Table
unfolding has_token defer_row exec_update
mark_deferred config now job until_ms reason t = do
  updated ← exec_update (has_token job) (defer_row config now job until_ms reason) t
  ok updated.1
