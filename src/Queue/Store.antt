-- ===== src/Queue/Store.antt =====
-- memory/queue/store.rs: enqueue, claim, purge, counts and the retry backoff. The clock and the
-- fresh id of a row are arguments.
use tinycortex.Base.{
  ℕ, ◌+◌, ◌-◌, ◌*◌, ◌%◌, ◌^◌, min, String, Bool, true, false, ◌&&◌, ◌||◌, not, Option, none, some,
  [], ◌∷◌, same, Result, ok, ◌>>=◌, if◌then◌else◌, ltb, leb, ◌==◌, find, keep, u32_mod, i64_max,
  saturating_add,
}
use mathlib.Core.Option
use tinycortex.Queue.Types.{
  Job, JobStatus, ready, running, done, failed, cancelled, NewJob, ParseError, kind_str, parse_kind,
  is_retired_kind,
}
use tinycortex.Queue.Table.{Row, Table, DbError, exec_update, count_where, has_id, insert_or_ignore}

abbrev pub default_max_attempts : ℕ
default_max_attempts = 5

unfoldable pub new_row : String → ℕ → NewJob → ℕ → Row
unfolding kind_str
new_row id now job default = record {
  id = id;
  kind = kind_str job.kind;
  payload_json = job.payload_json;
  dedupe_key = job.dedupe_key;
  status = ready;
  attempts = 0;
  max_attempts = Option.get_or job.max_attempts default;
  available_at_ms = Option.get_or job.available_at_ms now;
  locked_until_ms = none;
  last_error = none;
  created_at_ms = now;
  started_at_ms = none;
  completed_at_ms = none;
  failure_reason = none;
  failure_class = none;
}

-- The table after the insert, and the id if a row was inserted.
unfoldable pub enqueue_conn : String → ℕ → NewJob → ℕ → Table → Option String × Table
unfolding new_row insert_or_ignore
enqueue_conn id now job default t =
    let (inserted, t') = insert_or_ignore (new_row id now job default) t in
    (if inserted == 0 then none else some id, t')

unfoldable pub row_to_job : Row → Result ParseError Job
unfolding parse_kind
row_to_job r = do
  kind ← parse_kind r.kind
  ok (record {
    id = r.id;
    kind = kind;
    payload_json = r.payload_json;
    dedupe_key = r.dedupe_key;
    status = r.status;
    attempts = r.attempts % u32_mod;
    max_attempts = r.max_attempts % u32_mod;
    available_at_ms = r.available_at_ms;
    locked_until_ms = r.locked_until_ms;
    last_error = r.last_error;
    failure_reason = r.failure_reason;
    failure_class = r.failure_class;
    created_at_ms = r.created_at_ms;
    started_at_ms = r.started_at_ms;
    completed_at_ms = r.completed_at_ms;
  })

unfoldable pub is_status : JobStatus → JobStatus → Bool
is_status ready ready = true
is_status running running = true
is_status done done = true
is_status failed failed = true
is_status cancelled cancelled = true
is_status _ _ = false

-- The WHERE clause of the claim.
unfoldable pub is_due : ℕ → Row → Bool
unfolding is_retired_kind is_status
is_due now r =
    is_status r.status ready && (leb r.available_at_ms now && not (is_retired_kind r.kind))

-- The CASE of the ORDER BY.
unfoldable pub kind_rank : String → ℕ
kind_rank k =
    if same k "seal"
    then 1
    else if same k "reembed_backfill"
    then 2
    else if same k "flush_stale"
    then 3
    else if same k "append_buffer"
    then 4
    else 5

unfoldable pub comes_before : Row → Row → Bool
unfolding kind_rank
comes_before a b =
    ltb (kind_rank a.kind) (kind_rank b.kind)
    || (kind_rank a.kind == kind_rank b.kind && ltb a.available_at_ms b.available_at_ms)

-- The better of a row and the best one after it. SQL leaves the order of equal rows open; here the
-- earlier one wins.
unfoldable pub first_of_two : Row → Option Row → Row
unfolding comes_before
first_of_two r none = r
first_of_two r (some s) = if comes_before s r then s else r

-- `SELECT … ORDER BY … LIMIT 1`.
unfoldable pub next_due : ℕ → Table → Option Row
unfolding is_due first_of_two
next_due now [] = none
next_due now (r ∷ t) =
    let rest = next_due now t in if is_due now r then some (first_of_two r rest) else rest

unfoldable pub claim_row : ℕ → ℕ → Row → Row
claim_row now lock_until r = record r {
  status = running;
  attempts = r.attempts + 1;
  started_at_ms = some now;
  locked_until_ms = some lock_until;
  last_error = none;
}

-- The outer result is the statement's, the inner one that of reading the claimed row, which the
-- statement has changed by then.
abbrev pub Claim : Type 0
Claim = Result DbError (Result ParseError (Option Job) × Table)

claim_found : ℕ → ℕ → Row → Table → Claim
unfolding claim_row has_id exec_update row_to_job
claim_found now lock_until r t = do
  updated ← exec_update (has_id r.id) (claim_row now lock_until) t
  ok ((row_to_job (claim_row now lock_until r) >>= λ j. ok (some j)), updated.1)

unfoldable pub claim_selected : ℕ → ℕ → Option Row → Table → Claim
unfolding claim_found
claim_selected now lock_until none t = ok (ok none, t)
claim_selected now lock_until (some r) t = claim_found now lock_until r t

unfoldable pub claim_next : ℕ → ℕ → Table → Claim
unfolding claim_selected next_due
claim_next now lock_duration t =
    claim_selected now (saturating_add now lock_duration) (next_due now t) t

unfoldable pub purge_retired_jobs : Table → ℕ × Table
unfolding count_where is_retired_kind
purge_retired_jobs t =
    (count_where (λ r. is_retired_kind r.kind) t, keep (λ r. not (is_retired_kind r.kind)) t)

unfoldable pub count_by_status : JobStatus → Table → ℕ
unfolding is_status count_where
count_by_status s = count_where (λ r. is_status r.status s)

unfoldable pub is_class : String → Option String → Bool
is_class c none = false
is_class c (some d) = same d c

unfoldable pub count_failed_unrecoverable : Table → ℕ
unfolding count_where is_status is_class
count_failed_unrecoverable =
    count_where (λ r. is_status r.status failed && is_class "unrecoverable" r.failure_class)

unfoldable pub get_job : String → Table → Result ParseError (Option Job)
unfolding row_to_job has_id
get_job id t = elim (find (has_id id) t) [
  | none ↦ ok none
  | some r ↦ row_to_job r >>= λ j. ok (some j)
]

unfoldable pub backoff_ms : ℕ → ℕ → ℕ → ℕ
backoff_ms attempts_so_far retry_base retry_cap =
    min (min (retry_base * 2 ^ min (attempts_so_far - 1) 20) i64_max) retry_cap
