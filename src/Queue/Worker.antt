-- ===== src/Queue/Worker.antt =====
-- memory/queue/worker.rs: one claim, its handler under the LLM gate, and its settlement. The clock
-- readings, the fresh ids and the buffers of memory/tree are inputs.
pub mod Permits
use tinycortex.Queue.Recovery.{recover_stale_locks}
use tinycortex.Queue.Settle.{mark_done_with_followups, mark_deferred, mark_failed_typed}
use tinycortex.Queue.Config.{QueueConfig}
use tinycortex.Queue.Payloads.{SealPayload}
use tinycortex.Queue.Store.{get_job, is_status, enqueue_conn, claim_next, purge_retired_jobs}
use tinycortex.Queue.Types.{
  ParseError, retired, unknown, NewJob, JobKind, JobStatus, JobFailure, Job, done, failed,
  JobOutcome, defer, is_llm_bound, reembed_backfill, seal, finished,
}
use tinycortex.Queue.Handlers.{Anyhow, AnyError, Serde, seal_job, JobPlan, QueueDelegates, plan_job}
use tinycortex.Tree.Buffer.{Buffers, TreeConfig, get_buffer, should_seal}
use tinycortex.Queue.Table.{Table, DbError}
use tinycortex.Base.{
  ◌+◌, ◌&&◌, ◌∷◌, if◌then◌else◌, [], ℕ, Bool, String, ok, err, none, Result, List, true, false,
  some, Option, any,
}
use tinycortex.Queue.Gate
use tinycortex.Queue.Gate.{try_acquire, Gate, release}

abbrev pub llm_gate_retry_ms : ℕ
llm_gate_retry_ms = 50

-- What a worker reads and writes: the jobs table, the flag `BACKFILL_IN_PROGRESS` and the free slots
-- of the gate.
pub record World : Type 0 where
  pub table : Table
  pub backfill : Bool
  pub permits : ℕ

-- The surroundings of one run: `Utc::now()` at the claim, in the handler, at a deferral and at the
-- settlement; the ids of the rows inserted then; the buffers as they stand then.
pub record Env : Type 0 where
  pub claim_now : ℕ
  pub plan_now : ℕ
  pub defer_now : ℕ
  pub settle_now : ℕ
  pub follow_up_id : ℕ → String
  pub reseal_id : String
  pub buffers : Buffers

-- State with failure: what was written before a failure stays.
abbrev pub Run : Type 0 → Type 0
Run A = World → Anyhow A × World

infixl 5 ◌>>=◌
unfoldable pub ◌>>=◌ : {A B : Type 0} → Run A → (A → Run B) → Run B
◌>>=◌ m f w = let (r, w') = m w in elim r [ ok a ↦ f a w' | err e ↦ (err e, w') ]

abbrev pub pure : {A : Type 0} → A → Run A
pure a w = (ok a, w)

abbrev pub lift : {A : Type 0} → Anyhow A → Run A
lift r w = (r, w)

unfoldable pub plain_error : String → AnyError
plain_error message = record { message = message; job_failure = none; pipeline_failure = none }

unfoldable pub lift_parse : {A : Type 0} → Result ParseError A → Anyhow A
unfolding plain_error
lift_parse (ok a) = ok a
lift_parse (err (retired s)) = err (plain_error s)
lift_parse (err (unknown s)) = err (plain_error s)

-- A statement or transaction on the table: on an error it is rolled back.
unfoldable pub db : {A : Type 0} → (Table → Result DbError (A × Table)) → Run A
unfolding plain_error
db f w = elim (f w.table) [
  | ok (a, t) ↦ (ok a, record w { table = t })
  | err e ↦ (err (plain_error "UNIQUE constraint failed: mem_tree_jobs.dedupe_key"), w)
]

-- A statement with no result of its own.
unfoldable pub db_unit : (Table → Result DbError Table) → Run (Unit {0})
db_unit f = db (λ t. elim (f t) [ ok t' ↦ ok (tt, t') | err e ↦ err e ])

unfoldable pub set_backfill_in_progress : Bool → Run (Unit {0})
set_backfill_in_progress v w = (ok tt, record w { backfill = v })

unfoldable pub set_permits : ℕ → Run (Unit {0})
set_permits n w = (ok tt, record w { permits = n })

unfoldable pub with_ids : (ℕ → String) → ℕ → List NewJob → List (String × NewJob)
with_ids fresh n [] = []
with_ids fresh n (j ∷ js) = (fresh n, j) ∷ with_ids fresh (n + 1) js

unfoldable pub is_reembed : JobKind → Bool
is_reembed JobKind.reembed_backfill = true
is_reembed _ = false

unfoldable pub is_seal : JobKind → Bool
is_seal JobKind.seal = true
is_seal _ = false

-- `matches!(get_job(…)?, Some(current) if current.status == …)`.
unfoldable pub has_status : JobStatus → String → Run Bool
has_status s id w = elim (lift_parse (get_job id w.table)) [
  | ok none ↦ (ok false, w)
  | ok (some current) ↦ (ok (is_status current.status s), w)
  | err e ↦ (err e, w)
]

-- `downcast_ref::<JobFailure>().or(the converted PipelineFailure)`.
unfoldable pub typed_failure : AnyError → Option JobFailure
typed_failure e = elim e.job_failure [ none ↦ e.pipeline_failure | some f ↦ some f ]

unfoldable pub from_json : Result String SealPayload → Anyhow SealPayload
unfolding plain_error
from_json (ok p) = ok p
from_json (err cause) = err (plain_error cause)

module _ (config : QueueConfig) (tree : TreeConfig) (serde : Serde) where
  -- After a seal is done: the same level again, if it has filled up meanwhile.
  unfoldable pub reseal : Env → Job → Run (Unit {0})
  reseal env job = do
    payload ← lift (from_json (serde.seal.from_str job.payload_json))
    let full = should_seal tree (get_buffer payload.tree_id payload.level env.buffers)
    if full
        then (lift (seal_job serde payload) >>= λ j.
            db_unit (λ t. ok (enqueue_conn env.reseal_id env.settle_now j config.max_attempts t).1))
        else pure tt

  unfoldable pub settle_done : Env → Job → List NewJob → Run (Unit {0})
  unfolding is_reembed is_seal
  settle_done env job follow_ups = do
    let arms_reembed = any (λ (j : NewJob). is_reembed j.kind) follow_ups
    committed ← db (
        mark_done_with_followups config env.settle_now job (with_ids env.follow_up_id 0 follow_ups))
    _ ← if committed && arms_reembed then set_backfill_in_progress true else pure tt
    finished_seal ← if is_seal job.kind then has_status done job.id else pure false
    if finished_seal then reseal env job else pure tt

  unfoldable pub settle_defer : ℕ → Job → ℕ → String → Run (Unit {0})
  settle_defer now job until_ms reason = db_unit (mark_deferred config now job until_ms reason)

  unfoldable pub settle_error : Env → Job → AnyError → Run (Unit {0})
  unfolding typed_failure is_reembed
  settle_error env job e = do
    _ ← db_unit (mark_failed_typed config env.settle_now job e.message (typed_failure e))
    gave_up ← if is_reembed job.kind then has_status failed job.id else pure false
    if gave_up then set_backfill_in_progress false else pure tt

  unfoldable pub settle_planned_job : Env → Job → Anyhow JobPlan → Run (Unit {0})
  settle_planned_job env job (ok plan) = elim plan.outcome [
    | JobOutcome.finished ↦ settle_done env job plan.follow_ups
    | defer until_ms reason ↦ settle_defer env.settle_now job until_ms reason
  ]
  settle_planned_job env job (err e) = settle_error env job e

  module _ (d : QueueDelegates) where
    -- The handler, with its write of the flag, as a step that never fails itself.
    unfoldable pub handled : Env → Job → Run (Anyhow JobPlan)
    handled env job w =
        let (plan, flag) = plan_job serde d w.backfill env.plan_now job in
        (ok plan, record w { backfill = flag })

    -- A permit is held during the handler and dropped before the settlement.
    unfoldable pub with_permit : ℕ → Env → Job → Run (Unit {0})
    with_permit left env job = do
      _ ← set_permits left
      plan ← handled env job
      _ ← set_permits (Gate.release left)
      settle_planned_job env job plan

    unfoldable pub run_claimed : Env → Job → Run (Unit {0})
    unfolding is_llm_bound
    run_claimed env job w =
        if is_llm_bound job.kind
        then elim (try_acquire w.permits) [
          | none ↦
              settle_defer env.defer_now job (env.defer_now + llm_gate_retry_ms)
                "llm concurrency gate busy" w
          | some left ↦ with_permit left env job w
        ]
        else (handled env job >>= settle_planned_job env job) w

    -- Whether a job was claimed.
    unfoldable pub run_once_with_gate : Env → Run Bool
    run_once_with_gate env = do
      claimed ← db (claim_next env.claim_now config.lock_duration_ms)
      found ← lift (lift_parse claimed)
      elim found [ none ↦ pure false | some job ↦ run_claimed env job >>= λ u. pure true ]

-- `bootstrap`: the retired rows purged, then the stale locks recovered.
unfoldable pub bootstrap : ℕ → Run (ℕ × ℕ)
unfolding purge_retired_jobs recover_stale_locks db
bootstrap now = do
  purged ← db (λ t. ok (purge_retired_jobs t))
  recovered ← db (recover_stale_locks now)
  pure (purged, recovered)
