-- ===== src/Queue/Worker/Permits.antt =====
-- The permits of the LLM gate in a run of memory/queue/worker.rs.
use tinycortex.Queue.Gate.{Gate, release, try_acquire}
use tinycortex.Queue.Gate
use tinycortex.Tree.Buffer.{TreeConfig}
use tinycortex.Queue.Config.{QueueConfig}
use tinycortex.Queue.Store.{get_job, is_status, claim_next}
use tinycortex.Queue.Table.{Table, DbError}
use tinycortex.Queue.Handlers.{Anyhow, Serde, seal_job, AnyError, JobPlan, QueueDelegates}
use tinycortex.Queue.Worker.{
  Run, World, db, plain_error, db_unit, has_status, lift_parse, set_backfill_in_progress, Env,
  reseal, lift, from_json, settle_done, pure, settle_defer, settle_error, settle_planned_job,
  handled, with_permit, set_permits, run_claimed, llm_gate_retry_ms, run_once_with_gate,
}
use tinycortex.Base.{
  ◌≡◌, ◌∙◌, ok, err, if◌then◌else◌, ℕ, Bool, true, false, Result, refl, String, Option, none, some,
  List, ◌+◌, zero, suc, arith,
}
use tinycortex.Queue.Worker.{◌>>=◌}
use tinycortex.Queue.Types.{Job, JobOutcome, JobStatus, NewJob, done, failed, defer, is_llm_bound}

abbrev Keeps : {A : Type 0} → Run A → Type 0
Keeps m = (w : World) → (m w).1.permits ≡ w.permits

after-Keeps :
    {A B : Type 0} (f : A → Run B) (n : ℕ) (r : Anyhow A) (w : World)
    → w.permits ≡ n
    → ((a : A) → Keeps (f a))
    → (((λ v. (r, w)) >>= f) w).1.permits ≡ n
unfolding ◌>>=◌
after-Keeps f n (ok a) w e k = k a w ∙ e
after-Keeps f n (err x) w e k = e

bind-Keeps :
    {A B : Type 0} (m : Run A) (f : A → Run B) → Keeps m → ((a : A) → Keeps (f a)) → Keeps (m >>= f)
unfolding ◌>>=◌
bind-Keeps m f h k w = after-Keeps f w.permits (m w).0 (m w).1 (h w) k

if-Keeps : {A : Type 0} (b : Bool) (m n : Run A) → Keeps m → Keeps n → Keeps (if b then m else n)
if-Keeps true m n h k = h
if-Keeps false m n h k = k

db-Keeps : {A : Type 0} (f : Table → Result DbError (A × Table)) → Keeps (db f)
unfolding db
db-Keeps {A} f w = go (f w.table)
  where
    go :
        (r : Result DbError (A × Table))
        → (elim r as (λ _. Anyhow A × World) [
          | ok (a, t) ↦ (ok a, record w { table = t })
          | err e ↦ (err (plain_error "UNIQUE constraint failed: mem_tree_jobs.dedupe_key"), w)
        ]).1.permits
          ≡ w.permits
    go (ok p) = refl
    go (err e) = refl

db_unit-Keeps : (f : Table → Result DbError Table) → Keeps (db_unit f)
unfolding db_unit
db_unit-Keeps f = db-Keeps (λ t. elim (f t) [ ok t' ↦ ok (tt, t') | err e ↦ err e ])

has_status-Keeps : (s : JobStatus) (id : String) → Keeps (has_status s id)
unfolding has_status
has_status-Keeps s id w = go (lift_parse (get_job id w.table))
  where
    go :
        (r : Anyhow (Option Job))
        → (elim r as (λ _. Anyhow Bool × World) [
          | ok none ↦ (ok false, w)
          | ok (some current) ↦ (ok (is_status current.status s), w)
          | err e ↦ (err e, w)
        ]).1.permits
          ≡ w.permits
    go (ok none) = refl
    go (ok (some j)) = refl
    go (err e) = refl

flag-Keeps : (b : Bool) → Keeps (set_backfill_in_progress b)
unfolding set_backfill_in_progress
flag-Keeps b w = refl

module _ (config : QueueConfig) (tree : TreeConfig) (serde : Serde) where
  reseal-Keeps : (env : Env) (job : Job) → Keeps (reseal config tree serde env job)
  unfolding reseal
  reseal-Keeps env job =
      bind-Keeps (lift (from_json (serde.seal.from_str job.payload_json))) _ (λ w. refl)
        λ p.
          if-Keeps _ _ _ (bind-Keeps (lift (seal_job serde p)) _ (λ w. refl) λ j. db_unit-Keeps _)
            (λ w. refl)

  settle_done-Keeps :
      (env : Env) (job : Job) (js : List NewJob) → Keeps (settle_done config tree serde env job js)
  unfolding settle_done
  settle_done-Keeps env job js = bind-Keeps (db _) _ (db-Keeps _) λ committed.
      bind-Keeps _ _
        (if-Keeps _ (set_backfill_in_progress true) (pure tt) (flag-Keeps true) (λ w. refl))
        λ u.
          bind-Keeps _ _
            (if-Keeps _ (has_status done job.id) (pure false) (has_status-Keeps done job.id)
              (λ w. refl))
            λ b.
              if-Keeps b (reseal config tree serde env job) (pure tt) (reseal-Keeps env job)
                (λ w. refl)

  settle_defer-Keeps :
      (now : ℕ) (job : Job) (until_ms : ℕ) (reason : String)
      → Keeps (settle_defer config tree serde now job until_ms reason)
  unfolding settle_defer
  settle_defer-Keeps now job until_ms reason = db_unit-Keeps _

  settle_error-Keeps :
      (env : Env) (job : Job) (e : AnyError) → Keeps (settle_error config tree serde env job e)
  unfolding settle_error
  settle_error-Keeps env job e = bind-Keeps (db_unit _) _ (db_unit-Keeps _) λ u.
      bind-Keeps _ _
        (if-Keeps _ (has_status failed job.id) (pure false) (has_status-Keeps failed job.id)
          (λ w. refl))
        λ b. if-Keeps b (set_backfill_in_progress false) (pure tt) (flag-Keeps false) (λ w. refl)

  settle-Keeps :
      (env : Env) (job : Job) (p : Anyhow JobPlan)
      → Keeps (settle_planned_job config tree serde env job p)
  unfolding settle_planned_job
  settle-Keeps env job (ok p) = go p.outcome
    where
      go :
          (o : JobOutcome)
          → Keeps (elim o as (λ _. Run (Unit {0})) [
            | JobOutcome.finished ↦ settle_done config tree serde env job p.follow_ups
            | defer until_ms reason ↦
                settle_defer config tree serde env.settle_now job until_ms reason
          ])
      go JobOutcome.finished = settle_done-Keeps env job p.follow_ups
      go (defer until_ms reason) = settle_defer-Keeps env.settle_now job until_ms reason
  settle-Keeps env job (err e) = settle_error-Keeps env job e

  module _ (d : QueueDelegates) where
    handled-permits :
        (env : Env) (job : Job) (w : World)
        → ((handled config tree serde d env job >>= settle_planned_job config tree serde env job)
            w).1.permits
          ≡ w.permits
    unfolding handled ◌>>=◌
    handled-permits env job w = settle-Keeps env job _ _

    with_permit-permits :
        (left : ℕ) (env : Env) (job : Job) (w : World)
        → (with_permit config tree serde d left env job w).1.permits ≡ Gate.release left
    unfolding with_permit set_permits handled ◌>>=◌
    with_permit-permits left env job w = settle-Keeps env job _ _

    run_claimed-Keeps : (env : Env) (job : Job) → Keeps (run_claimed config tree serde d env job)
    unfolding run_claimed try_acquire release
    run_claimed-Keeps env job w = go (is_llm_bound job.kind) w.permits refl
      where
        busy : Anyhow (Unit {0}) × World
        busy =
            settle_defer config tree serde env.defer_now job (env.defer_now + llm_gate_retry_ms)
              "llm concurrency gate busy" w

        go :
            (b : Bool) (n : ℕ)
            → w.permits ≡ n
            → (if b
                then elim (try_acquire n) as (λ _. Anyhow (Unit {0}) × World) [
                  | none ↦ busy
                  | some left ↦ with_permit config tree serde d left env job w
                ]
                else (handled config tree serde d env job
                      >>= settle_planned_job config tree serde env job)
                    w).1.permits
              ≡ w.permits
        go false n e = handled-permits env job w
        go true zero e = settle_defer-Keeps _ job _ _ w
        go true (suc n) e = with_permit-permits n env job w ∙ omega (arith, e)

-- A run of the worker returns every permit that it takes: whatever the job, the handler's outcome,
-- the settlement or an error on the way, the gate has as many free slots after it as before.
pub run_once-permits :
    (config : QueueConfig) (tree : TreeConfig) (serde : Serde) (d : QueueDelegates) (env : Env)
    (w : World)
    → (run_once_with_gate config tree serde d env w).1.permits ≡ w.permits
unfolding run_once_with_gate
run_once-permits config tree serde d env w =
    bind-Keeps (db (claim_next env.claim_now config.lock_duration_ms)) _ (db-Keeps _)
      (λ claimed. bind-Keeps (lift (lift_parse claimed)) _ (λ w. refl) λ found. go found) w
  where
    go :
        (found : Option Job)
        → Keeps (elim found as (λ _. Run Bool) [
          | none ↦ pure false
          | some job ↦ run_claimed config tree serde d env job >>= λ u. pure true
        ])
    go none w = refl
    go (some job) w = bind-Keeps _ _ (run_claimed-Keeps config tree serde d env job) (λ u v. refl) w
