-- ===== src/Queue/Poison.antt =====
-- A payload that does not parse, in memory/queue/handlers.rs and worker.rs.
use tinycortex.Queue.Worker.{typed_failure}
use tinycortex.Queue.Settle.{failed_row, fails_fast}
use tinycortex.Queue.Recovery.{is_transient_failed}
use tinycortex.Queue.Handlers.{Serde, QueueDelegates, plan_kind, parse_error, AnyError, plan_job}
use tinycortex.Base.{◌≡◌, String, err, Bool, ℕ, refl, false, same, true, arith}
use tinycortex.Queue.Types.{JobKind, Job}
use tinycortex.Queue.Table.{Row}

-- The payload text does not parse at the type of the job's kind.
abbrev pub Malformed : Serde → JobKind → String → String → Type 0
Malformed serde JobKind.extract_chunk text cause = serde.extract.from_str text ≡ err cause
Malformed serde JobKind.append_buffer text cause = serde.append.from_str text ≡ err cause
Malformed serde JobKind.seal text cause = serde.seal.from_str text ≡ err cause
Malformed serde JobKind.flush_stale text cause = serde.flush.from_str text ≡ err cause
Malformed serde JobKind.reembed_backfill text cause = serde.reembed.from_str text ≡ err cause
Malformed serde JobKind.seal_document text cause = serde.document.from_str text ≡ err cause

plan_kind-Malformed :
    (serde : Serde) (d : QueueDelegates) (k : JobKind) (flag : Bool) (now : ℕ) (job : Job)
    (cause : String)
    → Malformed serde k job.payload_json cause
    → (what : String) × (plan_kind serde d k flag now job ≡ (err (parse_error what cause), flag))
unfolding plan_kind
plan_kind-Malformed serde d JobKind.extract_chunk flag now job cause h =
    ("ExtractChunk", ground arith)
plan_kind-Malformed serde d JobKind.append_buffer flag now job cause h =
    ("AppendBuffer", ground arith)
plan_kind-Malformed serde d JobKind.seal flag now job cause h = ("Seal", ground arith)
plan_kind-Malformed serde d JobKind.flush_stale flag now job cause h = ("FlushStale", ground arith)
plan_kind-Malformed serde d JobKind.reembed_backfill flag now job cause h =
    ("ReembedBackfill", ground arith)
plan_kind-Malformed serde d JobKind.seal_document flag now job cause h =
    ("SealDocument", ground arith)

parked :
    (now : ℕ) (what cause : String) (r : Row)
    → let e = parse_error what cause in
      is_transient_failed (failed_row now e.message (typed_failure e) r) ≡ false
unfolding is_transient_failed failed_row typed_failure parse_error same
parked now what cause r = refl

fatal : (what cause : String) → fails_fast (typed_failure (parse_error what cause)) ≡ true
unfolding fails_fast typed_failure parse_error same
fatal what cause = refl

-- Whatever the kind of the job, if its payload does not parse, the handler fails without touching the
-- backfill flag, with an error that fails fast whatever budget is left, and the row that this error
-- settles as failed is not one that the automatic requeue takes, so that it is never resurrected.
pub plan_job-Malformed :
    (serde : Serde) (d : QueueDelegates) (flag : Bool) (now : ℕ) (job : Job) (cause : String)
    → Malformed serde job.kind job.payload_json cause
    → (e : AnyError) × (plan_job serde d flag now job ≡ (err e, flag))
      × (fails_fast (typed_failure e) ≡ true)
      × ((settled_at : ℕ) (r : Row)
          → is_transient_failed (failed_row settled_at e.message (typed_failure e) r) ≡ false)
unfolding plan_job
plan_job-Malformed serde d flag now job cause h =
    let (what, e) = plan_kind-Malformed serde d job.kind flag now job cause h in
    (parse_error what cause, e, fatal what cause, λ settled_at r. parked settled_at what cause r)
