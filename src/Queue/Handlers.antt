-- ===== src/Queue/Handlers.antt =====
-- memory/queue/handlers.rs and ops.rs: what each kind of job does, with its follow-ups, as a plan.
-- serde_json and the host's `QueueDelegates` are parameters; a handler's only effect of its own is on
-- the flag `BACKFILL_IN_PROGRESS`.
use tinycortex.Queue.Payloads.{
  ExtractChunkPayload, AppendBufferPayload, SealPayload, FlushStalePayload, ReembedBackfillPayload,
  SealDocumentPayload, NodeRef, AppendTarget, extract_key, append_key, seal_key, flush_key,
  reembed_key, seal_document_key, leaf, source,
}
use mathlib.Core.Option
use tinycortex.Base.{
  ℕ, ◌+◌, ◌<>◌, ◌&&◌, ◌∷◌, ◌++◌, if◌then◌else◌, [], ◌>>=◌, Option, String, Result, Bool, List, some,
  none, ok, err, not, true, false,
}
use tinycortex.Queue.Types.{JobKind, JobOutcome, JobFailure, unrecoverable, Job, NewJob, defer}

-- An `anyhow` error: its chain printed by `{:#}`, and the typed failures that it can be downcast to.
pub record AnyError : Type 0 where
  pub message : String
  pub job_failure : Option JobFailure
  pub pipeline_failure : Option JobFailure

abbrev pub Anyhow : Type 0 → Type 0
Anyhow A = Result AnyError A

-- serde_json at one type: a value may fail to print, and a text to parse.
pub record Json (P : Type 0) : Type 0 where
  pub to_string : P → Anyhow String
  pub from_str : String → Result String P

pub record Serde : Type 0 where
  pub extract : Json ExtractChunkPayload
  pub append : Json AppendBufferPayload
  pub seal : Json SealPayload
  pub flush : Json FlushStalePayload
  pub reembed : Json ReembedBackfillPayload
  pub document : Json SealDocumentPayload

pub record ExtractDecision : Type 0 where
  pub kept : Bool
  pub uses_document_subtree : Bool
  pub tree_scope : String

pub record AppendDecision : Type 0 where
  pub tree_id : String
  pub should_seal : Bool

pub record StaleBuffer : Type 0 where
  pub tree_id : String
  pub level : ℕ

pub data ReembedProgress : Type 0 where
  wrote : (more_pending : Bool) → ReembedProgress
  covered no_provider stale_signature : ReembedProgress

-- The trait, at one configuration and one moment.
pub record QueueDelegates : Type 0 where
  pub extract_chunk : String → Anyhow (Option ExtractDecision)
  pub append_node : NodeRef → AppendTarget → Anyhow (Option AppendDecision)
  pub seal_level : SealPayload → Anyhow (Option SealPayload)
  pub list_stale_buffers : ℕ → Anyhow (List StaleBuffer)
  pub seal_document : SealDocumentPayload → Anyhow (Unit {0})
  pub reembed_batch : String → Anyhow ReembedProgress
  pub active_signature : String
  pub has_uncovered_reembed_work : String → Anyhow Bool

abbrev pub l0_default_flush_age_secs : ℕ
l0_default_flush_age_secs = 3600

abbrev pub reembed_backfill_revisit_ms : ℕ
reembed_backfill_revisit_ms = 750

unfoldable pub parse_error : String → String → AnyError
parse_error what cause = record {
  message = "parse " <> (what <> (" payload: malformed_payload (unrecoverable): " <> cause));
  job_failure = some (unrecoverable "malformed_payload");
  pipeline_failure = none;
}

unfoldable pub parse_payload : {P : Type 0} → Json P → String → Job → Anyhow P
unfolding parse_error
parse_payload json what job = elim (json.from_str job.payload_json) [
  | ok p ↦ ok p
  | err cause ↦ err (parse_error what cause)
]

-- The constructors of `NewJob` in memory/queue/types.rs.
new_job : {P : Type 0} → JobKind → Json P → (P → String) → Option ℕ → P → Anyhow NewJob
new_job kind json key max_attempts p = do
  payload ← json.to_string p
  ok (record {
    kind = kind;
    payload_json = payload;
    dedupe_key = some (key p);
    available_at_ms = none;
    max_attempts = max_attempts;
  })

module _ (serde : Serde) where
  unfoldable pub extract_chunk_job : ExtractChunkPayload → Anyhow NewJob
  unfolding new_job
  extract_chunk_job = new_job JobKind.extract_chunk serde.extract extract_key none

  unfoldable pub append_buffer_job : AppendBufferPayload → Anyhow NewJob
  unfolding new_job
  append_buffer_job = new_job JobKind.append_buffer serde.append append_key none

  unfoldable pub seal_job : SealPayload → Anyhow NewJob
  unfolding new_job
  seal_job = new_job JobKind.seal serde.seal seal_key none

  unfoldable pub flush_stale_job : FlushStalePayload → String → ℕ → Anyhow NewJob
  unfolding new_job
  flush_stale_job p date_iso hour_block =
      new_job JobKind.flush_stale serde.flush (λ q. flush_key date_iso hour_block) none p

  unfoldable pub reembed_backfill_job : ReembedBackfillPayload → Anyhow NewJob
  unfolding new_job
  reembed_backfill_job = new_job JobKind.reembed_backfill serde.reembed reembed_key (some 3)

  unfoldable pub seal_document_job : SealDocumentPayload → Anyhow NewJob
  unfolding new_job
  seal_document_job = new_job JobKind.seal_document serde.document seal_document_key none

pub record JobPlan : Type 0 where
  pub outcome : JobOutcome
  pub follow_ups : List NewJob

abbrev pub done_plan : List NewJob → JobPlan
done_plan js = record { outcome = JobOutcome.finished; follow_ups = js }

module _ (serde : Serde) (d : QueueDelegates) where
  unfoldable pub planned_reembed_backfill : Anyhow (Option NewJob)
  unfolding reembed_backfill_job
  planned_reembed_backfill = do
    uncovered ← d.has_uncovered_reembed_work d.active_signature
    if uncovered
        then (reembed_backfill_job serde (record { signature = d.active_signature }) >>= λ j.
            ok (some j))
        else ok none

  append_follow_up : String → ExtractDecision → Anyhow (List NewJob)
  unfolding append_buffer_job
  append_follow_up chunk_id decision =
      if decision.kept && not decision.uses_document_subtree
      then (append_buffer_job serde
            (record { node = leaf chunk_id; target = source decision.tree_scope })
          >>= λ j. ok (j ∷ []))
      else ok []

  reembed_follow_up : ExtractDecision → Anyhow (List NewJob)
  unfolding planned_reembed_backfill
  reembed_follow_up decision =
      if decision.kept
      then (planned_reembed_backfill >>= λ o. ok (elim o [ none ↦ [] | some j ↦ j ∷ [] ]))
      else ok []

  unfoldable pub handle_extract : Job → Anyhow JobPlan
  unfolding parse_payload append_follow_up reembed_follow_up
  handle_extract job = do
    payload ← parse_payload serde.extract "ExtractChunk" job
    found ← d.extract_chunk payload.chunk_id
    elim found [
      | none ↦ ok (done_plan [])
      | some decision ↦
          (append_follow_up payload.chunk_id decision >>= λ appends.
          reembed_follow_up decision >>= λ reembeds. ok (done_plan (appends ++ reembeds)))
    ]

  seal_l0 : AppendDecision → Anyhow (List NewJob)
  unfolding seal_job
  seal_l0 decision =
      if decision.should_seal
      then (seal_job serde (record { tree_id = decision.tree_id; level = 0; force_now_ms = none })
          >>= λ j. ok (j ∷ []))
      else ok []

  unfoldable pub handle_append_buffer : Job → Anyhow JobPlan
  unfolding parse_payload seal_l0
  handle_append_buffer job = do
    payload ← parse_payload serde.append "AppendBuffer" job
    found ← d.append_node payload.node payload.target
    elim found [
      | none ↦ ok (done_plan [])
      | some decision ↦ seal_l0 decision >>= λ js. ok (done_plan js)
    ]

  unfoldable pub handle_seal : Job → Anyhow JobPlan
  unfolding parse_payload seal_job
  handle_seal job = do
    payload ← parse_payload serde.seal "Seal" job
    parent ← d.seal_level payload
    elim parent [
      | none ↦ ok (done_plan [])
      | some p ↦ seal_job serde p >>= λ j. ok (done_plan (j ∷ []))
    ]

  force_seals : ℕ → List StaleBuffer → Anyhow (List NewJob)
  unfolding seal_job
  force_seals now [] = ok []
  force_seals now (b ∷ bs) =
      let rest = force_seals now bs in
      seal_job serde (record { tree_id = b.tree_id; level = b.level; force_now_ms = some now })
      >>= λ j. rest >>= λ js. ok (j ∷ js)

  unfoldable pub handle_flush_stale : ℕ → Job → Anyhow JobPlan
  unfolding parse_payload force_seals
  handle_flush_stale now job = do
    payload ← parse_payload serde.flush "FlushStale" job
    let age_secs = Option.get_or payload.max_age_secs l0_default_flush_age_secs
    stale ← d.list_stale_buffers age_secs
    js ← force_seals now stale
    ok (done_plan js)

  unfoldable pub handle_seal_document : Job → Anyhow JobPlan
  unfolding parse_payload
  handle_seal_document job = do
    payload ← parse_payload serde.document "SealDocument" job
    elim payload.chunk_ids [
      | [] ↦ ok (done_plan [])
      | x ∷ xs ↦ d.seal_document payload >>= λ u. ok (done_plan [])
    ]

  -- The plan and the flag after one batch.
  after_batch : ℕ → ReembedProgress → JobPlan × Bool
  after_batch now (wrote true) = (
    record {
      outcome =
          defer (now + reembed_backfill_revisit_ms) "re-embed backfill: batch done, more pending";
      follow_ups = [];
    },
    true,
  )
  after_batch now (wrote false) = (done_plan [], false)
  after_batch now covered = (done_plan [], false)
  after_batch now no_provider = (done_plan [], false)
  after_batch now stale_signature = (done_plan [], false)

  unfoldable pub handle_reembed_backfill : ℕ → Job → Anyhow (JobPlan × Bool)
  unfolding parse_payload after_batch
  handle_reembed_backfill now job = do
    payload ← parse_payload serde.reembed "ReembedBackfill" job
    progress ← d.reembed_batch payload.signature
    ok (after_batch now progress)

  with_flag : Bool → Anyhow (JobPlan × Bool) → Anyhow JobPlan × Bool
  with_flag flag (ok (plan, new_flag)) = (ok plan, new_flag)
  with_flag flag (err e) = (err e, flag)

  unfoldable pub plan_kind : JobKind → Bool → ℕ → Job → Anyhow JobPlan × Bool
  unfolding handle_extract handle_append_buffer handle_seal handle_flush_stale
      handle_reembed_backfill handle_seal_document with_flag
  plan_kind JobKind.extract_chunk flag now job = (handle_extract job, flag)
  plan_kind JobKind.append_buffer flag now job = (handle_append_buffer job, flag)
  plan_kind JobKind.seal flag now job = (handle_seal job, flag)
  plan_kind JobKind.flush_stale flag now job = (handle_flush_stale now job, flag)
  plan_kind JobKind.reembed_backfill flag now job = with_flag flag (handle_reembed_backfill now job)
  plan_kind JobKind.seal_document flag now job = (handle_seal_document job, flag)

  -- The plan, and the backfill flag after the handler has run.
  unfoldable pub plan_job : Bool → ℕ → Job → Anyhow JobPlan × Bool
  unfolding plan_kind
  plan_job flag now job = plan_kind job.kind flag now job
