-- ===== src/Queue/Types.antt =====
-- memory/queue/types.rs: the kinds, the states and the rows of the job queue.
use tinycortex.Base.{
  ℕ, String, Bool, true, false, Option, same, Result, ok, err, if◌then◌else◌, ◌||◌,
}

pub data JobKind : Type 0 where
  extract_chunk append_buffer seal flush_stale reembed_backfill seal_document : JobKind

pub data ParseError : Type 0 where
  retired unknown : String → ParseError

unfoldable pub kind_str : JobKind → String
kind_str extract_chunk = "extract_chunk"
kind_str append_buffer = "append_buffer"
kind_str seal = "seal"
kind_str flush_stale = "flush_stale"
kind_str reembed_backfill = "reembed_backfill"
kind_str seal_document = "seal_document"

-- `RETIRED_JOB_KINDS.contains`.
unfoldable pub is_retired_kind : String → Bool
is_retired_kind s = same s "topic_route" || same s "digest_daily"

unfoldable pub parse_kind : String → Result ParseError JobKind
unfolding is_retired_kind
parse_kind s =
    if same s "extract_chunk"
    then ok extract_chunk
    else if same s "append_buffer"
    then ok append_buffer
    else if same s "seal"
    then ok seal
    else if same s "flush_stale"
    then ok flush_stale
    else if is_retired_kind s
    then err (retired s)
    else if same s "reembed_backfill"
    then ok reembed_backfill
    else if same s "seal_document"
    then ok seal_document
    else err (unknown s)

unfoldable pub is_llm_bound : JobKind → Bool
is_llm_bound extract_chunk = true
is_llm_bound seal = true
is_llm_bound reembed_backfill = true
is_llm_bound seal_document = true
is_llm_bound _ = false

pub data JobStatus : Type 0 where
  ready running done failed cancelled : JobStatus

unfoldable pub status_str : JobStatus → String
status_str ready = "ready"
status_str running = "running"
status_str done = "done"
status_str failed = "failed"
status_str cancelled = "cancelled"

unfoldable pub parse_status : String → Result ParseError JobStatus
parse_status s =
    if same s "ready"
    then ok ready
    else if same s "running"
    then ok running
    else if same s "done"
    then ok done
    else if same s "failed"
    then ok failed
    else if same s "cancelled"
    then ok cancelled
    else err (unknown s)

unfoldable pub is_terminal : JobStatus → Bool
is_terminal done = true
is_terminal failed = true
is_terminal cancelled = true
is_terminal _ = false

pub data JobOutcome : Type 0 where
  finished : JobOutcome
  defer : (until_ms : ℕ) (reason : String) → JobOutcome

pub record JobFailure : Type 0 where
  pub code : String
  pub class : String

abbrev pub unrecoverable : String → JobFailure
unrecoverable c = record { code = c; class = "unrecoverable" }

abbrev pub transient : String → JobFailure
transient c = record { code = c; class = "transient" }

unfoldable pub is_unrecoverable : JobFailure → Bool
is_unrecoverable f = same f.class "unrecoverable"

pub record Job : Type 0 where
  pub id : String
  pub kind : JobKind
  pub payload_json : String
  pub dedupe_key : Option String
  pub status : JobStatus
  pub attempts : ℕ
  pub max_attempts : ℕ
  pub available_at_ms : ℕ
  pub locked_until_ms : Option ℕ
  pub last_error : Option String
  pub failure_reason : Option String
  pub failure_class : Option String
  pub created_at_ms : ℕ
  pub started_at_ms : Option ℕ
  pub completed_at_ms : Option ℕ

pub record NewJob : Type 0 where
  pub kind : JobKind
  pub payload_json : String
  pub dedupe_key : Option String
  pub available_at_ms : Option ℕ
  pub max_attempts : Option ℕ
