-- ===== src/Queue/Wire.antt =====
-- The wire texts of memory/queue/types.rs.
use tinycortex.Base.{◌≡◌, ◌↔◌, ok, same, refl, String, arith, same_iff}
use tinycortex.Queue.Types.{
  JobKind, JobStatus, parse_kind, kind_str, extract_chunk, parse_status, status_str, ready,
}

parse_kind-kind_str : (k : JobKind) → parse_kind (kind_str k) ≡ ok k
unfolding parse_kind kind_str same
parse_kind-kind_str extract_chunk = refl
parse_kind-kind_str _ = refl

parse_kind-ok : (s : String) (k : JobKind) → parse_kind s ≡ ok k → s ≡ kind_str k
unfolding parse_kind kind_str
parse_kind-ok s k h = ground (
  arith,
  same_iff s "extract_chunk",
  same_iff s "append_buffer",
  same_iff s "seal",
  same_iff s "flush_stale",
  same_iff s "reembed_backfill",
  same_iff s "seal_document",
)

parse_status-status_str : (k : JobStatus) → parse_status (status_str k) ≡ ok k
unfolding parse_status status_str same
parse_status-status_str ready = refl
parse_status-status_str _ = refl

parse_status-ok : (s : String) (k : JobStatus) → parse_status s ≡ ok k → s ≡ status_str k
unfolding parse_status status_str
parse_status-ok s k h = ground (
  arith,
  same_iff s "ready",
  same_iff s "running",
  same_iff s "done",
  same_iff s "failed",
  same_iff s "cancelled",
)

-- A text parses to a kind exactly when it is the kind's wire text, and to a state exactly when it
-- is the state's; so parsing inverts printing, and no other text, a retired kind's among them, is
-- read as a live kind.
pub parse_lem :
    (s : String) (k : JobKind) (t : JobStatus)
    → ((parse_kind s ≡ ok k) ↔ (s ≡ kind_str k)) × ((parse_status s ≡ ok t) ↔ (s ≡ status_str t))
parse_lem s k t = (
  (parse_kind-ok s k, λ e. rw e (parse_kind-kind_str k)),
  (parse_status-ok s t, λ e. rw e (parse_status-status_str t)),
)
