-- ===== src/Queue/Payloads.antt =====
-- memory/queue/payloads.rs: the payloads of queue jobs and their dedupe keys. Their JSON form is
-- the `Serde` parameter of memory/queue/handlers.rs; instants are not negative.
use tinycortex.Base.{ℕ, String, ◌<>◌, Option, none, some, List, show}

pub data NodeRef : Type 0 where
  leaf : String → NodeRef
  summary : String → NodeRef

pub dedupe_fragment : NodeRef → String
dedupe_fragment (leaf chunk_id) = "leaf:" <> chunk_id
dedupe_fragment (summary summary_id) = "summary:" <> summary_id

pub record ExtractChunkPayload : Type 0 where
  pub chunk_id : String

pub data AppendTarget : Type 0 where
  source : String → AppendTarget
  topic : String → AppendTarget

pub record AppendBufferPayload : Type 0 where
  pub node : NodeRef
  pub target : AppendTarget

pub record SealPayload : Type 0 where
  pub tree_id : String
  pub level : ℕ
  pub force_now_ms : Option ℕ

pub record FlushStalePayload : Type 0 where
  pub max_age_secs : Option ℕ

pub record ReembedBackfillPayload : Type 0 where
  pub signature : String

pub record SealDocumentPayload : Type 0 where
  pub tree_scope : String
  pub doc_id : String
  pub version_ms : Option ℕ
  pub chunk_ids : List String

unfoldable pub extract_key : ExtractChunkPayload → String
extract_key p = "extract:" <> p.chunk_id

target_key : AppendTarget → String → String
target_key (source source_id) node = "append:source:" <> (source_id <> (":" <> node))
target_key (topic tree_id) node = "append:topic:" <> (tree_id <> (":" <> node))

unfoldable pub append_key : AppendBufferPayload → String
unfolding target_key dedupe_fragment
append_key p = target_key p.target (dedupe_fragment p.node)

unfoldable pub seal_key : SealPayload → String
unfolding show
seal_key p = "seal:" <> (p.tree_id <> (":" <> show p.level))

unfoldable pub flush_key : String → ℕ → String
unfolding show
flush_key date_iso hour_block = "flush_stale:" <> (date_iso <> ("-h" <> show hour_block))

unfoldable pub reembed_key : ReembedBackfillPayload → String
reembed_key p = "reembed_backfill:" <> p.signature

version_key : String → Option ℕ → String
version_key doc_id none = "seal_doc:" <> doc_id
version_key doc_id (some version) = "seal_doc:" <> (doc_id <> ("@" <> show version))

unfoldable pub seal_document_key : SealDocumentPayload → String
unfolding version_key show
seal_document_key p = version_key p.doc_id p.version_ms
