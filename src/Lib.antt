-- ===== src/Lib.antt =====
-- tinycortex: the durable job queue of the memory engine, the sealing of its summary trees with the
-- edges between their entities, the splitter of its chunks, its key-value store, its goals list, the
-- state of its synchronizations, the registry and the address filter of its sources, and the
-- cover of a time window.
--
-- Chunks of text that are ingested end up as leaves of summary trees. The work in between runs
-- through a table of jobs in SQLite (memory/queue): producers enqueue, a worker claims one job under
-- a lease, a handler plans what it does and which jobs follow, and the settlement commits the
-- outcome and the follow-ups. A leaf joins the buffer of its tree's lowest level, and a full buffer
-- is sealed into a summary one level up (memory/tree).
-- Before that, a source of the registry is synchronized within a daily budget, and what it yields
-- is split into chunks. The goals list and the key-value store stand beside this path.
--
-- Queue models src/memory/queue and the jobs table of src/memory/chunks/schema.rs:
--   Queue.Config     config/policy.rs: `QueueConfig`, its default and `validate`
--   Queue.Types, Queue.Payloads    types.rs and payloads.rs: kinds, states, jobs, dedupe keys
--   Queue.Table      the rows, the partial unique index over the dedupe keys of active rows, and
--                    INSERT OR IGNORE and UPDATE as functions on the list of rows
--   Queue.Store      store.rs: `enqueue_conn`, `claim_next`, `purge_retired_jobs`, the counts,
--                    `get_job`, `row_to_job` and `backoff_ms_with_policy` as `backoff_ms`
--   Queue.Settle     store_settle.rs: `mark_done_with_followups`, `mark_failed_typed`,
--                    `mark_deferred`, all gated on the claim token
--   Queue.Recovery   store_settle.rs: stale locks, the release at shutdown, `requeue_failed_where`
--   Queue.Gate       gate.rs: `LlmGate` as its number of free slots
--   Queue.Handlers   handlers.rs and ops.rs: `plan_job` and each handler
--   Queue.Worker     worker.rs: `run_once_with_gate`, `settle_planned_job` and `bootstrap` in a
--                    monad of state and failure
-- The other files of Queue hold proofs: Index, Selection, Requeue, Claim, Lease, Backoff, Deferral,
-- Failure, Enqueue, Wire, Commit, Poison and Worker.Permits; Queue.Tests holds runs.
--
-- Tree models src/memory/tree:
--   Tree.Buffer      store/buffers.rs, `Buffer` of store/types.rs, `should_seal` of bucket_seal.rs
--   Tree.Append      bucket_seal.rs: `append_to_buffer` and `append_leaf_deferred`
--   Tree.Forest      the tree, summary, chunk and entity rows, and the statements a seal runs on them
--   Tree.Seal        bucket_seal.rs: `seal_one_level_with_services`, its transaction as `commit_seal`
--   Tree.Cascade     bucket_seal.rs: `cascade_all_from_with_services`, with its depth cap as the fuel
-- Tree.Rows, Tree.Growth, Tree.Snapshot, Tree.Retry, Tree.Commit and Tree.Sealed hold proofs;
-- Tree.Tests holds runs.
--
-- Graph.Edges models graph/edge_store.rs, which a seal writes to; Graph.Compare, Order, Weights and
-- Upserts hold proofs.
--
-- Sources.Ssrf models the address filter and the resolver of sources/readers/ssrf.rs;
-- Sources.Networks, Documented and Resolver hold proofs. The predicates of std::net are written out.
--
-- Sources.Entry, Patch, Edits and Registry model sources/types.rs, validation.rs and registry.rs: the
-- entries and their validation, `validate_for_kind` and `apply_to`, the changes of a list, and each
-- operation on the file. Sources.Ids, Changed, Written, Steps and Added hold proofs, with the
-- operations as a step relation on files in Steps; Sources.RegistryTests holds runs.
--
-- Chunks.Split models chunks/produce_split.rs: `push_atomic_segments` as `atomic_segments`, the greedy
-- loop of `split_by_token_budget` as `pack`. Its fuel is one more than the length of the text, which
-- is enough since every part of a cut is shorter. Chunks.Breaker models
-- chunks/connection_breaker.rs. Chunks.Pieces, Atomic, Pack, Budget, Tiling and Within hold proofs.
--
-- Store.Rows, Kv and Listing model store/kv.rs: rows under a primary key, `set_global` and the other
-- operations by their names, and the record listings. Store.Map says what they promise: commands
-- on two maps. Store.Refinement, Redaction, Newest, Records and Listed hold
-- proofs.
--
-- Goals.Doc and Goals.Disk model goals/store.rs: the mutations of `GoalsDocMutations` as `add_goal`,
-- `edit_goal` and `delete_goal`, `enforce_caps` by its two loops, and `load`, `save`, `add`, `edit`
-- and `delete` on a disk. Goals.Trim, First and Saved hold proofs.
--
-- Sync.State and Sync.Persisted model sync/state.rs: `record_requests` of the budget is
-- `record_budget`, and the trait `SyncStateStore` is a record with laws. Sync.Budgets holds proofs.
--
-- Retrieval.Cover and Retrieval.Versions model retrieval/cover.rs: `plan_cover` and
-- `collect_descendant_chunks`, `filter_superseded_doc_versions` by its loop `superseded`, and
-- `cover_one_source`. The walks below a summary take one more than its level as fuel, which is
-- enough since levels fall. Retrieval.Below, Subtrees, Losers,
-- Superseded, Planned, Once, Covered and Shown hold proofs.
--
-- Base passes library names on and holds lists, results, texts and Boolean tests.
--
-- A statement or transaction is a function on the table that returns the new table or an error,
-- which leaves the old one. The clock, fresh ids and the buffers that a settlement reads are
-- inputs. Rows stand in insertion order, and where SQL leaves an order open the earlier row is
-- taken first. A row's state is the state itself and not its text. Durations, instants and token
-- counts are natural numbers, as validated configurations, clocks and tokenizers give them;
-- `attempts` is cut to 32 bits when a row is read, and sums that saturate in the code do so here.
-- All loops are structural, and the cascade counts down the code's own cap of 32 levels; the
-- decimal printer of Base.Results has twenty rounds of fuel, enough for 64 bits.
--
-- Not modelled: opening the database, its busy retries and the classification of its errors,
-- logging and redaction, the scheduler's timers, serde_json and the host's `QueueDelegates`, which
-- are parameters, floating point scores and embeddings, staged files, and the parts of the
-- repository outside those named above. What a seal takes from the host and the file system is a
-- parameter, and so are the functions of other crates: token estimates, scrubbers, serde_json, toml
-- and the goals document's format. Where a text is cut, trimmed or tested by its characters it is
-- the list of its code points, and its length in bytes is counted from them. `list_namespace` of
-- the key-value store is left out.
pub mod Base
pub mod Chunks
pub mod Goals
pub mod Graph
pub mod Queue
pub mod Retrieval
pub mod Sources
pub mod Store
pub mod Sync
pub mod Tree
