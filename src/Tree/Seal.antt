-- ===== src/Tree/Seal.antt =====
-- `seal_one_level_with_services` of memory/tree/bucket_seal.rs.
-- What the host and the file system supply is a parameter; a fresh id and the clock are inputs.

use tinycortex.Graph.Edges.{upsert_edges, pairs_from_entities}
use tinycortex.Queue.Store.{enqueue_conn}
use tinycortex.Queue.Table.{Table}
use tinycortex.Queue.Config.{QueueConfig}
use tinycortex.Tree.Forest.{
  SummaryNode, Tree, Store, backlink, adopt_chunk, adopt_summary, sealed_tree, refreshed_tree,
  TreeStatus, active, archived, insert_summary, index_entities, find_tree,
}
use tinycortex.Queue.Handlers.{AnyError, Anyhow, Serde, seal_job}
use tinycortex.Tree.Buffer.{
  TreeError, Buffers, Buffer, push_item, get_buffer, TreeConfig, should_seal, no_tree,
  consume_snapshot, upsert_buffer, empty_inputs, tree_archived,
}
use tinycortex.Base.{
  ℕ, ◌+◌, ◌∷◌, if◌then◌else◌, [], ◌>>=◌, String, List, Bool, Result, ok, err, min, max, none, map,
  false, ◌&&◌, ◌==◌, ltb, ok_or,
}

pub data SealError : Type 0 where
  refused : TreeError → SealError
  host : AnyError → SealError

pub record SummaryInput : Type 0 where
  pub id : String
  pub content : String
  pub token_count : ℕ
  pub entities : List String
  pub topics : List String
  pub time_range_start : ℕ
  pub time_range_end : ℕ

pub record SummaryOutput : Type 0 where
  pub content : String
  pub token_count : ℕ

-- `hydrate_inputs`, the summariser and its fallback, `str::trim().is_empty()`, the labels, the
-- embedder on the first 4,000 characters, the staging of the file, and the observer's word on a committed summary.
pub record SealServices : Type 0 where
  pub hydrate_inputs : ℕ → List String → Anyhow (List SummaryInput)
  pub summarise : List SummaryInput → Anyhow SummaryOutput
  pub fallback_summary : List SummaryInput → SummaryOutput
  pub is_blank : String → Bool
  pub resolve_labels : List SummaryInput → String → Anyhow (List String × List String)
  pub embed : String → Anyhow (Unit {0})
  pub stage_summary : SummaryNode → Anyhow (Unit {0})
  pub summary_committed : SummaryNode → Anyhow (Unit {0})

-- The clock and the ids of one seal.
pub record Fresh : Type 0 where
  pub now : ℕ
  pub summary_id : String
  pub job_id : String

unfoldable pub lifted : {A : Type 0} → Anyhow A → Result SealError A
lifted (ok a) = ok a
lifted (err e) = err (host e)

unfoldable pub tree_result : {A : Type 0} → Result TreeError A → Result SealError A
tree_result (ok a) = ok a
tree_result (err e) = err (refused e)

earliest : ℕ → List SummaryInput → ℕ
earliest t [] = t
earliest t (i ∷ is) = earliest (min t i.time_range_start) is

latest : ℕ → List SummaryInput → ℕ
latest t [] = t
latest t (i ∷ is) = latest (max t i.time_range_end) is

-- The summariser's output unless it failed or is blank.
summary_or_fallback : SealServices → List SummaryInput → Anyhow SummaryOutput → SummaryOutput
summary_or_fallback services inputs (err e) = services.fallback_summary inputs
summary_or_fallback services inputs (ok o) =
    if services.is_blank o.content then services.fallback_summary inputs else o

-- The node of a seal; `first` bounds its range of times.
node_of :
    Tree
    → ℕ
    → Fresh
    → SummaryInput
    → List SummaryInput
    → SummaryOutput
    → List String × List String
    → SummaryNode
unfolding earliest latest
node_of tree level fresh first rest output labels = record {
  id = fresh.summary_id;
  tree_id = tree.id;
  tree_kind = tree.kind;
  level = level + 1;
  parent_id = none;
  child_ids = map (λ (i : SummaryInput). i.id) (first ∷ rest);
  content = output.content;
  token_count = output.token_count;
  entities = labels.0;
  topics = labels.1;
  time_range_start = earliest first.time_range_start rest;
  time_range_end = latest first.time_range_end rest;
  sealed_at = fresh.now;
  deleted = false;
  doc_id = none;
  version_ms = none;
}

module _ (services : SealServices) where
  -- From the inputs to the staged node.
  unfoldable pub summarise_node :
      Tree → ℕ → Fresh → SummaryInput → List SummaryInput → Result SealError SummaryNode
  unfolding lifted node_of summary_or_fallback
  summarise_node tree level fresh first rest = do
    let inputs = first ∷ rest
    let output = summary_or_fallback services inputs (services.summarise inputs)
    labels ← lifted (services.resolve_labels inputs output.content)
    _ ← if services.is_blank output.content then ok tt else lifted (services.embed output.content)
    let node = node_of tree level fresh first rest output labels
    _ ← lifted (services.stage_summary node)
    ok node

-- The children of the node get it as their parent, where they have none.
unfoldable pub backlinked : ℕ → SummaryNode → Store → Store
unfolding backlink adopt_chunk adopt_summary
backlinked level node s =
    if level == 0
    then record s { chunks = backlink (adopt_chunk node.id) node.child_ids s.chunks }
    else record s { summaries = backlink (adopt_summary node.id) node.child_ids s.summaries }

-- The tree row after the seal: a new root if the seal climbed a level.
unfoldable pub climbed : Tree → SummaryNode → ℕ → List Tree → List Tree
unfolding sealed_tree refreshed_tree
climbed current node now trees =
    if ltb current.max_level node.level
    then map (sealed_tree node.tree_id node.id node.level now) trees
    else map (refreshed_tree node.tree_id now) trees

-- The summary appended to the buffer of the level above.
unfoldable pub joined : SummaryNode → Buffers → Buffer
joined node bs =
    push_item node.id node.token_count node.time_range_start (get_buffer node.tree_id node.level bs)

module _ (config : QueueConfig) (tree_config : TreeConfig) (serde : Serde) where
  unfoldable pub follow_up : Fresh → Bool → SummaryNode → Buffer → Table → Result SealError Table
  unfolding lifted
  follow_up fresh enqueue_follow_ups node parent jobs =
      if enqueue_follow_ups && should_seal tree_config parent
      then (lifted (
            seal_job serde
              (record { tree_id = node.tree_id; level = node.level; force_now_ms = none }))
          >>= λ j. ok (enqueue_conn fresh.job_id fresh.now j config.max_attempts jobs).1)
      else ok jobs

  unfoldable pub ensure_active : TreeStatus → Result SealError (Unit {0})
  ensure_active active = ok tt
  ensure_active archived = err (refused tree_archived)

  -- The transaction that commits a seal.
  unfoldable pub commit_seal : Fresh → Bool → Buffer → SummaryNode → Store → Result SealError Store
  unfolding tree_result backlinked climbed joined follow_up ensure_active insert_summary
      index_entities find_tree
  commit_seal fresh enqueue_follow_ups buf node s = do
    current ← tree_result (ok_or no_tree (find_tree node.tree_id s.trees))
    _ ← ensure_active current.status
    let inserted = insert_summary node s.summaries
    let indexed = index_entities node.entities node.id fresh.now node.tree_id s.entities
    let edges = (upsert_edges (pairs_from_entities node.entities) fresh.now s.edges).1
    let linked =
        backlinked buf.level node
          (record s { summaries = inserted; entities = indexed; edges = edges })
    spent ← tree_result (consume_snapshot buf s.buffers)
    let parent = joined node spent
    jobs ← follow_up fresh enqueue_follow_ups node parent s.jobs
    ok (record linked {
      buffers = upsert_buffer parent spent;
      jobs = jobs;
      trees = climbed current node fresh.now s.trees;
    })

  -- A failure after the commit leaves the store committed.
  unfoldable pub seal_one_level :
      SealServices → Fresh → Bool → Tree → Buffer → Store → Result SealError String × Store
  unfolding lifted summarise_node commit_seal
  seal_one_level services fresh enqueue_follow_ups tree buf s =
      elim (lifted (services.hydrate_inputs buf.level buf.item_ids)) [
        | err e ↦ (err e, s)
        | ok [] ↦ (err (refused empty_inputs), s)
        | ok (first ∷ rest) ↦ elim (summarise_node services tree buf.level fresh first rest) [
          | err e ↦ (err e, s)
          | ok node ↦ elim (commit_seal fresh enqueue_follow_ups buf node s) [
            | err e ↦ (err e, s)
            | ok s' ↦ ((lifted (services.summary_committed node) >>= λ u. ok node.id), s')
          ]
        ]
      ]
