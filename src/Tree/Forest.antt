-- ===== src/Tree/Forest.antt =====
-- The rows of memory/tree/store/types.rs and the statements that a seal runs on them, from
-- memory/tree/bucket_seal.rs, store/trees.rs, store/summaries.rs and memory/score/store.rs. Scores and
-- embeddings, which are floating point, are left out of the rows, as is the staged file.

use tinycortex.Graph.Edges.{Edge}
use tinycortex.Queue.Table.{Table}
use tinycortex.Tree.Buffer.{Buffers}
use tinycortex.Base.{
  ℕ, ◌&&◌, ◌∷◌, ◌++◌, if◌then◌else◌, [], String, Option, List, Bool, none, true, some, false, any,
  same, map, find,
}

pub data TreeKind : Type 0 where
  source topic global flavoured : TreeKind

pub data TreeStatus : Type 0 where
  active archived : TreeStatus

pub record Tree : Type 0 where
  pub id : String
  pub kind : TreeKind
  pub scope : String
  pub root_id : Option String
  pub max_level : ℕ
  pub status : TreeStatus
  pub created_at : ℕ
  pub last_sealed_at : Option ℕ
  pub ask : Option String

pub record SummaryNode : Type 0 where
  pub id : String
  pub tree_id : String
  pub tree_kind : TreeKind
  pub level : ℕ
  pub parent_id : Option String
  pub child_ids : List String
  pub content : String
  pub token_count : ℕ
  pub entities : List String
  pub topics : List String
  pub time_range_start : ℕ
  pub time_range_end : ℕ
  pub sealed_at : ℕ
  pub deleted : Bool
  pub doc_id : Option String
  pub version_ms : Option ℕ

-- The column of `mem_tree_chunks` that a seal writes.
pub record ChunkRow : Type 0 where
  pub id : String
  pub parent_summary_id : Option String

pub record EntityRow : Type 0 where
  pub entity_id : String
  pub node_id : String
  pub timestamp_ms : ℕ
  pub tree_id : Option String

-- The tables that the transaction of a seal touches.
pub record Store : Type 0 where
  pub trees : List Tree
  pub buffers : Buffers
  pub summaries : List SummaryNode
  pub chunks : List ChunkRow
  pub entities : List EntityRow
  pub edges : List Edge
  pub jobs : Table

is_null : Option String → Bool
is_null none = true
is_null (some x) = false

-- `INSERT OR IGNORE INTO mem_tree_summaries`.
unfoldable pub insert_summary : SummaryNode → List SummaryNode → List SummaryNode
insert_summary node rows =
    if any (λ (r : SummaryNode). same r.id node.id) rows then rows else rows ++ (node ∷ [])

upsert_entity : EntityRow → List EntityRow → List EntityRow
upsert_entity row [] = row ∷ []
upsert_entity row (r ∷ rows) =
    if same r.entity_id row.entity_id && same r.node_id row.node_id
    then row ∷ rows
    else r ∷ upsert_entity row rows

unfoldable pub index_entities : List String → String → ℕ → String → List EntityRow → List EntityRow
unfolding upsert_entity
index_entities [] node_id now tree_id rows = rows
index_entities (e ∷ es) node_id now tree_id rows = index_entities es node_id now tree_id (
    upsert_entity
      (record { entity_id = e; node_id = node_id; timestamp_ms = now; tree_id = some tree_id })
      rows)

-- `UPDATE mem_tree_chunks SET parent_summary_id = … WHERE id = … AND parent_summary_id IS NULL`.
unfoldable pub adopt_chunk : String → String → ChunkRow → ChunkRow
unfolding is_null
adopt_chunk parent child c =
    if same c.id child && is_null c.parent_summary_id
    then record c { parent_summary_id = some parent }
    else c

unfoldable pub adopt_summary : String → String → SummaryNode → SummaryNode
unfolding is_null
adopt_summary parent child c =
    if same c.id child && is_null c.parent_id then record c { parent_id = some parent } else c

-- One statement for each child.
unfoldable pub backlink : {A : Type 0} → (String → A → A) → List String → List A → List A
backlink adopt [] rows = rows
backlink adopt (child ∷ children) rows = backlink adopt children (map (adopt child) rows)

unfoldable pub find_tree : String → List Tree → Option Tree
find_tree id = find (λ (t : Tree). same t.id id)

-- `update_tree_after_seal_tx` and `refresh_last_sealed_tx`.
unfoldable pub sealed_tree : String → String → ℕ → ℕ → Tree → Tree
sealed_tree tree_id root_id level now t =
    if same t.id tree_id
    then record t { root_id = some root_id; max_level = level; last_sealed_at = some now }
    else t

unfoldable pub refreshed_tree : String → ℕ → Tree → Tree
refreshed_tree tree_id now t =
    if same t.id tree_id then record t { last_sealed_at = some now } else t
