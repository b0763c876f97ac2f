-- ===== src/Tree/Append.antt =====
-- `append_to_buffer` and `append_leaf_deferred` of memory/tree/bucket_seal.rs. The tree row is a
-- function from the id to its status.
use tinycortex.Base.{
  List, String, ℕ, Bool, Option, Result, same, if◌then◌else◌, any, ok, err, ok_or, ◌>>=◌,
}
use tinycortex.Tree.Buffer.{
  TreeConfig, Buffers, TreeError, get_buffer, upsert_buffer, push_item, should_seal, no_tree,
  tree_archived,
}

-- `append_to_buffer` between the status check and the commit.
unfoldable pub append_item : String → ℕ → String → ℕ → ℕ → Buffers → Buffers
append_item tree_id level item token_delta ts bs =
    let buf = get_buffer tree_id level bs in
    if any (same item) buf.item_ids
    then bs
    else upsert_buffer (push_item item token_delta ts buf) bs

unfoldable pub append_to_buffer :
    (String → Option String) → String → ℕ → String → ℕ → ℕ → Buffers → Result TreeError Buffers
unfolding append_item
append_to_buffer status_of tree_id level item token_delta ts bs = do
  status ← ok_or no_tree (status_of tree_id)
  if same status "active"
      then ok (append_item tree_id level item token_delta ts bs)
      else err tree_archived

-- The leaf without its score, a float that nothing here reads.
pub record LeafRef : Type 0 where
  pub chunk_id : String
  pub token_count : ℕ
  pub timestamp : ℕ
  pub content : String
  pub entities : List String
  pub topics : List String

unfoldable pub append_leaf_deferred :
    TreeConfig
    → (String → Option String)
    → String
    → LeafRef
    → Buffers
    → Result TreeError (Buffers × Bool)
unfolding append_to_buffer
append_leaf_deferred config status_of tree_id leaf bs = do
  after ← append_to_buffer status_of tree_id 0 leaf.chunk_id leaf.token_count leaf.timestamp bs
  ok (after, should_seal config (get_buffer tree_id 0 after))
