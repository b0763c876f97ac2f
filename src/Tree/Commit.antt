-- ===== src/Tree/Commit.antt =====
-- What the transaction that commits a seal does to the buffers of its tree.
use tinycortex.Graph.Edges.{upsert_edges, pairs_from_entities}
use tinycortex.Tree.Rows.{
  is_at-place, get_buffer-upsert_at, get_buffer-is_at, get_buffer-upsert_other, is_at_lem,
}
use tinycortex.Tree.Snapshot.{consume_snapshot-append_all}
use tinycortex.Tree.Growth.{Append, append_all, items}
use tinycortex.Queue.Store.{enqueue_conn}
use tinycortex.Queue.Types.{NewJob}
use tinycortex.Queue.Payloads.{SealPayload}
use tinycortex.Queue.Table.{Table}
use tinycortex.Tree.Forest.{
  SummaryNode, Tree, Store, find_tree, active, insert_summary, index_entities,
}
use tinycortex.Tree.Seal.{
  Fresh, follow_up, lifted, commit_seal, tree_result, ensure_active, joined, backlinked, climbed,
}
use tinycortex.Queue.Handlers.{Serde, seal_job}
use tinycortex.Queue.Config.{QueueConfig}
use tinycortex.Base.{
  ◌>>=◌, ◌+◌, ◌≡◌, ◌&&◌, ◌∷◌, ◌++◌, if◌then◌else◌, [], Bool, ok, none, true, refl, false, List, ℕ,
  some, String, ◌∙◌, ap, sym, arith,
}
use tinycortex.Tree.Buffer.{
  Buffer, TreeConfig, should_seal, Buffers, get_buffer, is_at, push_item, upsert_buffer,
  consume_snapshot,
}

joined-is_at :
    (u : String) (m : ℕ) (node : SummaryNode) (spent : Buffers)
    → is_at u m (joined node spent) ≡ is_at u m (get_buffer node.tree_id node.level spent)
unfolding joined push_item
joined-is_at u m node spent = is_at-place u m _ _ refl refl

-- Reads after the summary has joined the level above.
items-joined :
    (node : SummaryNode) (spent : Buffers)
    → items node.tree_id node.level (upsert_buffer (joined node spent) spent)
      ≡ items node.tree_id node.level spent ++ (node.id ∷ [])
items-joined node spent =
    ap (λ b. b.item_ids)
      (get_buffer-upsert_at node.tree_id node.level (joined node spent) spent (
        joined-is_at node.tree_id node.level node spent
        ∙ get_buffer-is_at node.tree_id node.level spent))
    ∙ pushed
  where
    pushed : (joined node spent).item_ids ≡ items node.tree_id node.level spent ++ (node.id ∷ [])
    pushed = unfold joined push_item in refl

get_buffer-joined :
    (u : String) (m : ℕ) (node : SummaryNode) (spent : Buffers)
    → is_at u m (get_buffer node.tree_id node.level spent) ≡ false
    → get_buffer u m (upsert_buffer (joined node spent) spent) ≡ get_buffer u m spent
get_buffer-joined u m node spent h =
    get_buffer-upsert_other u m (joined node spent) spent (joined-is_at u m node spent ∙ h)

-- Whether a buffer stands at a place depends on where it was read only.
get_buffer-place :
    (u t : String) (m l : ℕ) (bs cs : Buffers)
    → is_at u m (get_buffer t l bs) ≡ is_at u m (get_buffer t l cs)
get_buffer-place u t m l bs cs =
    let p = is_at_lem t l _ (get_buffer-is_at t l bs) in
    let q = is_at_lem t l _ (get_buffer-is_at t l cs) in
    is_at-place u m _ _ (p.0 ∙ sym q.0) (p.1 ∙ sym q.1)

-- A level is not the one above it, nor the one below it.
prior_level-is_at :
    (t : String) (l : ℕ) (bs : Buffers) → is_at t l (get_buffer t (l + 1) bs) ≡ false
prior_level-is_at t l bs = go (is_at t l (get_buffer t (l + 1) bs)) refl
  where
    go : (b : Bool) → is_at t l (get_buffer t (l + 1) bs) ≡ b → b ≡ false
    go true e = absurd (
        omega
          (arith, (is_at_lem t l _ e).1, (is_at_lem t (l + 1) _ (get_buffer-is_at t (l + 1) bs)).1))
    go false e = refl

next_level-is_at : (t : String) (l : ℕ) (bs : Buffers) → is_at t (l + 1) (get_buffer t l bs) ≡ false
next_level-is_at t l bs = go (is_at t (l + 1) (get_buffer t l bs)) refl
  where
    go : (b : Bool) → is_at t (l + 1) (get_buffer t l bs) ≡ b → b ≡ false
    go true e =
        absurd (
          omega (arith, (is_at_lem t (l + 1) _ e).1, (is_at_lem t l _ (get_buffer-is_at t l bs)).1))
    go false e = refl

module _ (config : QueueConfig) (tree_config : TreeConfig) (serde : Serde) where
  follow_up-ok :
      (fresh : Fresh) (flag : Bool) (node : SummaryNode) (parent : Buffer) (jobs : Table)
      → ((p : SealPayload) → (j : NewJob) × (seal_job serde p ≡ ok j))
      → (jobs' : Table) × (follow_up config tree_config serde fresh flag node parent jobs
          ≡ ok jobs')
  unfolding follow_up lifted
  follow_up-ok fresh flag node parent jobs h = go (flag && should_seal tree_config parent)
    where
      made :
          (j : NewJob) × (seal_job serde
              (record { tree_id = node.tree_id; level = node.level; force_now_ms = none })
            ≡ ok j)
      made = h _

      go :
          (b : Bool)
          → (jobs' : Table) × ((if b
                then (lifted (
                      seal_job serde (record {
                        tree_id = node.tree_id;
                        level = node.level;
                        force_now_ms = none;
                      }))
                    >>= λ j. ok (enqueue_conn fresh.job_id fresh.now j config.max_attempts jobs).1)
                else ok jobs)
              ≡ ok jobs')
      go true =
          ((enqueue_conn fresh.job_id fresh.now made.0 config.max_attempts jobs).1, rw made.1 refl)
      go false = (jobs, refl)

  committed : Fresh → Buffer → SummaryNode → Tree → Table → Buffers → Store → Store
  unfolding backlinked climbed
  committed fresh buf node current jobs spent s =
      let inserted = insert_summary node s.summaries in
      let indexed = index_entities node.entities node.id fresh.now node.tree_id s.entities in
      let edges = (upsert_edges (pairs_from_entities node.entities) fresh.now s.edges).1 in
      let linked =
        backlinked buf.level node
          (record s { summaries = inserted; entities = indexed; edges = edges }) in
      record linked {
        buffers = upsert_buffer (joined node spent) spent;
        jobs = jobs;
        trees = climbed current node fresh.now s.trees;
      }

  commit_seal-committed :
      (fresh : Fresh) (flag : Bool) (buf : Buffer) (node : SummaryNode) (current : Tree) (s : Store)
      (spent : Buffers)
      → find_tree node.tree_id s.trees ≡ some current
      → current.status ≡ active
      → consume_snapshot buf s.buffers ≡ ok spent
      → ((p : SealPayload) → (j : NewJob) × (seal_job serde p ≡ ok j))
      → (jobs : Table) × (commit_seal config tree_config serde fresh flag buf node s
          ≡ ok (committed fresh buf node current jobs spent s))
  unfolding commit_seal tree_result ensure_active committed
  commit_seal-committed fresh flag buf node current s spent f g c h =
      let (jobs, e) = follow_up-ok fresh flag node (joined node spent) s.jobs h in
      (jobs, rw (f, g, c, e) refl)

  -- The buffers after a seal whose snapshot was read from the buffers `bs`, while other workers
  -- appended since, with a node for the level above: if the tree is active and the follow-up job
  -- prints, the transaction commits; the level sealed keeps what was appended since, in order; the
  -- summary joins the end of the level above; and every other buffer is as it was.
  pub commit_seal_lem :
      (fresh : Fresh) (flag : Bool) (bs : Buffers) (calls : List Append) (l : ℕ)
      (node : SummaryNode) (current : Tree) (s : Store)
      → s.buffers ≡ append_all calls bs
      → node.level ≡ l + 1
      → find_tree node.tree_id s.trees ≡ some current
      → current.status ≡ active
      → ((p : SealPayload) → (j : NewJob) × (seal_job serde p ≡ ok j))
      → let t = node.tree_id in
        (s' : Store) × (commit_seal config tree_config serde fresh flag (get_buffer t l bs) node s
          ≡ ok s')
        × (items t l bs ++ items t l s'.buffers ≡ items t l s.buffers)
        × (items t (l + 1) s'.buffers ≡ items t (l + 1) s.buffers ++ (node.id ∷ []))
        × ((u : String) (m : ℕ)
            → is_at u m (get_buffer t l bs) ≡ false
            → is_at u m (get_buffer t (l + 1) bs) ≡ false
            → get_buffer u m s'.buffers ≡ get_buffer u m s.buffers)
  unfolding committed backlinked
  commit_seal_lem fresh flag bs calls l node current s e lv f g h =
      let t = node.tree_id in
      let (spent, (c, (kept, others))) = consume_snapshot-append_all t l bs calls in
      let (jobs, q) =
        commit_seal-committed fresh flag (get_buffer t l bs) node current s spent f g (rw e c) h in
      let above : is_at t node.level (get_buffer t l bs) ≡ false =
        rw lv (next_level-is_at t l bs) in
      let below : is_at t l (get_buffer t node.level spent) ≡ false =
        rw lv (prior_level-is_at t l spent) in
      let still = get_buffer-joined t l node spent below in
      let pushed =
        items-joined node spent
        ∙ ap (λ b. b.item_ids ++ (node.id ∷ [])) (others t node.level above) in
      (
        committed fresh (get_buffer t l bs) node current jobs spent s,
        q,
        ap (λ b. items t l bs ++ b.item_ids) still ∙ kept ∙ ap (items t l) (sym e),
        rw (sym lv, e) pushed,
        λ u m p r. rw e (
            get_buffer-joined u m node spent (rw lv (get_buffer-place u t m (l + 1) spent bs ∙ r))
            ∙ others u m p),
      )
