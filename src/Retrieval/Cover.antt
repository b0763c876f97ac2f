-- ===== src/Retrieval/Cover.antt =====
-- memory/retrieval/cover.rs: the cover of a time window in the tree of one source. Sets are lists, read by
-- membership, and ids are lists of code points. The recursion over children counts down from a
-- node's level: a seal gives a summary a level above those of its children.
use tinycortex.Base.{
  ◌&&◌, ◌||◌, ◌∷◌, ◌++◌, if◌then◌else◌, [], Text, ℕ, Option, List, Bool, any, same_text, none, some,
  zero, suc, true, not,
}

pub record SummaryNode : Type 0 where
  pub id : Text
  pub level : ℕ
  pub parent_id : Option Text
  pub child_ids : List Text
  pub doc_id : Option Text
  pub version_ms : Option ℕ

pub record CoverPlan : Type 0 where
  pub maximal_ids : List Text
  pub covered_chunk_ids : List Text

abbrev pub holds : List Text → Text → Bool
holds xs x = any (same_text x) xs

-- `by_id.get`.
unfoldable pub by_id : List SummaryNode → Text → Option SummaryNode
by_id [] id = none
by_id (n ∷ ns) id = let rest = by_id ns id in if same_text n.id id then some n else rest

-- The chunks below two lists of children, if both walks end.
unfoldable pub join_walks : Option (List Text) → Option (List Text) → Option (List Text)
join_walks (some xs) (some ys) = some (xs ++ ys)
join_walks _ _ = none

unfoldable pub walk_children : (Text → Option (List Text)) → List Text → Option (List Text)
unfolding join_walks
walk_children f [] = some []
walk_children f (k ∷ ks) = join_walks (f k) (walk_children f ks)

-- `collect_descendant_chunks`, on fuel: a child that is no eligible summary is a chunk.
unfoldable pub collect : ℕ → List SummaryNode → SummaryNode → Option (List Text)
unfolding by_id walk_children
collect zero es n = none
collect (suc fuel) es n =
    walk_children (λ k. elim (by_id es k) [ none ↦ some (k ∷ []) | some m ↦ collect fuel es m ])
      n.child_ids

unfoldable pub collect_descendant_chunks : List SummaryNode → SummaryNode → Option (List Text)
unfolding collect
collect_descendant_chunks es n = collect (suc n.level) es n

-- The parent is not eligible.
unfoldable pub is_maximal : List SummaryNode → SummaryNode → Bool
is_maximal es n = elim n.parent_id [ none ↦ true | some p ↦ not (any (λ e. same_text e.id p) es) ]

abbrev pub all_held : List Text → List Text → Bool
all_held present [] = true
all_held present (x ∷ xs) = holds present x && all_held present xs

-- Without a restriction every summary may stand in for its subtree.
unfoldable pub may_cover : Option (List Text) → List Text → Bool
may_cover none sub = true
may_cover (some present) sub = all_held present sub

unfoldable pub put_node : Bool → Text → List Text → CoverPlan → CoverPlan
put_node b id sub p =
    if b
    then record { maximal_ids = id ∷ p.maximal_ids; covered_chunk_ids = sub ++ p.covered_chunk_ids }
    else p

-- One node in front of the plan of the later ones.
unfoldable pub plan_node :
    Option (List Text) → Text → Option (List Text) → Option CoverPlan → Option CoverPlan
unfolding put_node may_cover
plan_node present id (some sub) (some p) = some (put_node (may_cover present sub) id sub p)
plan_node present id _ _ = none

-- The loop over the eligible nodes.
unfoldable pub plan_nodes :
    List SummaryNode → Option (List Text) → List SummaryNode → Option CoverPlan
unfolding plan_node is_maximal collect_descendant_chunks
plan_nodes es present [] = some (record { maximal_ids = []; covered_chunk_ids = [] })
plan_nodes es present (n ∷ ns) =
    let rest = plan_nodes es present ns in
    if is_maximal es n then plan_node present n.id (collect_descendant_chunks es n) rest else rest

unfoldable pub plan_cover : List SummaryNode → Option (List Text) → Option CoverPlan
unfolding plan_nodes
plan_cover es present = plan_nodes es present es

pub data Hit : Type 0 where
  summary_hit chunk_hit : Text → Hit

-- The summaries of a plan that are eligible, as hits.
unfoldable pub summary_hits : List SummaryNode → List Text → List Hit
unfolding by_id
summary_hits es [] = []
summary_hits es (id ∷ ids) =
    let rest = summary_hits es ids in
    elim (by_id es id) [ none ↦ rest | some n ↦ summary_hit n.id ∷ rest ]

-- The chunks that are neither covered nor suppressed, as hits.
unfoldable pub chunk_hits : List Text → List Text → List Text → List Hit
chunk_hits taken suppressed [] = []
chunk_hits taken suppressed (c ∷ cs) =
    let rest = chunk_hits taken suppressed cs in
    if holds taken c || holds suppressed c then rest else chunk_hit c ∷ rest

-- `cover_one_source` after the versions: the eligible summaries left and the chunks suppressed.
unfoldable pub cover_left : List SummaryNode → List Text → Bool → List Text → Option (List Hit)
unfolding plan_cover summary_hits chunk_hits
cover_left es suppressed exact_source chunks =
    elim (plan_cover es (if exact_source then some chunks else none)) [
      | none ↦ none
      | some p ↦
          some (summary_hits es p.maximal_ids ++ chunk_hits p.covered_chunk_ids suppressed chunks)
    ]
