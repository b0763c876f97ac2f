-- ===== src/Retrieval/Versions.antt =====
-- memory/retrieval/cover.rs, `filter_superseded_doc_versions` and the whole cover of one source. A version
-- is a number of milliseconds, and a missing one is below every other.
use tinycortex.Base.{
  ◌&&◌, ◌∷◌, ◌++◌, if◌then◌else◌, [], Option, ℕ, Bool, none, false, some, true, ltb, Text,
  same_text, List, zero, suc, keep, not, ◌||◌,
}
use tinycortex.Retrieval.Cover.{SummaryNode, Hit, holds, by_id, cover_left}

unfoldable pub is_older : Option ℕ → Option ℕ → Bool
is_older none none = false
is_older none (some w) = true
is_older (some v) none = false
is_older (some v) (some w) = ltb v w

unfoldable pub is_doc : Text → SummaryNode → Bool
is_doc doc s = elim s.doc_id [ none ↦ false | some d ↦ same_text d doc ]

-- The newest version of a document among the nodes.
unfoldable pub max_version : Text → List SummaryNode → Option ℕ
unfolding is_older is_doc
max_version doc [] = none
max_version doc (s ∷ ss) =
    let rest = max_version doc ss in
    if is_doc doc s && is_older rest s.version_ms then s.version_ms else rest

-- The ids of summaries and of chunks.
pub record Subtree : Type 0 where
  pub summary_ids : List Text
  pub chunk_ids : List Text

abbrev pub no_subtree : Subtree
no_subtree = record { summary_ids = []; chunk_ids = [] }

unfoldable pub join_subtrees : Option Subtree → Option Subtree → Option Subtree
join_subtrees (some a) (some b) = some (record {
  summary_ids = a.summary_ids ++ b.summary_ids;
  chunk_ids = a.chunk_ids ++ b.chunk_ids;
})
join_subtrees _ _ = none

unfoldable pub subtree_children : (Text → Option Subtree) → List Text → Option Subtree
unfolding join_subtrees
subtree_children f [] = some no_subtree
subtree_children f (k ∷ ks) = join_subtrees (f k) (subtree_children f ks)

abbrev pub one_summary : Text → Option Subtree
one_summary k = some (record { summary_ids = k ∷ []; chunk_ids = [] })

abbrev pub one_chunk : Text → Option Subtree
one_chunk k = some (record { summary_ids = []; chunk_ids = k ∷ [] })

-- `collect_subtree_ids`, on fuel.
unfoldable pub subtree : ℕ → List SummaryNode → SummaryNode → Option Subtree
unfolding by_id subtree_children
subtree zero es n = none
subtree (suc fuel) es n =
    subtree_children
      (λ k. elim (by_id es k) [
        | none ↦ one_chunk k
        | some m ↦ join_subtrees (one_summary k) (subtree fuel es m)
      ])
      n.child_ids

unfoldable pub collect_subtree_ids : List SummaryNode → SummaryNode → Option Subtree
unfolding subtree
collect_subtree_ids es n = subtree (suc n.level) es n

-- A revision older than the newest version of its document loses, and so does a second one of the
-- newest version, once the document has a winner.
unfoldable pub loses : List SummaryNode → List Text → SummaryNode → Bool
unfolding max_version is_older
loses es winners s = elim s.doc_id [
  | none ↦ false
  | some doc ↦ is_older s.version_ms (max_version doc es) || holds winners doc
]

unfoldable pub winners_after : Bool → SummaryNode → List Text → List Text
winners_after lost s winners = elim s.doc_id [
  | none ↦ winners
  | some doc ↦ if lost then winners else doc ∷ winners
]

-- The loop over the nodes, with the documents that have a winner.
unfoldable pub superseded : List SummaryNode → List Text → List SummaryNode → Option Subtree
unfolding loses winners_after collect_subtree_ids join_subtrees
superseded es winners [] = some no_subtree
superseded es winners (s ∷ ss) =
    let rest = superseded es (winners_after (loses es winners s) s winners) ss in
    if loses es winners s
    then join_subtrees (one_summary s.id) (join_subtrees (collect_subtree_ids es s) rest)
    else rest

unfoldable pub left_of : List SummaryNode → Subtree → List SummaryNode
left_of es gone = keep (λ s. not (holds gone.summary_ids s.id)) es

-- `cover_one_source` on the eligible summaries of the source's tree. Without a document nothing is
-- superseded.
unfoldable pub cover_one_source : List SummaryNode → Bool → List Text → Option (List Hit)
unfolding superseded left_of cover_left
cover_one_source es exact_source chunks = elim (superseded es [] es) [
  | none ↦ none
  | some r ↦ cover_left (left_of es r) r.chunk_ids exact_source chunks
]
