-- ===== src/Retrieval/Shown.antt =====
-- The whole cover of one source in memory/retrieval/cover.rs.
use tinycortex.Retrieval.Planned.{Chosen}
use tinycortex.Base.{
  ◌<◌, ◌≡◌, ◌∙◌, if◌then◌else◌, [], List, In, subst, sym, Bool, keep, In-keep, some, Text, none, ap,
  ◌↔◌, not,
}
use tinycortex.Retrieval.Cover.{holds, SummaryNode, Hit, chunk_hit, summary_hit, cover_left}
use tinycortex.Retrieval.Versions.{Subtree, superseded, left_of, cover_one_source}
use tinycortex.Retrieval.Below.{Levelled, by_id-In, Below}
use tinycortex.Retrieval.Covered.{cover_left_lem}
use tinycortex.Retrieval.Once.{by_id-eq, Distinct, node_ids, keep-node_ids}
use tinycortex.Retrieval.Superseded.{Dropped, Stale, superseded-Removes, left_of-Dropped}

-- An eligible child of an eligible summary has a lower level.
abbrev pub TreeLevels : List SummaryNode → Type 0
TreeLevels es = (n m : SummaryNode) → In n es → In m es → In m.id n.child_ids → m.level < n.level

TreeLevels-Levelled : (es : List SummaryNode) → TreeLevels es → Levelled es
TreeLevels-Levelled es h n m k i j e =
    h n m i (by_id-In es k m e) (subst (λ z. In z n.child_ids) (sym (by_id-eq es k m e)) j)

keep-TreeLevels :
    (p : SummaryNode → Bool) (es : List SummaryNode) → TreeLevels es → TreeLevels (keep p es)
keep-TreeLevels p es h n m i j = h n m (In-keep p n es i).0 (In-keep p m es j).0

cover_versions :
    (es : List SummaryNode) (exact_source : Bool) (chunks : List Text) (r : Subtree)
    (hits : List Hit)
    → superseded es [] es ≡ some r
    → cover_left (left_of es r) r.chunk_ids exact_source chunks ≡ some hits
    → cover_one_source es exact_source chunks ≡ some hits
unfolding cover_one_source
cover_versions es exact_source chunks r hits q e =
    ap
      (λ o. elim o [
        | none ↦ none
        | some x ↦ cover_left (left_of es x) x.chunk_ids exact_source chunks
      ])
      q
    ∙ e

-- The cover of one source ends, and no hit occurs twice. The summaries left out are exactly the
-- revisions of a document of which a newer one is eligible or an earlier one is a newest, and the
-- summaries below such a revision. A chunk is shown as itself exactly if it is given, is not below
-- such a revision, and is not below a summary that stands in for its subtree; and those summaries are
-- exactly the ones left whose parent is not left and, for a restricted source, below which every
-- chunk is one of the given chunks. A child among the eligible summaries is taken to have a lower
-- level than its parent, the ids of the summaries to differ, and so the chunks.
pub cover_one_source_lem :
    (es : List SummaryNode) (exact_source : Bool) (chunks : List Text)
    → TreeLevels es
    → Distinct (node_ids es)
    → Distinct chunks
    → let pr = if exact_source then some chunks else none in
      (r : Subtree) × (hits : List Hit) × (superseded es [] es ≡ some r)
      × (cover_one_source es exact_source chunks ≡ some hits)
      × Distinct hits
      × ((s : SummaryNode) → In s (left_of es r) ↔ (In s es × (¬ Dropped es s.id)))
      × ((c : Text)
          → In (chunk_hit c) hits ↔ (
              In c chunks
              × (¬ Stale es c)
              × (¬ (
                  (n : SummaryNode) × In n (left_of es r)
                  × Chosen (left_of es r) pr n
                  × Below (left_of es r) n c))))
      × ((i : Text)
          → In (summary_hit i) hits
            ↔ ((n : SummaryNode) × In n (left_of es r) × Chosen (left_of es r) pr n × (i ≡ n.id)))
unfolding left_of
cover_one_source_lem es exact_source chunks h u v =
    let (r, q, a, b) =
      superseded-Removes es (TreeLevels-Levelled es h) [] [] es
        (λ doc. ((λ m. elim m [ ]), λ w. elim w.1 [ ])) (λ n m. m) in
    let (hits, e, x, y, differ) = cover_left_lem (left_of es r) r.chunk_ids exact_source chunks (
      TreeLevels-Levelled (left_of es r)
        (keep-TreeLevels (λ s. not (holds r.summary_ids s.id)) es h)) in
    (
      r,
      hits,
      q,
      cover_versions es exact_source chunks r hits q e,
      differ (keep-node_ids (λ s. not (holds r.summary_ids s.id)) es u).0 v,
      left_of-Dropped es r a,
      (λ c. (
        (λ m. let (i, n, k) = (x c).0 m in (i, (λ s. n ((b c).1 s)), k)),
        λ (i, n, k). (x c).1 (i, (λ s. n ((b c).0 s)), k),
      )),
      y,
    )
