-- ===== src/Retrieval/Tests.antt =====
-- The theorem on the cover, run on a summary over a summary, of a source with one chunk more.
use tinycortex.Base.{
  ◌<◌, ◌≡◌, ◌∙◌, ◌↔◌, ◌⊎◌, ◌∷◌, [], some, none, List, Text, ℕ, inl, subst, In, arith, ap, inr, sym,
  true,
}
use tinycortex.Retrieval.Cover.{SummaryNode, Hit, chunk_hit, summary_hit}
use tinycortex.Retrieval.Versions.{Subtree, superseded, left_of, cover_one_source}
use tinycortex.Retrieval.Once.{Distinct, node_ids}
use tinycortex.Retrieval.Below.{Below}
use tinycortex.Retrieval.Planned.{Chosen}
use tinycortex.Retrieval.Shown.{TreeLevels, cover_one_source_lem}
use tinycortex.Retrieval.Superseded.{Dropped, Stale}

abbrev low : SummaryNode
low = record {
  id = 1 ∷ [];
  level = 1;
  parent_id = some (2 ∷ []);
  child_ids = (10 ∷ []) ∷ [];
  doc_id = none;
  version_ms = none;
}

abbrev top : SummaryNode
top = record {
  id = 2 ∷ [];
  level = 2;
  parent_id = none;
  child_ids = (1 ∷ []) ∷ [];
  doc_id = none;
  version_ms = none;
}

abbrev eligible : List SummaryNode
eligible = top ∷ low ∷ []

abbrev first : Text → ℕ
first [] = 0
first (c ∷ cs) = c

eligible-TreeLevels : TreeLevels eligible
eligible-TreeLevels n m (inl p) (inl q) j =
    go (subst (λ x. In x.id top.child_ids) q (subst (λ x. In m.id x.child_ids) p j))
  where
    go : (top.id ≡ low.id) ⊎ ⊥ → m.level < n.level
    go (inl e) = ground (arith, ap first e)
    go (inr e) = elim e [ ]
eligible-TreeLevels n m (inl p) (inr (inl q)) j =
    omega (arith, ap (λ x. x.level) p, ap (λ x. x.level) q)
eligible-TreeLevels n m (inl p) (inr (inr q)) j = elim q [ ]
eligible-TreeLevels n m (inr (inl p)) k j = go k (subst (λ x. In m.id x.child_ids) p j)
  where
    go : In m eligible → (m.id ≡ 10 ∷ []) ⊎ ⊥ → m.level < n.level
    go (inl q) (inl e) = ground (arith, ap first (sym (ap (λ x. x.id) q) ∙ e))
    go (inr (inl q)) (inl e) = ground (arith, ap first (sym (ap (λ x. x.id) q) ∙ e))
    go (inr (inr q)) (inl e) = elim q [ ]
    go i (inr e) = elim e [ ]
eligible-TreeLevels n m (inr (inr p)) k j = elim p [ ]

abbrev chunks : List Text
chunks = (10 ∷ []) ∷ (11 ∷ []) ∷ []

eligible-Distinct : Distinct (node_ids eligible)
eligible-Distinct = (
  (λ y m e. elim m [ inl p ↦ ground (arith, ap first (e ∙ p)) | inr p ↦ elim p [ ] ]),
  ((λ y m. elim m [ ]), tt),
)

chunks-Distinct : Distinct chunks
chunks-Distinct = (
  (λ y m e. elim m [ inl p ↦ ground (arith, ap first (e ∙ p)) | inr p ↦ elim p [ ] ]),
  ((λ y m. elim m [ ]), tt),
)

cover_one_source_lem_example :
    (r : Subtree) × (hits : List Hit) × (superseded eligible [] eligible ≡ some r)
    × (cover_one_source eligible true chunks ≡ some hits)
    × Distinct hits
    × ((s : SummaryNode) → In s (left_of eligible r) ↔ (In s eligible × (¬ Dropped eligible s.id)))
    × ((c : Text)
        → In (chunk_hit c) hits ↔ (
            In c chunks
            × (¬ Stale eligible c)
            × (¬ (
                (n : SummaryNode) × In n (left_of eligible r)
                × Chosen (left_of eligible r) (some chunks) n
                × Below (left_of eligible r) n c))))
    × ((i : Text)
        → In (summary_hit i) hits ↔ (
            (n : SummaryNode) × In n (left_of eligible r)
            × Chosen (left_of eligible r) (some chunks) n
            × (i ≡ n.id)))
cover_one_source_lem_example =
    cover_one_source_lem eligible true chunks eligible-TreeLevels eligible-Distinct chunks-Distinct
