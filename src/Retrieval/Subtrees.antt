-- ===== src/Retrieval/Subtrees.antt =====
-- What `collect_subtree_ids` of memory/retrieval/cover.rs finds below a summary.
use tinycortex.Base.{
  ◌≡◌, ◌∷◌, [], ◌<◌, ◌∙◌, ◌↔◌, ◌⊎◌, List, Text, In, some, Option, none, ℕ, zero, suc, refl, ap, inl,
  inr, arith, sym, subst,
}
use tinycortex.Retrieval.Cover.{
  SummaryNode, by_id, join_walks, walk_children, collect, collect_descendant_chunks,
}
use tinycortex.Retrieval.Versions.{
  Subtree, subtree, subtree_children, join_subtrees, one_summary, one_chunk, collect_subtree_ids,
}
use tinycortex.Retrieval.Below.{
  Levelled, by_id-In, Below, Ends, walk_children-Ends, collect_descendant_chunks-Ends,
}

-- A summary is an eligible child of the node or is below one.
pub data Under (es : List SummaryNode) : SummaryNode → Text → Type 0 where
  summary : (n m : SummaryNode) (c : Text) → In c n.child_ids → by_id es c ≡ some m → Under es n c
  lower :
      (n m : SummaryNode) (k c : Text)
      → In k n.child_ids
      → by_id es k ≡ some m
      → Under es m c
      → Under es n c

abbrev part : (Subtree → List Text) → Option Subtree → Option (List Text)
part p none = none
part p (some x) = some (p x)

-- The summaries of a subtree, by a walk of their own.
summaries : ℕ → List SummaryNode → SummaryNode → Option (List Text)
summaries zero es n = none
summaries (suc fuel) es n =
    walk_children
      (λ k. elim (by_id es k) [
        | none ↦ some []
        | some m ↦ join_walks (some (k ∷ [])) (summaries fuel es m)
      ])
      n.child_ids

part-join :
    (a b : Option Subtree)
    → (part (λ x. x.summary_ids) (join_subtrees a b)
        ≡ join_walks (part (λ x. x.summary_ids) a) (part (λ x. x.summary_ids) b))
      × (part (λ x. x.chunk_ids) (join_subtrees a b)
          ≡ join_walks (part (λ x. x.chunk_ids) a) (part (λ x. x.chunk_ids) b))
unfolding join_subtrees join_walks
part-join none b = (refl, refl)
part-join (some x) none = (refl, refl)
part-join (some x) (some y) = (refl, refl)

part-children :
    (f : Text → Option Subtree) (g h : Text → Option (List Text)) (ks : List Text)
    → ((k : Text) → (part (λ x. x.summary_ids) (f k) ≡ g k) × (part (λ x. x.chunk_ids) (f k) ≡ h k))
    → (part (λ x. x.summary_ids) (subtree_children f ks) ≡ walk_children g ks)
      × (part (λ x. x.chunk_ids) (subtree_children f ks) ≡ walk_children h ks)
unfolding subtree_children walk_children
part-children f g h [] e = (refl, refl)
part-children f g h (k ∷ ks) e =
    let (a, b) = part-join (f k) (subtree_children f ks) in
    let (c, d) = e k in
    let (x, y) = part-children f g h ks e in (a ∙ (rw (c, x) refl), b ∙ (rw (d, y) refl))

empty-join : (o : Option (List Text)) → join_walks (some []) o ≡ o
unfolding join_walks
empty-join none = refl
empty-join (some x) = refl

part-subtree :
    (fuel : ℕ) (es : List SummaryNode) (n : SummaryNode)
    → (part (λ x. x.summary_ids) (subtree fuel es n) ≡ summaries fuel es n)
      × (part (λ x. x.chunk_ids) (subtree fuel es n) ≡ collect fuel es n)
unfolding subtree summaries collect
part-subtree zero es n = (refl, refl)
part-subtree (suc fuel) es n =
    part-children _ _ _ n.child_ids (λ k. go k (λ m. part-subtree fuel es m) (by_id es k))
  where
    go :
        (k : Text)
        → ((m : SummaryNode)
            → (part (λ x. x.summary_ids) (subtree fuel es m) ≡ summaries fuel es m)
              × (part (λ x. x.chunk_ids) (subtree fuel es m) ≡ collect fuel es m))
        → (o : Option SummaryNode)
        → (part
              (λ x. x.summary_ids)
              (elim o [
                | none ↦ one_chunk k
                | some m ↦ join_subtrees (one_summary k) (subtree fuel es m)
              ])
            ≡ elim o [ none ↦ some [] | some m ↦ join_walks (some (k ∷ [])) (summaries fuel es m) ])
          × (part
                (λ x. x.chunk_ids)
                (elim o [
                  | none ↦ one_chunk k
                  | some m ↦ join_subtrees (one_summary k) (subtree fuel es m)
                ])
              ≡ elim o [ none ↦ some (k ∷ []) | some m ↦ collect fuel es m ])
    go k ih none = (refl, refl)
    go k ih (some m) =
        let (a, b) = part-join (one_summary k) (subtree fuel es m) in
        let (c, d) = ih m in
        (
          a ∙ ap (λ z. join_walks (some (k ∷ [])) z) c,
          b ∙ empty-join (part (λ x. x.chunk_ids) (subtree fuel es m)) ∙ d,
        )

abbrev OfSummary : List SummaryNode → Text → Text → Type 0
OfSummary es k c = (m : SummaryNode) × (by_id es k ≡ some m) × ((c ≡ k) ⊎ Under es m c)

Under-child :
    (es : List SummaryNode) (n : SummaryNode) (c : Text)
    → Under es n c
    → (k : Text) × In k n.child_ids × OfSummary es k c
Under-child es _ _ (summary n m c j e) = (c, j, (m, e, inl refl))
Under-child es _ _ (lower n m k c j e u) = (k, j, (m, e, inr u))

summaries-Ends :
    (es : List SummaryNode)
    → Levelled es
    → (fuel : ℕ) (n : SummaryNode) → In n es
    → n.level < fuel
    → Ends (Under es n) (summaries fuel es n)
unfolding summaries
summaries-Ends es lv zero n i h = ground (arith, h)
summaries-Ends es lv (suc fuel) n i h =
    let (xs, e, a) =
      walk_children-Ends (OfSummary es) _ n.child_ids
        (λ k j. go k j (λ m. summaries-Ends es lv fuel m) (by_id es k) refl) in
    (xs, e, λ c. ((λ m. under c ((a c).0 m)), λ b. (a c).1 (Under-child es n c b)))
  where
    node_or : SummaryNode → Option SummaryNode → SummaryNode
    node_or d none = d
    node_or d (some x) = x

    go :
        (k : Text)
        → In k n.child_ids
        → ((m : SummaryNode) → In m es → m.level < fuel → Ends (Under es m) (summaries fuel es m))
        → (o : Option SummaryNode) → by_id es k ≡ o
        → Ends
            (OfSummary es k)
            (elim o [ none ↦ some [] | some m ↦ join_walks (some (k ∷ [])) (summaries fuel es m) ])
    go k j ih none e = ([], refl, λ c. ((λ m. elim m [ ]), λ x. ground (arith, sym e ∙ x.1)))
    go k j ih (some m) e =
        let (xs, d, a) = ih m (by_id-In es k m e) (omega (arith, h, lv n m k i j e)) in
        (
          k ∷ xs,
          (unfold join_walks in rw d refl),
          λ c. (
            (λ z. elim z [ inl p ↦ (m, e, inl p) | inr q ↦ (m, e, inr ((a c).0 q)) ]),
            λ (m', q, b). elim b [
              | inl p ↦ inl p
              | inr u ↦ inr ((a c).1 (subst (λ y. Under es y c) (ap (node_or m) (sym q ∙ e)) u))
            ],
          ),
        )

    under : (c : Text) → (k : Text) × In k n.child_ids × OfSummary es k c → Under es n c
    under c (k, j, (m, e, inl p)) = subst (Under es n) (sym p) (summary n m k j e)
    under c (k, j, (m, e, inr u)) = lower n m k c j e u

-- The code's walk below a summary ends with exactly the summaries and the chunks below it.
pub collect_subtree_ids-Ends :
    (es : List SummaryNode)
    → Levelled es
    → (n : SummaryNode) → In n es
    → (x : Subtree) × (collect_subtree_ids es n ≡ some x)
      × ((i : Text) → In i x.summary_ids ↔ Under es n i)
      × ((c : Text) → In c x.chunk_ids ↔ Below es n c)
unfolding collect_subtree_ids collect_descendant_chunks
collect_subtree_ids-Ends es lv n i =
    let (ss, e, a) = summaries-Ends es lv (suc n.level) n i (omega arith) in
    let (cs, d, b) = collect_descendant_chunks-Ends es lv n i in
    let (p, q) = part-subtree (suc n.level) es n in
    go (subtree (suc n.level) es n) ss cs (p ∙ e) (q ∙ d) a b
  where
    list_or : List Text → Option (List Text) → List Text
    list_or d none = d
    list_or d (some x) = x

    go :
        (o : Option Subtree) (ss cs : List Text)
        → part (λ x. x.summary_ids) o ≡ some ss
        → part (λ x. x.chunk_ids) o ≡ some cs
        → ((j : Text) → In j ss ↔ Under es n j)
        → ((c : Text) → In c cs ↔ Below es n c)
        → (x : Subtree) × (o ≡ some x)
          × ((j : Text) → In j x.summary_ids ↔ Under es n j)
          × ((c : Text) → In c x.chunk_ids ↔ Below es n c)
    go none ss cs e d a b = ground (arith, e)
    go (some x) ss cs e d a b = (
      x,
      refl,
      subst (λ z. (j : Text) → In j z ↔ Under es n j) (sym (ap (list_or ss) e)) a,
      subst (λ z. (c : Text) → In c z ↔ Below es n c) (sym (ap (list_or cs) d)) b,
    )
