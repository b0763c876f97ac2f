-- ===== src/Retrieval/Superseded.antt =====
-- What `filter_superseded_doc_versions` of memory/retrieval/cover.rs removes, and what it leaves.
use tinycortex.Retrieval.Subtrees.{Under, collect_subtree_ids-Ends}
use tinycortex.Retrieval.Losers.{Loser, Winners, loses-Loser, winners_after-Winners}
use tinycortex.Retrieval.Planned.{holds-In}
use tinycortex.Base.{
  ◌≡◌, ◌∙◌, ◌∷◌, ◌++◌, if◌then◌else◌, [], List, In, subst, sym, Bool, keep, In-keep, Option, some,
  refl, Text, inl, inr, arith, true, false, ap, In-append_right, ◌↔◌, not, ◌⊎◌, In-append,
  In-append_left, Bool-cases,
}
use tinycortex.Retrieval.Cover.{holds, SummaryNode}
use tinycortex.Retrieval.Versions.{
  Subtree, join_subtrees, one_summary, no_subtree, collect_subtree_ids, loses, winners_after,
  superseded, left_of,
}
use tinycortex.Retrieval.Below.{Levelled, Below}

-- A predicate holds of a node that loses, with the nodes before it.
abbrev pub SomeLoser :
    List SummaryNode → (SummaryNode → Type 0) → List SummaryNode → List SummaryNode → Type 0
SomeLoser es P before [] = ⊥
SomeLoser es P before (s ∷ ss) = (Loser es before s × P s) ⊎ SomeLoser es P (s ∷ before) ss

-- A summary is left out with a revision that loses: it is the revision or below it.
abbrev pub Dropped : List SummaryNode → Text → Type 0
Dropped es i = SomeLoser es (λ s. (i ≡ s.id) ⊎ Under es s i) [] es

-- A chunk is below a revision that loses.
abbrev pub Stale : List SummaryNode → Text → Type 0
Stale es c = SomeLoser es (λ s. Below es s c) [] es

-- The summaries and the chunks removed are those of the nodes that lose.
abbrev pub Removes :
    List SummaryNode → List SummaryNode → List SummaryNode → Option Subtree → Type 0
Removes es before ns o =
    (r : Subtree) × (o ≡ some r)
    × ((i : Text) → In i r.summary_ids ↔ SomeLoser es (λ s. (i ≡ s.id) ⊎ Under es s i) before ns)
    × ((c : Text) → In c r.chunk_ids ↔ SomeLoser es (λ s. Below es s c) before ns)

superseded-lost :
    (es before ns : List SummaryNode) (n : SummaryNode) (o : Option Subtree)
    → Levelled es
    → In n es
    → Loser es before n
    → Removes es (n ∷ before) ns o
    → Removes es before
        (n ∷ ns)
        (join_subtrees (one_summary n.id) (join_subtrees (collect_subtree_ids es n) o))
unfolding join_subtrees
superseded-lost es before ns n o lv i l (r, q, a, b) =
    let (x, e, u, v) = collect_subtree_ids-Ends es lv n i in
    (
      record {
        summary_ids = n.id ∷ (x.summary_ids ++ r.summary_ids);
        chunk_ids = x.chunk_ids ++ r.chunk_ids;
      },
      (rw (e, q) refl),
      (λ j. (
        (λ m. elim m [
          | inl p ↦ inl (l, inl p)
          | inr k ↦ elim (In-append j x.summary_ids r.summary_ids k) [
            | inl y ↦ inl (l, inr ((u j).0 y))
            | inr z ↦ inr ((a j).0 z)
          ]
        ]),
        λ m. elim m [
          | inl p ↦ elim p.1 [
            | inl d ↦ inl d
            | inr y ↦ inr (In-append_left j x.summary_ids r.summary_ids ((u j).1 y))
          ]
          | inr z ↦ inr (In-append_right j x.summary_ids r.summary_ids ((a j).1 z))
        ],
      )),
      λ c. (
        (λ m. elim (In-append c x.chunk_ids r.chunk_ids m) [
          | inl y ↦ inl (l, (v c).0 y)
          | inr z ↦ inr ((b c).0 z)
        ]),
        λ m. elim m [
          | inl p ↦ In-append_left c x.chunk_ids r.chunk_ids ((v c).1 p.1)
          | inr z ↦ In-append_right c x.chunk_ids r.chunk_ids ((b c).1 z)
        ],
      ),
    )

superseded-kept :
    (es before ns : List SummaryNode) (n : SummaryNode) (o : Option Subtree)
    → ¬ Loser es before n
    → Removes es (n ∷ before) ns o
    → Removes es before (n ∷ ns) o
superseded-kept es before ns n o l (r, q, a, b) = (
  r,
  q,
  (λ j. ((λ m. inr ((a j).0 m)), λ m. elim m [ inl p ↦ absurd (l p.0) | inr z ↦ (a j).1 z ])),
  λ c. ((λ m. inr ((b c).0 m)), λ m. elim m [ inl p ↦ absurd (l p.0) | inr z ↦ (b c).1 z ]),
)

pub superseded-Removes :
    (es : List SummaryNode)
    → Levelled es
    → (winners : List Text) (before ns : List SummaryNode) → Winners es winners before
    → ((n : SummaryNode) → In n ns → In n es)
    → Removes es before ns (superseded es winners ns)
unfolding superseded
superseded-Removes es lv winners before [] inv h =
    (no_subtree, refl, (λ i. ((λ m. m), λ m. m)), λ c. ((λ m. m), λ m. m))
superseded-Removes es lv winners before (n ∷ ns) inv h =
    go (loses es winners n) (loses-Loser es winners before n inv) (
      superseded-Removes es lv (winners_after (loses es winners n) n winners) (n ∷ before) ns
        (winners_after-Winners es winners before n inv) (λ x m. h x (inr m)))
  where
    rest : Option Subtree
    rest = superseded es (winners_after (loses es winners n) n winners) ns

    go :
        (b : Bool)
        → ((b ≡ true) ↔ Loser es before n)
        → Removes es (n ∷ before) ns rest
        → Removes es before (n ∷ ns) (
            if b
            then join_subtrees (one_summary n.id) (join_subtrees (collect_subtree_ids es n) rest)
            else rest)
    go true e k = superseded-lost es before ns n rest lv (h n (inl refl)) (e.0 refl) k
    go false e k = superseded-kept es before ns n rest (λ l. ground (arith, e.1 l)) k

pub left_of-Dropped :
    (es : List SummaryNode) (r : Subtree)
    → ((i : Text) → In i r.summary_ids ↔ Dropped es i)
    → (s : SummaryNode) → In s (left_of es r) ↔ (In s es × (¬ Dropped es s.id))
unfolding left_of
left_of-Dropped es r a s = (
  (λ m.
      let (i, kept) = In-keep (λ x. not (holds r.summary_ids x.id)) s es m in
      (i, λ d. ground (arith, ap not ((holds-In r.summary_ids s.id).1 ((a s.id).1 d)), kept))),
  λ (i, n). keep-In es i (not_held (λ m. n ((a s.id).0 m))),
)
  where
    not_held : ¬ In s.id r.summary_ids → not (holds r.summary_ids s.id) ≡ true
    not_held n = elim (Bool-cases (holds r.summary_ids s.id)) [
      | inl e ↦ absurd (n ((holds-In r.summary_ids s.id).0 e))
      | inr e ↦ ap not e
    ]

    keep-In :
        (xs : List SummaryNode)
        → In s xs
        → not (holds r.summary_ids s.id) ≡ true
        → In s (keep (λ x. not (holds r.summary_ids x.id)) xs)
    keep-In [] m e = m
    keep-In (x ∷ xs) m e = go (holds r.summary_ids x.id) refl m (λ k. keep-In xs k e)
      where
        go :
            (b : Bool)
            → holds r.summary_ids x.id ≡ b
            → In s (x ∷ xs)
            → (In s xs → In s (keep (λ y. not (holds r.summary_ids y.id)) xs))
            → In s (
                if not b
                then x ∷ keep (λ y. not (holds r.summary_ids y.id)) xs
                else keep (λ y. not (holds r.summary_ids y.id)) xs)
        go true q (inl p) f =
            ground
              (arith, sym (ap not (subst (λ z. holds r.summary_ids z.id ≡ true) (sym p) q)) ∙ e)
        go true q (inr k) f = f k
        go false q (inl p) f = inl p
        go false q (inr k) f = inr (f k)
