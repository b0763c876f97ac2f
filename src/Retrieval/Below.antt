-- ===== src/Retrieval/Below.antt =====
-- The chunks below a summary, and that `collect_descendant_chunks` of memory/retrieval/cover.rs finds them.
use tinycortex.Base.{
  ◌<◌, ◌≡◌, ◌↔◌, ◌∷◌, ◌++◌, if◌then◌else◌, [], List, Text, In, none, some, arith, same_text, Option,
  Bool, true, inl, sym, ap, false, inr, refl, In-append, In-append_left, subst, In-append_right,
  ◌∙◌, ◌⊎◌, ℕ, zero, suc,
}
use tinycortex.Retrieval.Cover.{
  SummaryNode, by_id, join_walks, walk_children, collect, collect_descendant_chunks,
}

-- A chunk is a child of the node or is below a child that is an eligible summary.
pub data Below (es : List SummaryNode) : SummaryNode → Text → Type 0 where
  child : (n : SummaryNode) (c : Text) → In c n.child_ids → by_id es c ≡ none → Below es n c
  deeper :
      (n m : SummaryNode) (k c : Text)
      → In k n.child_ids
      → by_id es k ≡ some m
      → Below es m c
      → Below es n c

-- The eligible children of a node have lower levels.
abbrev pub Levelled : List SummaryNode → Type 0
Levelled es =
    (n m : SummaryNode) (k : Text)
    → In n es
    → In k n.child_ids
    → by_id es k ≡ some m
    → m.level < n.level

pub by_id-In : (es : List SummaryNode) (k : Text) (m : SummaryNode) → by_id es k ≡ some m → In m es
unfolding by_id
by_id-In [] k m e = ground (arith, e)
by_id-In (n ∷ ns) k m e = go (same_text n.id k) e (by_id-In ns k m)
  where
    node_or : SummaryNode → Option SummaryNode → SummaryNode
    node_or d none = d
    node_or d (some x) = x

    go :
        (b : Bool)
        → (if b then some n else by_id ns k) ≡ some m
        → (by_id ns k ≡ some m → In m ns)
        → In m (n ∷ ns)
    go true e ih = inl (sym (ap (node_or n) e))
    go false e ih = inr (ih e)

-- A walk that ends with exactly the texts of a predicate.
abbrev pub Ends : (Text → Type 0) → Option (List Text) → Type 0
Ends P o = (xs : List Text) × (o ≡ some xs) × ((c : Text) → In c xs ↔ P c)

abbrev pub AnyChild : (Text → Text → Type 0) → List Text → Text → Type 0
AnyChild P ks c = (k : Text) × In k ks × P k c

join_walks_lem :
    (o r : Option (List Text)) (xs ys : List Text)
    → o ≡ some xs
    → r ≡ some ys
    → join_walks o r ≡ some (xs ++ ys)
unfolding join_walks
join_walks_lem o r xs ys e e' = rw (e, e') refl

pub walk_children-Ends :
    (P : Text → Text → Type 0) (f : Text → Option (List Text)) (ks : List Text)
    → ((k : Text) → In k ks → Ends (P k) (f k))
    → Ends (AnyChild P ks) (walk_children f ks)
unfolding walk_children
walk_children-Ends P f [] h = ([], refl, λ c. ((λ m. elim m [ ]), λ x. elim x.1 [ ]))
walk_children-Ends P f (k ∷ ks) h =
    let (xs, e, a) = h k (inl refl) in
    let (ys, e', b) = walk_children-Ends P f ks (λ j m. h j (inr m)) in
    (
      xs ++ ys,
      join_walks_lem (f k) (walk_children f ks) xs ys e e',
      λ c. (to xs ys a b c, from xs ys a b c),
    )
  where
    to :
        (xs ys : List Text)
        → ((c : Text) → In c xs ↔ P k c)
        → ((c : Text) → In c ys ↔ AnyChild P ks c)
        → (c : Text) → In c (xs ++ ys)
        → AnyChild P (k ∷ ks) c
    to xs ys a b c m = elim (In-append c xs ys m) [
      | inl l ↦ (k, inl refl, (a c).0 l)
      | inr r ↦ let (j, n, p) = (b c).0 r in (j, inr n, p)
    ]

    from :
        (xs ys : List Text)
        → ((c : Text) → In c xs ↔ P k c)
        → ((c : Text) → In c ys ↔ AnyChild P ks c)
        → (c : Text) → AnyChild P (k ∷ ks) c
        → In c (xs ++ ys)
    from xs ys a b c (j, inl e, p) = In-append_left c xs ys ((a c).1 (subst (λ z. P z c) e p))
    from xs ys a b c (j, inr n, p) = In-append_right c xs ys ((b c).1 (j, n, p))

-- How a chunk is reached through one child.
abbrev OfChild : List SummaryNode → Text → Text → Type 0
OfChild es k c =
    ((by_id es k ≡ none) × (c ≡ k)) ⊎ ((m : SummaryNode) × (by_id es k ≡ some m) × Below es m c)

Below-child :
    (es : List SummaryNode) (n : SummaryNode) (c : Text)
    → Below es n c
    → (k : Text) × In k n.child_ids × OfChild es k c
Below-child es _ _ (child n c j e) = (c, j, inl (e, refl))
Below-child es _ _ (deeper n m k c j e b) = (k, j, inr (m, e, b))

-- On enough fuel, the walk below an eligible node ends with the chunks below it.
collect-Ends :
    (es : List SummaryNode)
    → Levelled es
    → (fuel : ℕ) (n : SummaryNode) → In n es
    → n.level < fuel
    → Ends (Below es n) (collect fuel es n)
unfolding collect
collect-Ends es lv zero n i h = ground (arith, h)
collect-Ends es lv (suc fuel) n i h =
    let (xs, e, a) =
      walk_children-Ends (OfChild es)
        (λ k. elim (by_id es k) [ none ↦ some (k ∷ []) | some m ↦ collect fuel es m ]) n.child_ids
        (λ k j. go k j (λ m. collect-Ends es lv fuel m) (by_id es k) refl) in
    (xs, e, λ c. ((λ m. below c ((a c).0 m)), λ b. (a c).1 (Below-child es n c b)))
  where
    node_or : SummaryNode → Option SummaryNode → SummaryNode
    node_or d none = d
    node_or d (some x) = x

    go :
        (k : Text)
        → In k n.child_ids
        → ((m : SummaryNode) → In m es → m.level < fuel → Ends (Below es m) (collect fuel es m))
        → (o : Option SummaryNode) → by_id es k ≡ o
        → Ends (OfChild es k) (elim o [ none ↦ some (k ∷ []) | some m ↦ collect fuel es m ])
    go k j ih none e = (
      k ∷ [],
      refl,
      λ c. (
        (λ m. elim m [ inl p ↦ inl (e, p) | inr q ↦ elim q [ ] ]),
        λ x. elim x [ inl p ↦ inl p.1 | inr (m, q, b) ↦ ground (arith, sym e ∙ q) ],
      ),
    )
    go k j ih (some m) e =
        let (xs, d, a) = ih m (by_id-In es k m e) (omega (arith, h, lv n m k i j e)) in
        (
          xs,
          d,
          λ c. (
            (λ z. inr (m, e, (a c).0 z)),
            λ x. elim x [
              | inl p ↦ ground (arith, sym e ∙ p.0)
              | inr (m', q, b) ↦ (a c).1 (subst (λ y. Below es y c) (ap (node_or m) (sym q ∙ e)) b)
            ],
          ),
        )

    below : (c : Text) → (k : Text) × In k n.child_ids × OfChild es k c → Below es n c
    below c (k, j, inl (e, p)) = subst (Below es n) (sym p) (child n k j e)
    below c (k, j, inr (m, e, b)) = deeper n m k c j e b

-- The walk of the code ends, and finds the chunks below the node.
pub collect_descendant_chunks-Ends :
    (es : List SummaryNode)
    → Levelled es
    → (n : SummaryNode) → In n es
    → Ends (Below es n) (collect_descendant_chunks es n)
unfolding collect_descendant_chunks
collect_descendant_chunks-Ends es lv n i = collect-Ends es lv (suc n.level) n i (omega arith)
