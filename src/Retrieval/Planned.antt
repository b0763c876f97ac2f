-- ===== src/Retrieval/Planned.antt =====
-- What the cover of memory/retrieval/cover.rs shows of one source.
use tinycortex.Base.{
  ◌≡◌, ◌∙◌, ◌↔◌, ◌&&◌, ◌||◌, ◌∷◌, [], List, Text, true, In, arith, same_text, refl, Bool, inl,
  same_text_eq, false, inr, sym, same_text_refl, ap, subst, Option, none, some, ◌⊎◌, ◌++◌,
  if◌then◌else◌, In-append, In-append_left, In-append_right,
}
use tinycortex.Retrieval.Cover.{
  SummaryNode, CoverPlan, holds, is_maximal, all_held, may_cover, plan_node, put_node, plan_nodes,
  collect_descendant_chunks,
}
use tinycortex.Retrieval.Below.{Below, Levelled, collect_descendant_chunks-Ends}

pub holds-In : (xs : List Text) (x : Text) → (holds xs x ≡ true) ↔ In x xs
holds-In [] x = ((λ e. ground (arith, e)), λ m. elim m [ ])
holds-In (y ∷ ys) x =
    (to (same_text x y) refl (holds-In ys x), from (same_text x y) refl (holds-In ys x))
  where
    to :
        (b : Bool)
        → same_text x y ≡ b
        → ((holds ys x ≡ true) ↔ In x ys)
        → b || holds ys x ≡ true
        → In x (y ∷ ys)
    to true e ih h = inl (same_text_eq x y e)
    to false e ih h = inr (ih.0 h)

    from :
        (b : Bool)
        → same_text x y ≡ b
        → ((holds ys x ≡ true) ↔ In x ys)
        → In x (y ∷ ys)
        → b || holds ys x ≡ true
    from true e ih m = refl
    from false e ih (inl p) = ground (arith, sym (same_text_refl x) ∙ ap (same_text x) p ∙ e)
    from false e ih (inr m) = ih.1 m

all_held-In : (pr xs : List Text) → (all_held pr xs ≡ true) ↔ ((c : Text) → In c xs → In c pr)
all_held-In pr [] = ((λ e c m. elim m [ ]), λ h. refl)
all_held-In pr (x ∷ xs) =
    (to (all_held-In pr xs).0 (holds pr x) refl, from (all_held-In pr xs).1 (holds pr x) refl)
  where
    to :
        (all_held pr xs ≡ true → (c : Text) → In c xs → In c pr)
        → (b : Bool) → holds pr x ≡ b
        → b && all_held pr xs ≡ true
        → (c : Text) → In c (x ∷ xs)
        → In c pr
    to ih false e h c m = ground (arith, h)
    to ih true e h c (inl p) = subst (λ z. In z pr) (sym p) ((holds-In pr x).0 e)
    to ih true e h c (inr m) = ih h c m

    from :
        (((c : Text) → In c xs → In c pr) → all_held pr xs ≡ true)
        → (b : Bool) → holds pr x ≡ b
        → ((c : Text) → In c (x ∷ xs) → In c pr)
        → b && all_held pr xs ≡ true
    from ih true e h = ih (λ c m. h c (inr m))
    from ih false e h = ground (arith, sym ((holds-In pr x).1 (h x (inl refl))) ∙ e)

-- The chunks below a summary are all present, where the cover is restricted to some.
abbrev pub Allowed : List SummaryNode → Option (List Text) → SummaryNode → Type 0
Allowed es none n = Unit
Allowed es (some pr) n = (c : Text) → Below es n c → In c pr

-- A summary that stands in for its subtree: its parent is not eligible, and it is allowed.
abbrev pub Chosen : List SummaryNode → Option (List Text) → SummaryNode → Type 0
Chosen es pr n = (is_maximal es n ≡ true) × Allowed es pr n

may_cover-Allowed :
    (es : List SummaryNode) (pr : Option (List Text)) (n : SummaryNode) (sub : List Text)
    → ((c : Text) → In c sub ↔ Below es n c)
    → (may_cover pr sub ≡ true) ↔ Allowed es pr n
unfolding may_cover
may_cover-Allowed es none n sub h = ((λ e. tt), λ a. refl)
may_cover-Allowed es (some pr) n sub h = (
  (λ e c b. (all_held-In pr sub).0 e c ((h c).1 b)),
  λ a. (all_held-In pr sub).1 (λ c m. a c ((h c).0 m)),
)

-- The chunks and the ids of a plan are those of the chosen nodes of a list.
abbrev pub Plans : List SummaryNode → Option (List Text) → List SummaryNode → CoverPlan → Type 0
Plans es pr ns p =
    ((c : Text)
      → In c p.covered_chunk_ids ↔ ((n : SummaryNode) × In n ns × Chosen es pr n × Below es n c))
    × ((i : Text)
        → In i p.maximal_ids ↔ ((n : SummaryNode) × In n ns × Chosen es pr n × (i ≡ n.id)))

Plans-skip :
    (es : List SummaryNode) (pr : Option (List Text)) (n : SummaryNode) (ns : List SummaryNode)
    (p : CoverPlan)
    → ¬ Chosen es pr n
    → Plans es pr ns p
    → Plans es pr (n ∷ ns) p
Plans-skip es pr n ns p unchosen (a, b) = (
  λ c. ((λ m. let (x, i, k, w) = (a c).0 m in (x, inr i, k, w)), λ x. drop_chunk c x),
  λ j. ((λ m. let (x, i, k, w) = (b j).0 m in (x, inr i, k, w)), λ x. drop_id j x),
)
  where
    drop_chunk :
        (c : Text)
        → (x : SummaryNode) × In x (n ∷ ns) × Chosen es pr x × Below es x c
        → In c p.covered_chunk_ids
    drop_chunk c (x, inl e, k, w) = absurd (unchosen (subst (Chosen es pr) e k))
    drop_chunk c (x, inr i, k, w) = (a c).1 (x, i, k, w)

    drop_id :
        (j : Text)
        → (x : SummaryNode) × In x (n ∷ ns) × Chosen es pr x × (j ≡ x.id)
        → In j p.maximal_ids
    drop_id j (x, inl e, k, w) = absurd (unchosen (subst (Chosen es pr) e k))
    drop_id j (x, inr i, k, w) = (b j).1 (x, i, k, w)

Plans-put :
    (es : List SummaryNode) (pr : Option (List Text)) (n : SummaryNode) (ns : List SummaryNode)
    (p : CoverPlan) (sub : List Text)
    → Chosen es pr n
    → ((c : Text) → In c sub ↔ Below es n c)
    → Plans es pr ns p
    → Plans es pr (n ∷ ns) (record {
      maximal_ids = n.id ∷ p.maximal_ids;
      covered_chunk_ids = sub ++ p.covered_chunk_ids;
    })
Plans-put es pr n ns p sub chosen h (a, b) = (
  λ c. ((λ m. chunk_to c (In-append c sub p.covered_chunk_ids m)), λ x. chunk_from c x),
  λ j. ((λ m. id_to j m), λ x. id_from j x),
)
  where
    chunk_to :
        (c : Text)
        → In c sub ⊎ In c p.covered_chunk_ids
        → (x : SummaryNode) × In x (n ∷ ns) × Chosen es pr x × Below es x c
    chunk_to c (inl m) = (n, inl refl, chosen, (h c).0 m)
    chunk_to c (inr m) = let (x, i, k, w) = (a c).0 m in (x, inr i, k, w)

    chunk_from :
        (c : Text)
        → (x : SummaryNode) × In x (n ∷ ns) × Chosen es pr x × Below es x c
        → In c (sub ++ p.covered_chunk_ids)
    chunk_from c (x, inl e, k, w) =
        In-append_left c sub p.covered_chunk_ids ((h c).1 (subst (λ y. Below es y c) e w))
    chunk_from c (x, inr i, k, w) = In-append_right c sub p.covered_chunk_ids ((a c).1 (x, i, k, w))

    id_to :
        (j : Text)
        → (j ≡ n.id) ⊎ In j p.maximal_ids
        → (x : SummaryNode) × In x (n ∷ ns) × Chosen es pr x × (j ≡ x.id)
    id_to j (inl e) = (n, inl refl, chosen, e)
    id_to j (inr m) = let (x, i, k, w) = (b j).0 m in (x, inr i, k, w)

    id_from :
        (j : Text)
        → (x : SummaryNode) × In x (n ∷ ns) × Chosen es pr x × (j ≡ x.id)
        → In j (n.id ∷ p.maximal_ids)
    id_from j (x, inl e, k, w) = inl (w ∙ ap (λ y. y.id) e)
    id_from j (x, inr i, k, w) = inr ((b j).1 (x, i, k, w))

node_lem :
    (es : List SummaryNode) (pr : Option (List Text)) (n : SummaryNode) (ns : List SummaryNode)
    (p : CoverPlan) (sub : List Text)
    → is_maximal es n ≡ true
    → ((c : Text) → In c sub ↔ Below es n c)
    → Plans es pr ns p
    → (r : CoverPlan) × (plan_node pr n.id (some sub) (some p) ≡ some r) × Plans es pr (n ∷ ns) r
unfolding plan_node put_node
node_lem es pr n ns p sub e s w = go (may_cover pr sub) refl
  where
    go :
        (b : Bool)
        → may_cover pr sub ≡ b
        → (r : CoverPlan) × (some (put_node b n.id sub p) ≡ some r) × Plans es pr (n ∷ ns) r
    go true d = (
      put_node true n.id sub p,
      refl,
      Plans-put es pr n ns p sub (e, (may_cover-Allowed es pr n sub s).0 d) s w,
    )
    go false d = (
      p,
      refl,
      Plans-skip es pr n ns p
          (λ k. ground (arith, sym ((may_cover-Allowed es pr n sub s).1 k.1) ∙ d)) w,
    )

pub plan_nodes-Plans :
    (es : List SummaryNode) (pr : Option (List Text))
    → Levelled es
    → (ns : List SummaryNode) → ((n : SummaryNode) → In n ns → In n es)
    → (p : CoverPlan) × (plan_nodes es pr ns ≡ some p) × Plans es pr ns p
unfolding plan_nodes
plan_nodes-Plans es pr lv [] h = (
  record { maximal_ids = []; covered_chunk_ids = [] },
  refl,
  ((λ c. ((λ m. elim m [ ]), λ x. elim x.1 [ ])), λ j. ((λ m. elim m [ ]), λ x. elim x.1 [ ])),
)
plan_nodes-Plans es pr lv (n ∷ ns) h =
    go (is_maximal es n) refl (plan_nodes-Plans es pr lv ns (λ x m. h x (inr m)))
  where
    Goal : Option CoverPlan → Type 0
    Goal o = (p : CoverPlan) × (o ≡ some p) × Plans es pr (n ∷ ns) p

    go :
        (b : Bool)
        → is_maximal es n ≡ b
        → (p : CoverPlan) × (plan_nodes es pr ns ≡ some p) × Plans es pr ns p
        → Goal (
            if b
            then plan_node pr n.id (collect_descendant_chunks es n) (plan_nodes es pr ns)
            else plan_nodes es pr ns)
    go false e (p, q, w) = (p, q, Plans-skip es pr n ns p (λ k. ground (arith, sym k.0 ∙ e)) w)
    go true e (p, q, w) =
        let (sub, d, s) = collect_descendant_chunks-Ends es lv n (h n (inl refl)) in
        let (r, f, x) = node_lem es pr n ns p sub e s w in (r, (rw (d, q) f), x)
