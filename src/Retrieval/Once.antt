-- ===== src/Retrieval/Once.antt =====
-- The hits of `cover_one_source` in memory/retrieval/cover.rs are all different.
use tinycortex.Base.{
  ◌≡◌, ◌≢◌, ◌∷◌, ◌++◌, [], ◌∙◌, ◌||◌, if◌then◌else◌, List, Pairs, Text, map, In, In-append, inl,
  inr, refl, Bool, true, false, Option, none, some, ap, sym, arith, subst, keep, same_text,
  same_text_eq,
}
use tinycortex.Retrieval.Cover.{
  SummaryNode, Hit, CoverPlan, by_id, summary_hits, chunk_hits, summary_hit, chunk_hit, plan_nodes,
  plan_node, put_node, is_maximal, may_cover, collect_descendant_chunks, holds,
}

pub by_id-eq : (es : List SummaryNode) (i : Text) (n : SummaryNode) → by_id es i ≡ some n → n.id ≡ i
unfolding by_id
by_id-eq [] i n e = ground (arith, e)
by_id-eq (m ∷ ms) i n e = go (same_text m.id i) refl e (by_id-eq ms i n)
  where
    go :
        (b : Bool)
        → same_text m.id i ≡ b
        → (if b then some m else by_id ms i) ≡ some n
        → (by_id ms i ≡ some n → n.id ≡ i)
        → n.id ≡ i
    go true d e ih = ap (λ o. elim o [ none ↦ i | some x ↦ x.id ]) (sym e) ∙ same_text_eq m.id i d
    go false d e ih = ih e

abbrev pub Distinct : {A : Type 0} → List A → Type 0
Distinct xs = Pairs (λ a b. a ≢ b) xs

abbrev pub node_ids : List SummaryNode → List Text
node_ids es = map (λ n. n.id) es

Distinct-append :
    (xs ys : List Hit)
    → Distinct xs
    → Distinct ys
    → ((x y : Hit) → In x xs → In y ys → x ≢ y)
    → Distinct (xs ++ ys)
Distinct-append [] ys u v n = v
Distinct-append (x ∷ xs) ys u v n = (
  (λ y m. elim (In-append y xs ys m) [ inl k ↦ u.0 y k | inr k ↦ n x y (inl refl) k ]),
  Distinct-append xs ys u.1 v (λ a b i j. n a b (inr i) j),
)

abbrev hit_id : Hit → Text
hit_id (summary_hit i) = i
hit_id (chunk_hit c) = c

abbrev is_summary : Hit → Bool
is_summary (summary_hit i) = true
is_summary (chunk_hit c) = false

summary_hits-In :
    (es : List SummaryNode) (ids : List Text) (h : Hit)
    → In h (summary_hits es ids)
    → (i : Text) × In i ids × (h ≡ summary_hit i)
unfolding summary_hits
summary_hits-In es [] h m = elim m [ ]
summary_hits-In es (i ∷ ids) h m = go (by_id es i) refl (summary_hits-In es ids h) m
  where
    go :
        (o : Option SummaryNode)
        → by_id es i ≡ o
        → (In h (summary_hits es ids) → (j : Text) × In j ids × (h ≡ summary_hit j))
        → In h (elim o [
          | none ↦ summary_hits es ids
          | some n ↦ summary_hit n.id ∷ summary_hits es ids
        ])
        → (j : Text) × In j (i ∷ ids) × (h ≡ summary_hit j)
    go none e ih k = let (j, a, b) = ih k in (j, inr a, b)
    go (some n) e ih (inl k) = (i, inl refl, k ∙ ap (λ y. summary_hit y) (by_id-eq es i n e))
    go (some n) e ih (inr k) = let (j, a, b) = ih k in (j, inr a, b)

summary_hits-Distinct :
    (es : List SummaryNode) (ids : List Text) → Distinct ids → Distinct (summary_hits es ids)
unfolding summary_hits
summary_hits-Distinct es [] u = tt
summary_hits-Distinct es (i ∷ ids) u = go (by_id es i) refl (summary_hits-Distinct es ids u.1)
  where
    go :
        (o : Option SummaryNode)
        → by_id es i ≡ o
        → Distinct (summary_hits es ids)
        → Distinct (elim o [
          | none ↦ summary_hits es ids
          | some n ↦ summary_hit n.id ∷ summary_hits es ids
        ])
    go none e ih = ih
    go (some n) e ih = (
      (λ y m q.
          let (j, a, b) = summary_hits-In es ids y m in
          u.0 j a (sym (by_id-eq es i n e) ∙ ap hit_id (q ∙ b))),
      ih,
    )

chunk_hits-In :
    (taken suppressed chunks : List Text) (h : Hit)
    → In h (chunk_hits taken suppressed chunks)
    → (c : Text) × In c chunks × (h ≡ chunk_hit c)
unfolding chunk_hits
chunk_hits-In taken suppressed [] h m = elim m [ ]
chunk_hits-In taken suppressed (c ∷ cs) h m =
    go (holds taken c || holds suppressed c) (chunk_hits-In taken suppressed cs h) m
  where
    go :
        (b : Bool)
        → (In h (chunk_hits taken suppressed cs) → (d : Text) × In d cs × (h ≡ chunk_hit d))
        → In h (
            if b
            then chunk_hits taken suppressed cs
            else chunk_hit c ∷ chunk_hits taken suppressed cs)
        → (d : Text) × In d (c ∷ cs) × (h ≡ chunk_hit d)
    go true ih k = let (d, a, b) = ih k in (d, inr a, b)
    go false ih (inl k) = (c, inl refl, k)
    go false ih (inr k) = let (d, a, b) = ih k in (d, inr a, b)

chunk_hits-Distinct :
    (taken suppressed chunks : List Text)
    → Distinct chunks
    → Distinct (chunk_hits taken suppressed chunks)
unfolding chunk_hits
chunk_hits-Distinct taken suppressed [] u = tt
chunk_hits-Distinct taken suppressed (c ∷ cs) u =
    go (holds taken c || holds suppressed c) (chunk_hits-Distinct taken suppressed cs u.1)
  where
    go :
        (b : Bool)
        → Distinct (chunk_hits taken suppressed cs)
        → Distinct (
            if b
            then chunk_hits taken suppressed cs
            else chunk_hit c ∷ chunk_hits taken suppressed cs)
    go true ih = ih
    go false ih = (
      (λ y m q.
          let (d, a, b) = chunk_hits-In taken suppressed cs y m in u.0 d a (ap hit_id (q ∙ b))),
      ih,
    )

-- The hits of a plan.
pub shown-Distinct :
    (es : List SummaryNode) (p : CoverPlan) (suppressed chunks : List Text)
    → Distinct p.maximal_ids
    → Distinct chunks
    → Distinct (summary_hits es p.maximal_ids ++ chunk_hits p.covered_chunk_ids suppressed chunks)
shown-Distinct es p suppressed chunks u v =
    Distinct-append (summary_hits es p.maximal_ids)
      (chunk_hits p.covered_chunk_ids suppressed chunks) (summary_hits-Distinct es p.maximal_ids u)
      (chunk_hits-Distinct p.covered_chunk_ids suppressed chunks v)
      (λ x y i j q.
        let (a, b, c) = summary_hits-In es p.maximal_ids x i in
        let (d, e, f) = chunk_hits-In p.covered_chunk_ids suppressed chunks y j in
        ground (arith, ap is_summary (sym c ∙ q ∙ f)))

-- The ids of a plan are among those of its nodes, and differ if theirs do.
abbrev pub Among : List SummaryNode → Option CoverPlan → Type 0
Among ns o =
    (p : CoverPlan)
    → o ≡ some p
    → Distinct (node_ids ns)
    → Distinct p.maximal_ids × ((i : Text) → In i p.maximal_ids → In i (node_ids ns))

plan_or : CoverPlan → Option CoverPlan → CoverPlan
plan_or d none = d
plan_or d (some p) = p

skip-Among :
    (n : SummaryNode) (ns : List SummaryNode) (o : Option CoverPlan) → Among ns o → Among (n ∷ ns) o
skip-Among n ns o h p e u = let (a, b) = h p e u.1 in (a, λ i m. inr (b i m))

node-Among :
    (present : Option (List Text)) (n : SummaryNode) (ns : List SummaryNode)
    (sub : Option (List Text)) (o : Option CoverPlan)
    → Among ns o
    → Among (n ∷ ns) (plan_node present n.id sub o)
unfolding plan_node put_node plan_or
node-Among present n ns none o h p e u = ground (arith, e)
node-Among present n ns (some sub) none h p e u = ground (arith, e)
node-Among present n ns (some sub) (some p') h p e u = go (may_cover present sub) (h p' refl u.1) e
  where
    go :
        (b : Bool)
        → Distinct p'.maximal_ids × ((i : Text) → In i p'.maximal_ids → In i (node_ids ns))
        → some (put_node b n.id sub p') ≡ some p
        → Distinct p.maximal_ids × ((i : Text) → In i p.maximal_ids → In i (node_ids (n ∷ ns)))
    go true (a, b) q =
        subst
          (λ z.
            Distinct z.maximal_ids × ((i : Text) → In i z.maximal_ids → In i (node_ids (n ∷ ns))))
          (ap (plan_or p) q)
          (((λ y m. u.0 y (b y m)), a), λ i m. elim m [ inl k ↦ inl k | inr k ↦ inr (b i k) ])
    go false (a, b) q =
        subst
          (λ z.
            Distinct z.maximal_ids × ((i : Text) → In i z.maximal_ids → In i (node_ids (n ∷ ns))))
          (ap (plan_or p) q) (a, λ i m. inr (b i m))

pub plan_nodes-Among :
    (es : List SummaryNode) (present : Option (List Text)) (ns : List SummaryNode)
    → Among ns (plan_nodes es present ns)
unfolding plan_nodes plan_or
plan_nodes-Among es present [] p e u =
    subst (λ z. Distinct z.maximal_ids × ((i : Text) → In i z.maximal_ids → In i (node_ids [])))
      (ap (plan_or p) e) (tt, λ i m. m)
plan_nodes-Among es present (n ∷ ns) p e u =
    go (is_maximal es n) (plan_nodes-Among es present ns) p e u
  where
    go :
        (b : Bool)
        → Among ns (plan_nodes es present ns)
        → Among (n ∷ ns) (
            if b
            then plan_node present n.id (collect_descendant_chunks es n) (plan_nodes es present ns)
            else plan_nodes es present ns)
    go true h =
        node-Among present n ns (collect_descendant_chunks es n) (plan_nodes es present ns) h
    go false h = skip-Among n ns (plan_nodes es present ns) h

pub keep-node_ids :
    (p : SummaryNode → Bool) (es : List SummaryNode)
    → Distinct (node_ids es)
    → Distinct (node_ids (keep p es))
      × ((i : Text) → In i (node_ids (keep p es)) → In i (node_ids es))
keep-node_ids p [] u = (tt, λ i m. m)
keep-node_ids p (x ∷ xs) u = go (p x) (keep-node_ids p xs u.1)
  where
    go :
        (b : Bool)
        → Distinct (node_ids (keep p xs))
          × ((i : Text) → In i (node_ids (keep p xs)) → In i (node_ids xs))
        → Distinct (node_ids (if b then x ∷ keep p xs else keep p xs))
          × ((i : Text)
              → In i (node_ids (if b then x ∷ keep p xs else keep p xs))
              → In i (node_ids (x ∷ xs)))
    go true (a, b) =
        (((λ y m. u.0 y (b y m)), a), λ i m. elim m [ inl k ↦ inl k | inr k ↦ inr (b i k) ])
    go false (a, b) = (a, λ i m. inr (b i m))
