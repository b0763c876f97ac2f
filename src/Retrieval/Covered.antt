-- ===== src/Retrieval/Covered.antt =====
-- The hits of `cover_one_source` in memory/retrieval/cover.rs.
use tinycortex.Retrieval.Below.{Levelled, Below}
use tinycortex.Base.{
  ◌≡◌, ◌∙◌, ◌↔◌, ◌⊎◌, ◌||◌, ◌∷◌, if◌then◌else◌, [], Bool, true, false, Text, List, some, arith,
  same_text, refl, ap, none, sym, In, inl, same_text_refl, inr, Option, subst, ◌++◌, In-append,
  In-append_right, In-append_left,
}
use tinycortex.Retrieval.Cover.{
  SummaryNode, Hit, holds, by_id, summary_hits, chunk_hits, summary_hit, chunk_hit, cover_left,
  plan_cover, CoverPlan,
}
use tinycortex.Retrieval.Once.{by_id-eq, Distinct, node_ids, shown-Distinct, plan_nodes-Among}
use tinycortex.Retrieval.Planned.{holds-In, Chosen, plan_nodes-Plans, Plans}

abbrev is_summary : Hit → Bool
is_summary (summary_hit i) = true
is_summary (chunk_hit c) = false

abbrev hit_id : Hit → Text
hit_id (summary_hit i) = i
hit_id (chunk_hit c) = c

by_id-found :
    (es : List SummaryNode) (n : SummaryNode)
    → In n es
    → (m : SummaryNode) × (by_id es n.id ≡ some m)
unfolding by_id
by_id-found [] n i = elim i [ ]
by_id-found (m ∷ ms) n i = go (same_text m.id n.id) refl i (by_id-found ms n)
  where
    go :
        (b : Bool)
        → same_text m.id n.id ≡ b
        → (n ≡ m) ⊎ In n ms
        → (In n ms → (x : SummaryNode) × (by_id ms n.id ≡ some x))
        → (x : SummaryNode) × ((if b then some m else by_id ms n.id) ≡ some x)
    go true d i ih = (m, refl)
    go false d (inl e) ih =
        ground (arith, sym (same_text_refl n.id) ∙ ap (λ y. same_text y.id n.id) e ∙ d)
    go false d (inr j) ih = ih j

-- The hits of ids that are all eligible are exactly those ids.
summary_hits_lem :
    (es : List SummaryNode) (ids : List Text)
    → ((i : Text) → In i ids → (m : SummaryNode) × (by_id es i ≡ some m))
    → (h : Hit) → In h (summary_hits es ids) ↔ ((i : Text) × In i ids × (h ≡ summary_hit i))
unfolding summary_hits
summary_hits_lem es [] f h = ((λ m. elim m [ ]), λ x. elim x.1 [ ])
summary_hits_lem es (i ∷ ids) f h =
    go (by_id es i) refl (f i (inl refl)) (summary_hits_lem es ids (λ j m. f j (inr m)) h)
  where
    Goal : List Hit → Type 0
    Goal hs = In h hs ↔ ((j : Text) × In j (i ∷ ids) × (h ≡ summary_hit j))

    go :
        (o : Option SummaryNode)
        → by_id es i ≡ o
        → (m : SummaryNode) × (by_id es i ≡ some m)
        → In h (summary_hits es ids) ↔ ((j : Text) × In j ids × (h ≡ summary_hit j))
        → Goal (elim o [
          | none ↦ summary_hits es ids
          | some n ↦ summary_hit n.id ∷ summary_hits es ids
        ])
    go none e (m, q) ih = ground (arith, sym e ∙ q)
    go (some n) e q ih = (
      (λ x. elim x [
        | inl d ↦ (i, inl refl, d ∙ ap (λ y. summary_hit y) (by_id-eq es i n e))
        | inr r ↦ let (j, k, d) = ih.0 r in (j, inr k, d)
      ]),
      back,
    )
      where
        back :
            (j : Text) × In j (i ∷ ids) × (h ≡ summary_hit j)
            → In h (summary_hit n.id ∷ summary_hits es ids)
        back (j, inl d, e') = inl (e' ∙ ap (λ y. summary_hit y) (d ∙ sym (by_id-eq es i n e)))
        back (j, inr k, e') = inr (ih.1 (j, k, e'))

chunk_hits_lem :
    (taken suppressed chunks : List Text) (h : Hit)
    → In h (chunk_hits taken suppressed chunks)
      ↔ ((c : Text) × In c chunks × (¬ In c taken) × (¬ In c suppressed) × (h ≡ chunk_hit c))
unfolding chunk_hits
chunk_hits_lem taken suppressed [] h = ((λ m. elim m [ ]), λ x. elim x.1 [ ])
chunk_hits_lem taken suppressed (c ∷ cs) h =
    go (holds taken c) refl (holds suppressed c) refl (chunk_hits_lem taken suppressed cs h)
  where
    Goal : List Hit → List Text → Type 0
    Goal hs ds =
        In h hs ↔ ((d : Text) × In d ds × (¬ In d taken) × (¬ In d suppressed) × (h ≡ chunk_hit d))

    absent : (xs : List Text) → holds xs c ≡ false → ¬ In c xs
    absent xs e m = ground (arith, sym ((holds-In xs c).1 m) ∙ e)

    skip :
        (In c taken) ⊎ (In c suppressed)
        → Goal (chunk_hits taken suppressed cs) cs
        → Goal (chunk_hits taken suppressed cs) (c ∷ cs)
    skip m ih = ((λ x. let (d, i, a, b, e) = ih.0 x in (d, inr i, a, b, e)), back m)
      where
        back :
            (In c taken) ⊎ (In c suppressed)
            → (d : Text) × In d (c ∷ cs) × (¬ In d taken) × (¬ In d suppressed) × (h ≡ chunk_hit d)
            → In h (chunk_hits taken suppressed cs)
        back m (d, inr i, a, b, e) = ih.1 (d, i, a, b, e)
        back (inl t) (d, inl q, a, b, e) = absurd (a (subst (λ z. In z taken) (sym q) t))
        back (inr t) (d, inl q, a, b, e) = absurd (b (subst (λ z. In z suppressed) (sym q) t))

    go :
        (x : Bool)
        → holds taken c ≡ x
        → (y : Bool) → holds suppressed c ≡ y
        → Goal (chunk_hits taken suppressed cs) cs
        → Goal
            (if x || y
              then chunk_hits taken suppressed cs
              else chunk_hit c ∷ chunk_hits taken suppressed cs)
            (c ∷ cs)
    go true p y q ih = skip (inl ((holds-In taken c).0 p)) ih
    go false p true q ih = skip (inr ((holds-In suppressed c).0 q)) ih
    go false p false q ih = (
      (λ x. elim x [
        | inl d ↦ (c, inl refl, absent taken p, absent suppressed q, d)
        | inr r ↦ let (d, i, a, b, e) = ih.0 r in (d, inr i, a, b, e)
      ]),
      back,
    )
      where
        back :
            (d : Text) × In d (c ∷ cs) × (¬ In d taken) × (¬ In d suppressed) × (h ≡ chunk_hit d)
            → In h (chunk_hit c ∷ chunk_hits taken suppressed cs)
        back (d, inl i, a, b, e) = inl (e ∙ ap (λ y. chunk_hit y) i)
        back (d, inr i, a, b, e) = inr (ih.1 (d, i, a, b, e))

cover_shown :
    (es : List SummaryNode) (suppressed : List Text) (exact_source : Bool) (chunks : List Text)
    (p : CoverPlan)
    → plan_cover es (if exact_source then some chunks else none) ≡ some p
    → cover_left es suppressed exact_source chunks
      ≡ some (summary_hits es p.maximal_ids ++ chunk_hits p.covered_chunk_ids suppressed chunks)
unfolding cover_left
cover_shown es suppressed exact_source chunks p q =
    ap
      (λ o. elim o [
        | none ↦ none
        | some r ↦
            some (summary_hits es r.maximal_ids ++ chunk_hits r.covered_chunk_ids suppressed chunks)
      ])
      q

-- The cover of one source ends, and its hits differ if the ids of its summaries and its chunks do. A
-- chunk that no newer version
-- suppresses is shown as itself exactly if it is not below a summary that stands in for its
-- subtree, and those summaries are exactly the eligible ones whose parent is not eligible and, for
-- a restricted source, below which every chunk is one of the given chunks. The eligible children of
-- a summary are taken to have lower levels.
pub cover_left_lem :
    (es : List SummaryNode) (suppressed : List Text) (exact_source : Bool) (chunks : List Text)
    → Levelled es
    → let pr = if exact_source then some chunks else none in
      (hits : List Hit) × (cover_left es suppressed exact_source chunks ≡ some hits)
      × ((c : Text)
          → In (chunk_hit c) hits ↔ (
              In c chunks
              × (¬ In c suppressed)
              × (¬ ((n : SummaryNode) × In n es × Chosen es pr n × Below es n c))))
      × ((i : Text)
          → In (summary_hit i) hits ↔ ((n : SummaryNode) × In n es × Chosen es pr n × (i ≡ n.id)))
      × (Distinct (node_ids es) → Distinct chunks → Distinct hits)
unfolding plan_cover
cover_left_lem es suppressed exact_source chunks lv =
    let (p, q, w) = plan_nodes-Plans es pr lv es (λ n m. m) in
    (
      summary_hits es p.maximal_ids ++ chunk_hits p.covered_chunk_ids suppressed chunks,
      cover_shown es suppressed exact_source chunks p q,
      (λ c. (raw_to p w c, raw_from p w c)),
      (λ i. (summary_to p w i, summary_from p w i)),
      λ u v. shown-Distinct es p suppressed chunks (plan_nodes-Among es pr es p q u).0 v,
    )
  where
    pr : Option (List Text)
    pr = if exact_source then some chunks else none

    shown : CoverPlan → List Hit
    shown p = summary_hits es p.maximal_ids ++ chunk_hits p.covered_chunk_ids suppressed chunks

    eligible :
        (p : CoverPlan)
        → Plans es pr es p
        → (i : Text) → In i p.maximal_ids
        → (m : SummaryNode) × (by_id es i ≡ some m)
    eligible p w i m =
        let (n, k, c, e) = (w.1 i).0 m in
        subst (λ z. (x : SummaryNode) × (by_id es z ≡ some x)) (sym e) (by_id-found es n k)

    InSummaries : CoverPlan → Hit → Type 0
    InSummaries p h = (i : Text) × In i p.maximal_ids × (h ≡ summary_hit i)

    split :
        (p : CoverPlan)
        → Plans es pr es p
        → (h : Hit) → In h (shown p)
        → InSummaries p h
          ⊎ ((c : Text) × In c chunks
              × (¬ In c p.covered_chunk_ids)
              × (¬ In c suppressed)
              × (h ≡ chunk_hit c))
    split p w h m =
        elim (In-append h (summary_hits es p.maximal_ids)
          (chunk_hits p.covered_chunk_ids suppressed chunks) m) [
            | inl a ↦ inl ((summary_hits_lem es p.maximal_ids (eligible p w) h).0 a)
            | inr b ↦ inr ((chunk_hits_lem p.covered_chunk_ids suppressed chunks h).0 b)
          ]

    raw_to :
        (p : CoverPlan)
        → Plans es pr es p
        → (c : Text) → In (chunk_hit c) (shown p)
        → In c chunks
          × (¬ In c suppressed)
          × (¬ ((n : SummaryNode) × In n es × Chosen es pr n × Below es n c))
    raw_to p w c m = elim (split p w (chunk_hit c) m) [
      | inl (i, k, e) ↦ ground (arith, ap is_summary e)
      | inr (d, k, a, b, e) ↦ (
        subst (λ z. In z chunks) (sym (ap hit_id e)) k,
        (λ s. b (subst (λ z. In z suppressed) (ap hit_id e) s)),
        λ x. a (subst (λ z. In z p.covered_chunk_ids) (ap hit_id e) ((w.0 c).1 x)),
      )
    ]

    raw_from :
        (p : CoverPlan)
        → Plans es pr es p
        → (c : Text)
        → In c chunks
          × (¬ In c suppressed)
          × (¬ ((n : SummaryNode) × In n es × Chosen es pr n × Below es n c))
        → In (chunk_hit c) (shown p)
    raw_from p w c (k, s, x) =
        In-append_right (chunk_hit c) (summary_hits es p.maximal_ids)
          (chunk_hits p.covered_chunk_ids suppressed chunks)
          ((chunk_hits_lem p.covered_chunk_ids suppressed chunks (chunk_hit c)).1
            (c, k, (λ t. x ((w.0 c).0 t)), s, refl))

    summary_to :
        (p : CoverPlan)
        → Plans es pr es p
        → (i : Text) → In (summary_hit i) (shown p)
        → (n : SummaryNode) × In n es × Chosen es pr n × (i ≡ n.id)
    summary_to p w i m = elim (split p w (summary_hit i) m) [
      | inl (j, k, e) ↦ (w.1 i).0 (subst (λ z. In z p.maximal_ids) (sym (ap hit_id e)) k)
      | inr (d, k, a, b, e) ↦ ground (arith, ap is_summary e)
    ]

    summary_from :
        (p : CoverPlan)
        → Plans es pr es p
        → (i : Text) → (n : SummaryNode) × In n es × Chosen es pr n × (i ≡ n.id)
        → In (summary_hit i) (shown p)
    summary_from p w i x =
        In-append_left (summary_hit i) (summary_hits es p.maximal_ids)
          (chunk_hits p.covered_chunk_ids suppressed chunks)
          ((summary_hits_lem es p.maximal_ids (eligible p w) (summary_hit i)).1
            (i, (w.1 i).1 x, refl))
