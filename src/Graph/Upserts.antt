-- ===== src/Graph/Upserts.antt =====
-- Which weights the upsert of memory/graph/edge_store.rs raises.
use tinycortex.Retrieval.Once.{Among}
use tinycortex.Base.{
  ◌+◌, ◌≡◌, ◌∙◌, ◌≢◌, ◌⊎◌, ◌&&◌, ◌∷◌, [], List, In, Pairs, ℕ, Bool, if◌then◌else◌, same, true, refl,
  false, arith, sym, same_iff, same_refl, inr, Bool-cases, inl, subst, ap, ◌↔◌, length,
}
use tinycortex.Graph.Edges.{Edge, Pair, upsert_edge, upsert_all, upsert_edges, canonical}
use tinycortex.Graph.Order.{Given, canonical-Given, canonical-Pairs}
use tinycortex.Graph.Weights.{total_weight, upsert_all-total_weight}

abbrev joins : Pair → Edge → Bool
joins p e = same e.entity_a p.0 && same e.entity_b p.1

-- The weight of a pair's edges, zero if it has none.
abbrev pub weight_of : Pair → List Edge → ℕ
weight_of p [] = 0
weight_of p (e ∷ es) =
    (if same e.entity_a p.0 && same e.entity_b p.1 then e.weight else 0) + weight_of p es

joins-eq : (p q : Pair) (e : Edge) → joins p e ≡ true → joins q e ≡ true → p ≡ q
joins-eq p q e h k = λ i. (first i, second i)
  where
    both : (a b : Bool) → a && b ≡ true → (a ≡ true) × (b ≡ true)
    both true true h = (refl, refl)
    both true false h = ground (arith, h)
    both false b h = ground (arith, h)

    first : p.0 ≡ q.0
    first =
        sym ((same_iff e.entity_a p.0).0 (both (same e.entity_a p.0) (same e.entity_b p.1) h).0)
        ∙ (same_iff e.entity_a q.0).0 (both (same e.entity_a q.0) (same e.entity_b q.1) k).0

    second : p.1 ≡ q.1
    second =
        sym ((same_iff e.entity_b p.1).0 (both (same e.entity_a p.0) (same e.entity_b p.1) h).1)
        ∙ (same_iff e.entity_b q.1).0 (both (same e.entity_a q.0) (same e.entity_b q.1) k).1

upsert_edge-weight_of :
    (now : ℕ) (p : Pair) (es : List Edge) → weight_of p (upsert_edge now p es) ≡ weight_of p es + 1
unfolding upsert_edge
upsert_edge-weight_of now p [] = rw (same_refl p.0, same_refl p.1) refl
upsert_edge-weight_of now p (e ∷ es) = go (joins p e) refl (upsert_edge-weight_of now p es)
  where
    go :
        (b : Bool)
        → joins p e ≡ b
        → weight_of p (upsert_edge now p es) ≡ weight_of p es + 1
        → weight_of p (
            if b
            then record e { weight = e.weight + 1; updated_ms = now } ∷ es
            else e ∷ upsert_edge now p es)
          ≡ (if joins p e then e.weight else 0) + weight_of p es + 1
    go true h ih = rw h (omega arith)
    go false h ih = rw h (omega (arith, ih))

upsert_edge-other :
    (now : ℕ) (p q : Pair) (es : List Edge)
    → p ≢ q
    → weight_of p (upsert_edge now q es) ≡ weight_of p es
unfolding upsert_edge
upsert_edge-other now p q [] n = go (joins p new_edge) refl
  where
    new_edge : Edge
    new_edge = record { entity_a = q.0; entity_b = q.1; weight = 1; updated_ms = now }

    go : (b : Bool) → joins p new_edge ≡ b → (if b then 1 else 0) + 0 ≡ 0
    go true h = absurd (n (joins-eq p q new_edge h (rw (same_refl q.0, same_refl q.1) refl)))
    go false h = refl
upsert_edge-other now p q (e ∷ es) n =
    go (joins q e) refl (joins p e) refl (upsert_edge-other now p q es n)
  where
    go :
        (b : Bool)
        → joins q e ≡ b
        → (c : Bool) → joins p e ≡ c
        → weight_of p (upsert_edge now q es) ≡ weight_of p es
        → weight_of p (
            if b
            then record e { weight = e.weight + 1; updated_ms = now } ∷ es
            else e ∷ upsert_edge now q es)
          ≡ (if joins p e then e.weight else 0) + weight_of p es
    go true h true k ih = absurd (n (joins-eq p q e k h))
    go true h false k ih = rw k refl
    go false h c k ih = rw ih refl

-- The weight of a pair after an upsert, whether the pair is among those that raise it.
abbrev pub Raised : Type 0 → Pair → List Edge → List Edge → Type 0
Raised Among p es es' =
    (Among × (weight_of p es' ≡ weight_of p es + 1))
    ⊎ ((¬ Among) × (weight_of p es' ≡ weight_of p es))

upsert_all-Raised :
    (now : ℕ) (p : Pair) (qs : List Pair) (es : List Edge)
    → Pairs (λ x y. x ≢ y) qs
    → Raised (In p qs) p es (upsert_all now qs es)
unfolding upsert_all
upsert_all-Raised now p [] es d = inr ((λ m. m), refl)
upsert_all-Raised now p (q ∷ qs) es d =
    go (same_pairs p q) (upsert_all-Raised now p qs (upsert_edge now q es) d.1)
  where
    same_pairs : (p q : Pair) → (p ≡ q) ⊎ (p ≢ q)
    same_pairs p q = elim (Bool-cases (same p.0 q.0 && same p.1 q.1)) [
      | inl h ↦ inl (
          joins-eq p q (record { entity_a = p.0; entity_b = p.1; weight = 0; updated_ms = 0 })
            (rw (same_refl p.0, same_refl p.1) refl) h)
      | inr h ↦ inr (λ e. ground (
        arith,
        sym (
              subst (λ z. same p.0 z.0 && same p.1 z.1 ≡ true) e
                (rw (same_refl p.0, same_refl p.1) refl))
            ∙ h,
      ))
    ]

    go :
        (p ≡ q) ⊎ (p ≢ q)
        → Raised (In p qs) p (upsert_edge now q es) (upsert_all now qs (upsert_edge now q es))
        → Raised (In p (q ∷ qs)) p es (upsert_all now qs (upsert_edge now q es))
    go (inl e) (inl (m, w)) = absurd (d.0 p m (sym e))
    go (inl e) (inr (m, w)) = inl (
      inl e,
      w ∙ ap (λ z. weight_of p (upsert_edge now z es)) (sym e) ∙ upsert_edge-weight_of now p es,
    )
    go (inr n) (inl (m, w)) = inl (inr m, w ∙ ap (λ z. z + 1) (upsert_edge-other now p q es n))
    go (inr n) (inr (m, w)) =
        inr ((λ k. elim k [ inl e ↦ n e | inr j ↦ m j ]), w ∙ upsert_edge-other now p q es n)

-- Upserting pairs raises by one the weight of each ordered pair of two different entities that is
-- given, once however often and in whichever order it is given, whether its edge is new or known,
-- and leaves the weight of every other pair; and the sum of all weights grows by the number
-- reported, which is that of the distinct pairs.
pub upsert_edges_lem :
    (pairs : List Pair) (now : ℕ) (es : List Edge) (p : Pair)
    → let (written, es') = upsert_edges pairs now es in
      Raised (Given pairs p) p es es'
      × (total_weight es' ≡ total_weight es + written)
      × ((qs : List Pair) × Pairs (λ x y. x ≢ y) qs
          × ((x : Pair) → In x qs ↔ Given pairs x)
          × (written ≡ length qs))
unfolding upsert_edges
upsert_edges_lem pairs now es p = (
  given (upsert_all-Raised now p (canonical pairs) es (canonical-Pairs pairs)),
  upsert_all-total_weight now (canonical pairs) es,
  (canonical pairs, canonical-Pairs pairs, canonical-Given pairs, refl),
)
  where
    given :
        Raised (In p (canonical pairs)) p es (upsert_all now (canonical pairs) es)
        → Raised (Given pairs p) p es (upsert_all now (canonical pairs) es)
    given (inl (m, w)) = inl ((canonical-Given pairs p).0 m, w)
    given (inr (m, w)) = inr ((λ g. m ((canonical-Given pairs p).1 g)), w)
