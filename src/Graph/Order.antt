-- ===== src/Graph/Order.antt =====
-- The sorted set of pairs in memory/graph/edge_store.rs: which pairs it holds, and each of them once.
use Prim.Native.Nat.{Ordering}
use Prim.Native.String.{compare, then}
use text.Mathlib.TextEquality.{path_by_compare}
use text.Mathlib.TextPositions.{compare_refl}
use tinycortex.Base.{
  ◌≡◌, ◌∙◌, ◌↔◌, ◌≢◌, ◌⊎◌, ◌∷◌, [], List, In, Pairs, refl, sym, ap, inr, inl, subst, Option, none,
  some, arith,
}
use tinycortex.Graph.Compare.{flipped, less, flipped-then, then_trans, compare_flip, compare_trans}
use tinycortex.Graph.Edges.{Pair, order_pair, pair_order, insert_pair, canonical}

pair_order-then : (p q : Pair) → pair_order p q ≡ then (compare p.0 q.0) (compare p.1 q.1)
unfolding pair_order
pair_order-then p q = go (compare p.0 q.0)
  where
    go :
        (o : Ordering)
        → (elim o [
          | Ordering.lt ↦ Ordering.lt
          | Ordering.eq ↦ compare p.1 q.1
          | Ordering.gt ↦ Ordering.gt
        ])
          ≡ then o (compare p.1 q.1)
    go Ordering.lt = refl
    go Ordering.eq = refl
    go Ordering.gt = refl

pair_order_flip : (p q : Pair) → pair_order q p ≡ flipped (pair_order p q)
pair_order_flip p q =
    pair_order-then q p
    ∙ (rw (compare_flip p.0 q.0, compare_flip p.1 q.1) refl)
    ∙ sym (flipped-then (compare p.0 q.0) (compare p.1 q.1))
    ∙ ap flipped (sym (pair_order-then p q))

pair_order_trans :
    (p q r : Pair)
    → pair_order p q ≡ Ordering.lt
    → pair_order q r ≡ Ordering.lt
    → pair_order p r ≡ Ordering.lt
pair_order_trans p q r e f =
    pair_order-then p r
    ∙ then_trans (compare p.0 q.0) (compare q.0 r.0) (compare p.0 r.0) (compare p.1 q.1)
        (compare q.1 r.1) (compare p.1 r.1) (compare_trans p.0 q.0 r.0)
        (λ h. ap (λ z. compare z r.0) (path_by_compare p.0 q.0 h))
        (λ h. ap (λ z. compare p.0 z) (sym (path_by_compare q.0 r.0 h))) (compare_trans p.1 q.1 r.1)
        (sym (pair_order-then p q) ∙ e) (sym (pair_order-then q r) ∙ f)

pair_order-same : (p q : Pair) → pair_order p q ≡ Ordering.eq → p ≡ q
pair_order-same p q e =
    go (compare p.0 q.0) refl (compare p.1 q.1) refl (sym (pair_order-then p q) ∙ e)
  where
    go :
        (a : Ordering)
        → compare p.0 q.0 ≡ a
        → (b : Ordering) → compare p.1 q.1 ≡ b
        → then a b ≡ Ordering.eq
        → p ≡ q
    go Ordering.lt u b v h = absurd (less Ordering.eq (sym h))
    go Ordering.eq u Ordering.eq v h =
        λ i. (path_by_compare p.0 q.0 u i, path_by_compare p.1 q.1 v i)
    go Ordering.eq u Ordering.lt v h = absurd (less Ordering.eq (sym h))
    go Ordering.eq u Ordering.gt v h = absurd (less Ordering.eq (ap flipped (sym h)))
    go Ordering.gt u b v h = absurd (less Ordering.eq (ap flipped (sym h)))

pair_order_refl : (p : Pair) → pair_order p p ≡ Ordering.eq
pair_order_refl p = pair_order-then p p ∙ (rw (compare_refl p.0, compare_refl p.1) refl)

abbrev Sorted : List Pair → Type 0
Sorted ps = Pairs (λ p q. pair_order p q ≡ Ordering.lt) ps

insert_pair-In :
    (p : Pair) (qs : List Pair) (x : Pair) → In x (insert_pair p qs) ↔ ((x ≡ p) ⊎ In x qs)
unfolding insert_pair
insert_pair-In p [] x = ((λ m. m), λ m. m)
insert_pair-In p (q ∷ qs) x = go (pair_order p q) refl (insert_pair-In p qs x)
  where
    go :
        (o : Ordering)
        → pair_order p q ≡ o
        → (In x (insert_pair p qs) ↔ ((x ≡ p) ⊎ In x qs))
        → In x (elim o [
          | Ordering.lt ↦ p ∷ q ∷ qs
          | Ordering.eq ↦ q ∷ qs
          | Ordering.gt ↦ q ∷ insert_pair p qs
        ])
          ↔ ((x ≡ p) ⊎ In x (q ∷ qs))
    go Ordering.lt e ih = ((λ m. m), λ m. m)
    go Ordering.eq e ih =
        ((λ m. inr m), λ m. elim m [ inl h ↦ inl (h ∙ pair_order-same p q e) | inr k ↦ k ])
    go Ordering.gt e ih = (
      (λ m. elim m [
        | inl h ↦ inr (inl h)
        | inr k ↦ elim (ih.0 k) [ inl h ↦ inl h | inr j ↦ inr (inr j) ]
      ]),
      λ m. elim m [
        | inl h ↦ inr (ih.1 (inl h))
        | inr k ↦ elim k [ inl h ↦ inl h | inr j ↦ inr (ih.1 (inr j)) ]
      ],
    )

insert_pair-Sorted : (p : Pair) (qs : List Pair) → Sorted qs → Sorted (insert_pair p qs)
unfolding insert_pair
insert_pair-Sorted p [] s = ((λ y m. elim m [ ]), tt)
insert_pair-Sorted p (q ∷ qs) s = go (pair_order p q) refl (insert_pair-Sorted p qs s.1)
  where
    go :
        (o : Ordering)
        → pair_order p q ≡ o
        → Sorted (insert_pair p qs)
        → Sorted (elim o [
          | Ordering.lt ↦ p ∷ q ∷ qs
          | Ordering.eq ↦ q ∷ qs
          | Ordering.gt ↦ q ∷ insert_pair p qs
        ])
    go Ordering.lt e ih = (
      (λ y m. elim m [
        | inl h ↦ subst (λ z. pair_order p z ≡ Ordering.lt) (sym h) e
        | inr k ↦ pair_order_trans p q y e (s.0 y k)
      ]),
      s,
    )
    go Ordering.eq e ih = s
    go Ordering.gt e ih = (
      (λ y m. elim ((insert_pair-In p qs y).0 m) [
        | inl h ↦
            subst (λ z. pair_order q z ≡ Ordering.lt) (sym h) (pair_order_flip p q ∙ ap flipped e)
        | inr k ↦ s.0 y k
      ]),
      ih,
    )

canonical-Sorted : (ps : List Pair) → Sorted (canonical ps)
unfolding canonical
canonical-Sorted [] = tt
canonical-Sorted (p ∷ ps) = go (order_pair p.0 p.1) (canonical-Sorted ps)
  where
    go :
        (o : Option Pair)
        → Sorted (canonical ps)
        → Sorted (elim o [ none ↦ canonical ps | some q ↦ insert_pair q (canonical ps) ])
    go none s = s
    go (some q) s = insert_pair-Sorted q (canonical ps) s

-- A pair of two different entities, in order, is among the given pairs, in either order.
abbrev pub Given : List Pair → Pair → Type 0
Given ps x = (p : Pair) × In p ps × (order_pair p.0 p.1 ≡ some x)

-- The set holds exactly the ordered pairs given.
pub canonical-Given : (ps : List Pair) (x : Pair) → In x (canonical ps) ↔ Given ps x
unfolding canonical
canonical-Given [] x = ((λ m. elim m [ ]), λ g. elim g.1 [ ])
canonical-Given (p ∷ ps) x = go (order_pair p.0 p.1) refl (canonical-Given ps x)
  where
    pair_or : Pair → Option Pair → Pair
    pair_or d none = d
    pair_or d (some y) = y

    go :
        (o : Option Pair)
        → order_pair p.0 p.1 ≡ o
        → (In x (canonical ps) ↔ Given ps x)
        → In x (elim o [ none ↦ canonical ps | some q ↦ insert_pair q (canonical ps) ])
          ↔ Given (p ∷ ps) x
    go none e ih = ((λ m. let (y, i, f) = ih.0 m in (y, inr i, f)), from)
      where
        from : Given (p ∷ ps) x → In x (canonical ps)
        from (y, inl h, f) = ground (arith, sym e ∙ subst (λ z. order_pair z.0 z.1 ≡ some x) h f)
        from (y, inr i, f) = ih.1 (y, i, f)
    go (some q) e ih = (
      (λ m. elim ((insert_pair-In q (canonical ps) x).0 m) [
        | inl h ↦ (p, inl refl, e ∙ ap (λ z. some z) (sym h))
        | inr k ↦ let (y, i, f) = ih.0 k in (y, inr i, f)
      ]),
      λ g. (insert_pair-In q (canonical ps) x).1 (from g),
    )
      where
        from : Given (p ∷ ps) x → (x ≡ q) ⊎ In x (canonical ps)
        from (y, inl h, f) =
            inl (ap (pair_or x) (sym (subst (λ z. order_pair z.0 z.1 ≡ some x) h f) ∙ e))
        from (y, inr i, f) = inr (ih.1 (y, i, f))

pub canonical-Pairs : (ps : List Pair) → Pairs (λ p q. p ≢ q) (canonical ps)
canonical-Pairs ps = differ (canonical ps) (canonical-Sorted ps)
  where
    differ : (qs : List Pair) → Sorted qs → Pairs (λ p q. p ≢ q) qs
    differ [] s = tt
    differ (q ∷ qs) s = (
      (λ y m e. less Ordering.eq (sym (pair_order_refl q) ∙ ap (λ z. pair_order q z) e ∙ s.0 y m)),
      differ qs s.1,
    )
