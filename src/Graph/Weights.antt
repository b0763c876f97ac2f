-- ===== src/Graph/Weights.antt =====
-- What the writes of memory/graph/edge_store.rs keep count of.
use tinycortex.Base.{
  ◌+◌, ◌≡◌, ◌&&◌, ◌∷◌, if◌then◌else◌, [], List, ℕ, arith, same, Bool, true, false, length, String,
  keep, not, ◌∙◌, ◌||◌, refl, ap, any, sym,
}
use tinycortex.Graph.Edges.{
  Edge, Pair, upsert_edge, upsert_all, clear_edges_for_entities, touches, count_edges,
}

abbrev pub total_weight : List Edge → ℕ
total_weight [] = 0
total_weight (e ∷ es) = e.weight + total_weight es

upsert_edge-total_weight :
    (now : ℕ) (p : Pair) (es : List Edge)
    → total_weight (upsert_edge now p es) ≡ total_weight es + 1
unfolding upsert_edge
upsert_edge-total_weight now p [] = omega arith
upsert_edge-total_weight now p (e ∷ es) =
    go (same e.entity_a p.0 && same e.entity_b p.1) (upsert_edge-total_weight now p es)
  where
    go :
        (b : Bool)
        → total_weight (upsert_edge now p es) ≡ total_weight es + 1
        → total_weight (
            if b
            then record e { weight = e.weight + 1; updated_ms = now } ∷ es
            else e ∷ upsert_edge now p es)
          ≡ total_weight (e ∷ es) + 1
    go true ih = omega arith
    go false ih = omega (arith, ih)

pub upsert_all-total_weight :
    (now : ℕ) (ps : List Pair) (es : List Edge)
    → total_weight (upsert_all now ps es) ≡ total_weight es + length ps
unfolding upsert_all
upsert_all-total_weight now [] es = omega arith
upsert_all-total_weight now (p ∷ ps) es = omega (
  arith,
  upsert_all-total_weight now ps (upsert_edge now p es),
  upsert_edge-total_weight now p es,
)

keep-split :
    (p : Edge → Bool) (xs : List Edge)
    → length (keep p xs) + length (keep (λ e. not (p e)) xs) ≡ length xs
keep-split p [] = omega arith
keep-split p (x ∷ xs) = go (p x) (keep-split p xs)
  where
    go :
        (b : Bool)
        → length (keep p xs) + length (keep (λ e. not (p e)) xs) ≡ length xs
        → length (if b then x ∷ keep p xs else keep p xs)
            + length (if not b then x ∷ keep (λ e. not (p e)) xs else keep (λ e. not (p e)) xs)
          ≡ length (x ∷ xs)
    go true ih = omega (arith, ih)
    go false ih = omega (arith, ih)

clear-count :
    (ids : List String) (es : List Edge)
    → let (removed, left) = clear_edges_for_entities ids es in removed + length left ≡ length es
unfolding clear_edges_for_entities
clear-count [] es = omega arith
clear-count (id ∷ ids) es =
    omega (arith, clear-count ids (keep (λ e. not (touches id e)) es), keep-split (touches id) es)

-- One filter after another is one filter by both tests.
keep-keep :
    (p q : Edge → Bool) (es : List Edge)
    → keep (λ e. not (q e)) (keep (λ e. not (p e)) es) ≡ keep (λ e. not (p e || q e)) es
keep-keep p q [] = refl
keep-keep p q (x ∷ xs) = go (p x) (q x) (keep-keep p q xs) refl
  where
    rest : List Edge
    rest = keep (λ e. not (p e)) xs

    go :
        (a b : Bool)
        → keep (λ e. not (q e)) rest ≡ keep (λ e. not (p e || q e)) xs
        → q x ≡ b
        → keep (λ e. not (q e)) (if not a then x ∷ rest else rest) ≡ (
            if not (a || b)
            then x ∷ keep (λ e. not (p e || q e)) xs
            else keep (λ e. not (p e || q e)) xs)
    go true b ih k = ih
    go false true ih k = rw k ih
    go false false ih k = rw k (ap (λ z. x ∷ z) ih)

-- The entities whose edges are cleared, as one test of an edge.
abbrev pub touches_any : List String → Edge → Bool
touches_any ids e = any (λ id. touches id e) ids

clear-keep :
    (ids : List String) (es : List Edge)
    → (clear_edges_for_entities ids es).1 ≡ keep (λ e. not (touches_any ids e)) es
unfolding clear_edges_for_entities
clear-keep [] es = sym (all_kept es)
  where
    all_kept : (xs : List Edge) → keep (λ e. true) xs ≡ xs
    all_kept [] = refl
    all_kept (x ∷ xs) = ap (λ z. x ∷ z) (all_kept xs)
clear-keep (i ∷ ids) es =
    clear-keep ids (keep (λ e. not (touches i e)) es) ∙ keep-keep (touches i) (touches_any ids) es

-- Clearing entities, which runs one deletion after another, removes exactly the edges that touch one
-- of the entities, keeps every other edge in its order, and reports how many it removed.
pub clear_edges_for_entities_lem :
    (ids : List String) (es : List Edge)
    → let (removed, left) = clear_edges_for_entities ids es in
      (left ≡ keep (λ e. not (touches_any ids e)) es)
      × (removed ≡ count_edges (keep (touches_any ids) es))
unfolding count_edges
clear_edges_for_entities_lem ids es = (
  clear-keep ids es,
  omega (
    arith,
    clear-count ids es,
    ap (λ xs. length xs) (clear-keep ids es),
    keep-split (touches_any ids) es,
  ),
)
