-- ===== src/Graph/Edges.antt =====
-- memory/graph/edge_store.rs: undirected edges between entities, each stored once under its ordered
-- pair.
use Prim.Native.Nat.{Ordering}
use Prim.Native.String.{compare}
use tinycortex.Base.{
  ℕ, ◌+◌, ◌&&◌, ◌||◌, ◌∷◌, ◌++◌, if◌then◌else◌, [], String, Option, some, none, List, same, length,
  Bool, keep, not,
}

pub record Edge : Type 0 where
  pub entity_a : String
  pub entity_b : String
  pub weight : ℕ
  pub updated_ms : ℕ

abbrev pub Pair : Type 0
Pair = String × String

unfoldable pub order_pair : String → String → Option Pair
order_pair a b = elim (compare a b) [
  | Ordering.lt ↦ some (a, b)
  | Ordering.eq ↦ none
  | Ordering.gt ↦ some (b, a)
]

-- Insertion in a sorted set.
insert_id : String → List String → List String
insert_id x [] = x ∷ []
insert_id x (y ∷ ys) =
    let rest = insert_id x ys in
    elim (compare x y) [ Ordering.lt ↦ x ∷ y ∷ ys | Ordering.eq ↦ y ∷ ys | Ordering.gt ↦ y ∷ rest ]

id_set : List String → List String
unfolding insert_id
id_set [] = []
id_set (x ∷ xs) = insert_id x (id_set xs)

pairs_with : String → List String → List Pair
unfolding order_pair
pairs_with a [] = []
pairs_with a (b ∷ bs) =
    let rest = pairs_with a bs in elim (order_pair a b) [ none ↦ rest | some p ↦ p ∷ rest ]

all_pairs : List String → List Pair
unfolding pairs_with
all_pairs [] = []
all_pairs (x ∷ xs) = pairs_with x xs ++ all_pairs xs

unfoldable pub pairs_from_entities : List String → List Pair
unfolding id_set all_pairs
pairs_from_entities entity_ids = all_pairs (id_set entity_ids)

unfoldable pub pair_order : Pair → Pair → Ordering
pair_order p q = elim (compare p.0 q.0) [
  | Ordering.lt ↦ Ordering.lt
  | Ordering.eq ↦ compare p.1 q.1
  | Ordering.gt ↦ Ordering.gt
]

unfoldable pub insert_pair : Pair → List Pair → List Pair
unfolding pair_order
insert_pair p [] = p ∷ []
insert_pair p (q ∷ qs) =
    let rest = insert_pair p qs in
    elim (pair_order p q) [
      | Ordering.lt ↦ p ∷ q ∷ qs
      | Ordering.eq ↦ q ∷ qs
      | Ordering.gt ↦ q ∷ rest
    ]

unfoldable pub canonical : List Pair → List Pair
unfolding order_pair insert_pair
canonical [] = []
canonical (p ∷ ps) =
    let rest = canonical ps in
    elim (order_pair p.0 p.1) [ none ↦ rest | some q ↦ insert_pair q rest ]

-- `INSERT … ON CONFLICT … DO UPDATE SET weight = weight + 1`.
unfoldable pub upsert_edge : ℕ → Pair → List Edge → List Edge
upsert_edge now p [] = record { entity_a = p.0; entity_b = p.1; weight = 1; updated_ms = now } ∷ []
upsert_edge now p (e ∷ es) =
    let rest = upsert_edge now p es in
    if same e.entity_a p.0 && same e.entity_b p.1
    then record e { weight = e.weight + 1; updated_ms = now } ∷ es
    else e ∷ rest

unfoldable pub upsert_all : ℕ → List Pair → List Edge → List Edge
unfolding upsert_edge
upsert_all now [] es = es
upsert_all now (p ∷ ps) es = upsert_all now ps (upsert_edge now p es)

unfoldable pub upsert_edges : List Pair → ℕ → List Edge → ℕ × List Edge
unfolding canonical upsert_all
upsert_edges pairs now es = (length (canonical pairs), upsert_all now (canonical pairs) es)

unfoldable pub touches : String → Edge → Bool
touches id e = same e.entity_a id || same e.entity_b id

unfoldable pub clear_edges_for_entities : List String → List Edge → ℕ × List Edge
unfolding touches
clear_edges_for_entities [] es = (0, es)
clear_edges_for_entities (id ∷ ids) es =
    let (removed, left) = clear_edges_for_entities ids (keep (λ e. not (touches id e)) es) in
    (length (keep (touches id) es) + removed, left)

unfoldable pub count_edges : List Edge → ℕ
count_edges es = length es
