-- ===== src/Graph/Tests.antt =====
-- The theorems on memory/graph, run on two edges.
use tinycortex.Graph.Weights.{total_weight, clear_edges_for_entities_lem, touches_any}
use tinycortex.Graph.Upserts.{Raised, upsert_edges_lem}
use tinycortex.Graph.Order.{Given}
use tinycortex.Base.{◌+◌, ◌≡◌, ◌∷◌, [], List, String, keep, not, ◌≢◌, ◌↔◌, Pairs, In, length}
use tinycortex.Graph.Edges.{
  Edge, upsert_edges, pairs_from_entities, clear_edges_for_entities, count_edges, Pair,
}

abbrev edges : List Edge
edges =
    record { entity_a = "person:ann"; entity_b = "person:bob"; weight = 2; updated_ms = 1 }
    ∷ record { entity_a = "person:bob"; entity_b = "topic:tea"; weight = 1; updated_ms = 1 }
    ∷ []

abbrev seen : List String
seen = "person:bob" ∷ "person:ann" ∷ "topic:ink" ∷ "person:ann" ∷ []

upsert_edges_lem_example :
    Raised
      (Given (pairs_from_entities seen) ("person:ann", "person:bob"))
      ("person:ann", "person:bob")
      edges
      (upsert_edges (pairs_from_entities seen) 9 edges).1
    × (total_weight (upsert_edges (pairs_from_entities seen) 9 edges).1
        ≡ total_weight edges + (upsert_edges (pairs_from_entities seen) 9 edges).0)
    × ((qs : List Pair) × Pairs (λ x y. x ≢ y) qs
        × ((x : Pair) → In x qs ↔ Given (pairs_from_entities seen) x)
        × ((upsert_edges (pairs_from_entities seen) 9 edges).0 ≡ length qs))
upsert_edges_lem_example =
    upsert_edges_lem (pairs_from_entities seen) 9 edges ("person:ann", "person:bob")

clear_edges_for_entities_lem_example :
    let (removed, left) = clear_edges_for_entities ("person:ann" ∷ []) edges in
    (left ≡ keep (λ e. not (touches_any ("person:ann" ∷ []) e)) edges)
    × (removed ≡ count_edges (keep (touches_any ("person:ann" ∷ [])) edges))
clear_edges_for_entities_lem_example = clear_edges_for_entities_lem ("person:ann" ∷ []) edges
