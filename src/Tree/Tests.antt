-- ===== src/Tree/Tests.antt =====
-- The theorems on memory/tree, run on two buffers and one tree.
use tinycortex.Tree.Sealed.{Sealed, cascade_all_from_lem}
use tinycortex.Tree.Retry.{append_to_buffer_lem}
use tinycortex.Tree.Append.{append_item, append_to_buffer}
use tinycortex.Tree.Commit.{commit_seal_lem}
use tinycortex.Tree.Cascade.{cascade_all_from, cascade, cascade_next}
use tinycortex.Queue.Config.{default_config}
use tinycortex.Tree.Seal.{
  Fresh, commit_seal, SealServices, SealError, seal_one_level, summarise_node, lifted, tree_result,
  ensure_active, joined, follow_up, backlinked, climbed,
}
use tinycortex.Queue.Payloads.{SealPayload}
use tinycortex.Tree.Forest.{
  SummaryNode, TreeKind, Tree, active, Store, find_tree, insert_summary, index_entities,
}
use tinycortex.Queue.Types.{NewJob}
use tinycortex.Queue.Handlers.{Json, Serde, seal_job}
use tinycortex.Tree.Snapshot.{consume_snapshot-append_all, consume_snapshot-once}
use tinycortex.Tree.Growth.{Append, append_all, items}
use tinycortex.Tree.Buffer.{
  Buffers, consume_snapshot, get_buffer, is_at, Buffer, strip_prefix, upsert_buffer, consumed,
  buffer_changed, TreeConfig, should_seal, is_empty, push_item, min_instant,
}
use tinycortex.Base.{
  ◌≡◌, ◌∙◌, ◌≢◌, ◌∷◌, ◌++◌, [], some, ok, String, ℕ, false, same, refl, arith, same_iff, Pairs, inl,
  inr, err, ◌+◌, none, true, map, ◌≤◌, ◌<◌, Result, List, length, Option,
}

abbrev buffers : Buffers
buffers =
    record {
      tree_id = "t";
      level = 0;
      item_ids = "c1" ∷ "c2" ∷ [];
      token_sum = 30;
      oldest_at = some 5;
    }
    ∷ record { tree_id = "u"; level = 0; item_ids = "c1" ∷ []; token_sum = 10; oldest_at = some 7 }
    ∷ []

abbrev late : Append
late = record { tree_id = "t"; level = 0; item = "c3"; tokens = 4; instant = 9 }

abbrev elsewhere : Append
elsewhere = record { tree_id = "u"; level = 1; item = "c4"; tokens = 4; instant = 9 }

consume_snapshot-append_all_example :
    let now = append_all (late ∷ elsewhere ∷ []) buffers in
    (after : Buffers) × ((consume_snapshot (get_buffer "t" 0 buffers) now ≡ ok after)
      × ((items "t" 0 buffers ++ items "t" 0 after ≡ items "t" 0 now)
          × ((u : String) (m : ℕ)
              → is_at u m (get_buffer "t" 0 buffers) ≡ false
              → get_buffer u m after ≡ get_buffer u m now)))
consume_snapshot-append_all_example =
    consume_snapshot-append_all "t" 0 buffers (late ∷ elsewhere ∷ [])

abbrev snapshot : Buffer
snapshot = record {
  tree_id = "t";
  level = 0;
  item_ids = "c1" ∷ "c2" ∷ [];
  token_sum = 30;
  oldest_at = some 5;
}

first_seal : (after : Buffers) × (consume_snapshot snapshot buffers ≡ ok after)
unfolding consume_snapshot get_buffer is_at strip_prefix upsert_buffer consumed same
first_seal = (_, refl)

differ : (s t : String) → same s t ≡ false → s ≢ t
differ s t h e = ground (arith, (same_iff s t).1 e)

no_repeats : Pairs (λ y z. y ≢ z) (items "t" 0 buffers)
unfolding get_buffer is_at same
no_repeats = (
  (λ y m. elim m [
    | inl e ↦ (λ q. differ "c1" "c2" (unfold same in refl) (q ∙ e))
    | inr n ↦ elim n [ ]
  ]),
  ((λ y m. elim m [ ]), tt),
)

consume_snapshot-once_example :
    consume_snapshot snapshot (append_all (late ∷ []) first_seal.0) ≡ err buffer_changed
consume_snapshot-once_example =
    consume_snapshot-once snapshot buffers first_seal.0 "c1" ("c2" ∷ []) (late ∷ []) refl no_repeats
      first_seal.1 (differ "c1" "c3" (unfold same in refl), tt)

abbrev prints : {P : Type 0} → Json P
prints = record { to_string = λ q. ok "{}"; from_str = λ s. err "EOF" }

abbrev serde : Serde
serde = record {
  extract = prints;
  append = prints;
  seal = prints;
  flush = prints;
  reembed = prints;
  document = prints;
}

abbrev node : SummaryNode
node = record {
  id = "s1";
  tree_id = "t";
  tree_kind = TreeKind.source;
  level = 1;
  parent_id = none;
  child_ids = "c1" ∷ "c2" ∷ [];
  content = "both";
  token_count = 9;
  entities = "person:ann" ∷ [];
  topics = [];
  time_range_start = 5;
  time_range_end = 6;
  sealed_at = 10;
  deleted = false;
  doc_id = none;
  version_ms = none;
}

abbrev tree : Tree
tree = record {
  id = "t";
  kind = TreeKind.source;
  scope = "notes";
  root_id = none;
  max_level = 0;
  status = active;
  created_at = 1;
  last_sealed_at = none;
  ask = none;
}

abbrev store : Store
store = record {
  trees = tree ∷ [];
  buffers = append_all (late ∷ []) buffers;
  summaries = [];
  chunks = record { id = "c1"; parent_summary_id = none } ∷ [];
  entities = [];
  edges = [];
  jobs = [];
}

abbrev tree_config : TreeConfig
tree_config = record { input_token_budget = 25; summary_fanout = 2 }

abbrev fresh : Fresh
fresh = record { now = 10; summary_id = "s1"; job_id = "j1" }

printed : (p : SealPayload) → (j : NewJob) × (seal_job serde p ≡ ok j)
unfolding seal_job
printed p = (_, refl)

commit_seal_lem_example :
    (s' : Store) × (commit_seal default_config tree_config serde fresh true
        (get_buffer "t" 0 buffers)
        node
        store
      ≡ ok s')
    × (items "t" 0 buffers ++ items "t" 0 s'.buffers ≡ items "t" 0 store.buffers)
    × (items "t" (0 + 1) s'.buffers ≡ items "t" (0 + 1) store.buffers ++ ("s1" ∷ []))
    × ((u : String) (m : ℕ)
        → is_at u m (get_buffer "t" 0 buffers) ≡ false
        → is_at u m (get_buffer "t" (0 + 1) buffers) ≡ false
        → get_buffer u m s'.buffers ≡ get_buffer u m store.buffers)
commit_seal_lem_example =
    commit_seal_lem default_config tree_config serde fresh true buffers (late ∷ []) 0 node tree
      store refl refl (unfold find_tree same in refl) refl printed

abbrev services : SealServices
services = record {
  hydrate_inputs = λ l ids. ok (
      map
        (λ i. record {
          id = i;
          content = "text";
          token_count = 10;
          entities = [];
          topics = [];
          time_range_start = 5;
          time_range_end = 6;
        })
        ids);
  summarise = λ is. ok (record { content = "both"; token_count = 9 });
  fallback_summary = λ is. record { content = "fallback"; token_count = 1 };
  is_blank = λ s. false;
  resolve_labels = λ is s. ok ([], []);
  embed = λ s. ok tt;
  stage_summary = λ n. ok tt;
  summary_committed = λ n. ok tt;
}

-- A forced flush of a tree seals its leaves; the level above is not due.
abbrev cascaded : Result SealError (List String) × Store
cascaded =
    cascade_all_from default_config tree_config serde services (λ n. fresh) true tree 0 true store

cascaded-ids : cascaded ≡ (ok ("s1" ∷ []), cascaded.1)
unfolding cascade_all_from seal_one_level commit_seal cascade cascade_next summarise_node lifted
    get_buffer is_at upsert_buffer strip_prefix consumed consume_snapshot should_seal is_empty
    tree_result ensure_active find_tree joined push_item min_instant append_item follow_up same
    insert_summary index_entities backlinked climbed
cascaded-ids = refl

cascade_all_from_lem_example :
    Sealed default_config tree_config serde services
      (λ n. fresh)
      true
      tree
      32
      ("s1" ∷ [])
      0
      true
      store
      cascaded.1
    × (length {A = String} ("s1" ∷ []) ≤ 32)
    × (length {A = String} ("s1" ∷ []) < 32
        → should_seal tree_config
            (get_buffer tree.id (0 + length {A = String} ("s1" ∷ [])) cascaded.1.buffers)
          ≡ false)
    × (◌≡◌ {A = List String} ("s1" ∷ []) [] → cascaded.1 ≡ store)
cascade_all_from_lem_example =
    cascade_all_from_lem default_config tree_config serde services (λ n. fresh) true tree 0 true
      store cascaded.1 ("s1" ∷ []) cascaded-ids

abbrev active_trees : String → Option String
active_trees id = some "active"

first_append : (after : Buffers) × (append_to_buffer active_trees "t" 0 "c3" 4 9 buffers ≡ ok after)
unfolding append_to_buffer append_item get_buffer is_at upsert_buffer push_item min_instant same
first_append = (_, refl)

append_to_buffer_lem_example :
    (append_to_buffer active_trees "t" 0 "c3" 5 11 first_append.0 ≡ ok first_append.0)
    × ((u : String) (m : ℕ)
        → Pairs (λ y z. y ≢ z) (items u m buffers)
        → Pairs (λ y z. y ≢ z) (items u m first_append.0))
append_to_buffer_lem_example =
    append_to_buffer_lem active_trees "t" 0 "c3" 4 9 5 11 buffers first_append.0 first_append.1
