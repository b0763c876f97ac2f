-- ===== src/Tree/Buffer.antt =====
-- memory/tree/store/buffers.rs and `Buffer` of memory/tree/store/types.rs: the unsealed frontier of
-- a tree, one row for each tree and level. Token counts and instants are not negative.
use mathlib.Core.Option
use tinycortex.Base.{
  String, ◌-◌, ◌%◌, ◌&&◌, ◌∷◌, ◌++◌, ◌==◌, if◌then◌else◌, [], ◌>>=◌, Option, ℕ, List, none, Bool,
  true, false, same, find, some, Result, ok_or, ok, min, saturating_add, leb, length, u32_mod, ltb,
  keep,
}

-- The fields of `TreeConfig` in memory/config.rs that the seal gates read.
pub record TreeConfig : Type 0 where
  pub input_token_budget : ℕ
  pub summary_fanout : ℕ

pub record Buffer : Type 0 where
  pub tree_id : String
  pub level : ℕ
  pub item_ids : List String
  pub token_sum : ℕ
  pub oldest_at : Option ℕ

abbrev pub empty : String → ℕ → Buffer
empty tree_id level = record {
  tree_id = tree_id;
  level = level;
  item_ids = [];
  token_sum = 0;
  oldest_at = none;
}

unfoldable pub is_empty : List String → Bool
is_empty [] = true
is_empty (x ∷ xs) = false

unfoldable pub is_at : String → ℕ → Buffer → Bool
is_at tree_id level b = same b.tree_id tree_id && b.level == level

abbrev pub Buffers : Type 0
Buffers = List Buffer

unfoldable pub get_buffer : String → ℕ → Buffers → Buffer
unfolding is_at
get_buffer tree_id level bs = Option.get_or (find (is_at tree_id level) bs) (empty tree_id level)

-- INSERT … ON CONFLICT(tree_id, level) DO UPDATE.
unfoldable pub upsert_buffer : Buffer → Buffers → Buffers
unfolding is_at
upsert_buffer b [] = b ∷ []
upsert_buffer b (c ∷ bs) = if is_at b.tree_id b.level c then b ∷ bs else c ∷ upsert_buffer b bs

-- `starts_with` and `drain(..n)` together: what follows a prefix, if it is one.
unfoldable pub strip_prefix : List String → List String → Option (List String)
strip_prefix [] ys = some ys
strip_prefix (x ∷ xs) [] = none
strip_prefix (x ∷ xs) (y ∷ ys) = let rest = strip_prefix xs ys in if same x y then rest else none

pub data TreeError : Type 0 where
  buffer_changed tree_archived no_tree empty_inputs : TreeError

unfoldable pub consumed : Buffer → ℕ → List String → Buffer
consumed current spent [] = record current { item_ids = []; token_sum = 0; oldest_at = none }
consumed current spent (x ∷ rest) = record current {
  item_ids = x ∷ rest;
  token_sum = current.token_sum - spent;
}

unfoldable pub consume_snapshot : Buffer → Buffers → Result TreeError Buffers
unfolding strip_prefix consumed
consume_snapshot snapshot bs = do
  let current = get_buffer snapshot.tree_id snapshot.level bs
  rest ← ok_or buffer_changed (strip_prefix snapshot.item_ids current.item_ids)
  ok (upsert_buffer (consumed current snapshot.token_sum rest) bs)

unfoldable pub min_instant : Option ℕ → ℕ → Option ℕ
min_instant none ts = some ts
min_instant (some existing) ts = some (min existing ts)

-- The item pushed on the buffer, the tokens added and the oldest instant lowered.
unfoldable pub push_item : String → ℕ → ℕ → Buffer → Buffer
unfolding min_instant
push_item item token_delta ts b = record b {
  item_ids = b.item_ids ++ (item ∷ []);
  token_sum = saturating_add b.token_sum token_delta;
  oldest_at = min_instant b.oldest_at ts;
}

unfoldable pub should_seal : TreeConfig → Buffer → Bool
unfolding is_empty
should_seal config b =
    if is_empty b.item_ids
    then false
    else if b.level == 0
    then leb config.input_token_budget b.token_sum
    else leb config.summary_fanout (length b.item_ids % u32_mod)

is_stale_leaf : ℕ → Buffer → Bool
is_stale_leaf older_than b = elim b.oldest_at [
  | none ↦ false
  | some t ↦ leb t older_than && b.level == 0
]

oldest_of : Buffer → ℕ
oldest_of b = Option.get_or b.oldest_at 0

insert_oldest : Buffer → List Buffer → List Buffer
unfolding oldest_of
insert_oldest b [] = b ∷ []
insert_oldest b (c ∷ bs) =
    let later = c ∷ insert_oldest b bs in
    if ltb (oldest_of c) (oldest_of b) then later else b ∷ c ∷ bs

oldest_first : List Buffer → List Buffer
unfolding insert_oldest
oldest_first [] = []
oldest_first (b ∷ bs) = insert_oldest b (oldest_first bs)

unfoldable pub list_stale_buffers : ℕ → Buffers → List Buffer
unfolding is_stale_leaf oldest_first
list_stale_buffers older_than bs = oldest_first (keep (is_stale_leaf older_than) bs)
