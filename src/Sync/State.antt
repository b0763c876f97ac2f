-- ===== src/Sync/State.antt =====
-- memory/sync/state.rs: cursors, deduplication and the daily budget. A formatted date is a number,
-- read only by equality. The sets and maps are lists without a repeated key.
use tinycortex.Base.{
  ◌+◌, ◌-◌, ◌∷◌, ◌++◌, ◌==◌, if◌then◌else◌, [], ℕ, not, Bool, min, u32_mod, Text, Option, List,
  none, any, same_text, some, max,
}

pub record DailyBudget : Type 0 where
  pub date : ℕ
  pub requests_used : ℕ
  pub limit : ℕ

abbrev pub default_daily_request_limit : ℕ
default_daily_request_limit = 500

abbrev pub new_budget : ℕ → DailyBudget
new_budget today = record { date = today; requests_used = 0; limit = default_daily_request_limit }

unfoldable pub remaining : ℕ → DailyBudget → ℕ
remaining today b = if not (b.date == today) then b.limit else b.limit - b.requests_used

unfoldable pub is_exhausted : ℕ → DailyBudget → Bool
unfolding remaining
is_exhausted today b = remaining today b == 0

-- `u32::saturating_add`.
abbrev pub add_u32 : ℕ → ℕ → ℕ
add_u32 a b = min (a + b) (u32_mod - 1)

-- Another day starts from zero.
unfoldable pub roll : ℕ → DailyBudget → DailyBudget
roll today b = if not (b.date == today) then record b { date = today; requests_used = 0 } else b

unfoldable pub record_budget : ℕ → ℕ → DailyBudget → DailyBudget
unfolding roll
record_budget today count b = record (roll today b) {
  requests_used = add_u32 (roll today b).requests_used count;
}

-- The arithmetic of f64: which costs are finite and positive, and their sum.
pub record Floats (Cost : Type 0) : Type 0 where
  pub none_spent : Cost
  pub is_positive : Cost → Bool
  pub plus : Cost → Cost → Cost

pub record SyncState (Cost : Type 0) : Type 0 where
  pub toolkit : Text
  pub connection_id : Text
  pub cursor : Option Text
  pub synced_ids : List Text
  pub item_versions : List (Text × Text)
  pub daily_budget : DailyBudget
  pub last_seen_id : Option Text
  pub last_sync_at_ms : Option ℕ
  pub run_requests : ℕ
  pub run_provider_cost_usd : Cost

-- `format!("{toolkit}:{connection_id}")`.
unfoldable pub sync_key : Text → Text → Text
sync_key toolkit connection_id = toolkit ++ (58 ∷ connection_id)

module _ {Cost : Type 0} (f : Floats Cost) where
  abbrev pub new_state : ℕ → Text → Text → SyncState Cost
  new_state today toolkit connection_id = record {
    toolkit = toolkit;
    connection_id = connection_id;
    cursor = none;
    synced_ids = [];
    item_versions = [];
    daily_budget = new_budget today;
    last_seen_id = none;
    last_sync_at_ms = none;
    run_requests = 0;
    run_provider_cost_usd = f.none_spent;
  }

  unfoldable pub is_synced : Text → SyncState Cost → Bool
  is_synced id s = any (same_text id) s.synced_ids

  unfoldable pub mark_synced : Text → SyncState Cost → SyncState Cost
  unfolding is_synced
  mark_synced id s = if is_synced id s then s else record s { synced_ids = id ∷ s.synced_ids }

  unfoldable pub advance_cursor : Text → SyncState Cost → SyncState Cost
  advance_cursor cursor s = record s { cursor = some cursor }

  unfoldable pub set_last_seen_id : Text → SyncState Cost → SyncState Cost
  set_last_seen_id id s = record s { last_seen_id = some id }

  unfoldable pub set_last_sync_at_ms : ℕ → SyncState Cost → SyncState Cost
  set_last_sync_at_ms at s = record s { last_sync_at_ms = some at }

  unfoldable pub record_requests : ℕ → ℕ → SyncState Cost → SyncState Cost
  unfolding record_budget
  record_requests today count s = record s {
    daily_budget = record_budget today count s.daily_budget;
    run_requests = add_u32 s.run_requests count;
  }

  -- At least one request is counted for an action.
  unfoldable pub record_action : ℕ → ℕ → Cost → SyncState Cost → SyncState Cost
  unfolding record_requests
  record_action today attempts cost s =
      let counted = record_requests today (max attempts 1) s in
      if f.is_positive cost
      then record counted { run_provider_cost_usd = f.plus counted.run_provider_cost_usd cost }
      else counted

  unfoldable pub budget_remaining : ℕ → SyncState Cost → ℕ
  unfolding remaining
  budget_remaining today s = remaining today s.daily_budget

  unfoldable pub budget_exhausted : ℕ → SyncState Cost → Bool
  unfolding is_exhausted
  budget_exhausted today s = is_exhausted today s.daily_budget
