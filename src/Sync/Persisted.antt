-- ===== src/Sync/Persisted.antt =====
-- memory/sync/state.rs, `SyncState::load` and `save` over a host's store.
use tinycortex.Base.{
  ◌-◌, ◌≡◌, ◌≢◌, ◌∷◌, ◌==◌, if◌then◌else◌, [], ◌>>=◌, Text, Option, ℕ, Result, none, ok, some,
  ok_or, arith, ap, is_ok, refl, Bool, not, true, false, ◌||◌, any, drop, sym, ok_or-ok,
}
use tinycortex.Sync.State.{SyncState, Floats, DailyBudget, new_state, sync_key, roll, remaining}

-- The trait `SyncStateStore`, over the state of the host, and serde's conversions of a state.
pub record SyncStateStore (Cost Host Value : Type 0) : Type 0 where
  pub get : Text → Text → Host → Option (Option Value)
  pub set : Text → Text → Value → Host → Option Host
  pub to_value : SyncState Cost → Option Value
  pub from_value : Value → Option (SyncState Cost)

pub data SyncError : Type 0 where
  store_failed invalid_value : SyncError

-- "composio-sync-state"
abbrev pub state_namespace : Text
state_namespace =
    99 ∷ 111 ∷ 109 ∷ 112 ∷ 111 ∷ 115 ∷ 105 ∷ 111 ∷ 45 ∷ 115 ∷ 121 ∷ 110 ∷ 99 ∷ 45 ∷ 115 ∷ 116 ∷ 97
    ∷ 116 ∷ 101 ∷ []

abbrev head_or : ℕ → Text → ℕ
head_or d [] = d
head_or d (c ∷ cs) = c

-- Texts without a colon before a colon are the same, and so is what follows.
sync_key_lem :
    (s t u v : Text)
    → any (λ c. c == 58) s ≡ false
    → any (λ c. c == 58) t ≡ false
    → sync_key s u ≡ sync_key t v
    → (s ≡ t) × (u ≡ v)
unfolding sync_key
sync_key_lem [] [] u v a b e = (refl, ap (drop 1) e)
sync_key_lem [] (y ∷ t) u v a b e = ground (arith, b, sym (ap (head_or 0) e))
sync_key_lem (x ∷ s) [] u v a b e = ground (arith, a, ap (head_or 0) e)
sync_key_lem (x ∷ s) (y ∷ t) u v a b e =
    let (p, q) =
      sync_key_lem s t u v (right (x == 58) (any (λ c. c == 58) s) a)
        (right (y == 58) (any (λ c. c == 58) t) b) (ap (drop 1) e) in
    let heads : x ≡ y = ap (head_or 0) e in (rw (heads, p) refl, q)
  where
    right : (x y : Bool) → x || y ≡ false → y ≡ false
    right true y h = ground (arith, h)
    right false y h = h

module _ {Cost : Type 0} (f : Floats Cost) where
  -- The counters of one run are not stored: `serde(skip)`.
  abbrev pub without_run : SyncState Cost → SyncState Cost
  without_run s = record s { run_requests = 0; run_provider_cost_usd = f.none_spent }

module _ {Cost Host Value : Type 0} (f : Floats Cost) (o : SyncStateStore Cost Host Value) where
  -- The budget of another day is reset when a state is loaded.
  unfoldable pub read_state : ℕ → Text → Text → Option Value → Result SyncError (SyncState Cost)
  unfolding roll
  read_state today toolkit connection_id none = ok (new_state f today toolkit connection_id)
  read_state today toolkit connection_id (some value) = do
    state ← ok_or invalid_value (o.from_value value)
    ok (record state { daily_budget = roll today state.daily_budget })

  unfoldable pub load : ℕ → Text → Text → Host → Result SyncError (SyncState Cost)
  unfolding sync_key read_state
  load today toolkit connection_id h = do
    found ← ok_or store_failed (o.get state_namespace (sync_key toolkit connection_id) h)
    read_state today toolkit connection_id found

  unfoldable pub save : SyncState Cost → Host → Result SyncError Host
  unfolding sync_key
  save s h = do
    value ← ok_or invalid_value (o.to_value s)
    ok_or store_failed (o.set state_namespace (sync_key s.toolkit s.connection_id) value h)

  -- What serde documents: a value made of a state is read back, less the skipped fields.
  abbrev pub RoundTrips : Type 0
  RoundTrips =
      (s : SyncState Cost) (v : Value)
      → o.to_value s ≡ some v
      → o.from_value v ≡ some (without_run f s)

  -- What a store of keys and values is: a set is seen under its key, and under no other.
  abbrev pub Stores : Type 0
  Stores =
      ((n k : Text) (v : Value) (h h' : Host)
        → o.set n k v h ≡ some h'
        → o.get n k h' ≡ some (some v))
      × ((n k j : Text) (v : Value) (h h' : Host)
          → o.set n k v h ≡ some h'
          → k ≢ j
          → o.get n j h' ≡ o.get n j h)

  saved :
      (s : SyncState Cost) (h h' : Host)
      → save s h ≡ ok h'
      → (v : Value) × (o.to_value s ≡ some v)
        × (o.set state_namespace (sync_key s.toolkit s.connection_id) v h ≡ some h')
  unfolding save
  saved s h h' e = go (o.to_value s) refl e
    where
      go :
          (x : Option Value)
          → o.to_value s ≡ x
          → ok_or invalid_value x >>= (λ v.
            ok_or store_failed (o.set state_namespace (sync_key s.toolkit s.connection_id) v h))
            ≡ ok h'
          → (v : Value) × (o.to_value s ≡ some v)
            × (o.set state_namespace (sync_key s.toolkit s.connection_id) v h ≡ some h')
      go none d e = ground (arith, ap is_ok e)
      go (some v) d e = (
        v,
        d,
        ok_or-ok store_failed (o.set state_namespace (sync_key s.toolkit s.connection_id) v h) h' e,
      )

  -- A state that was saved is loaded back with the counters of its run at zero, and with the budget
  -- of its day, or a fresh one if the day is another: so the budget that remains on the day of the
  -- load is the one that remained before the save. Serde and the host's store are taken to keep
  -- what they are given.
  pub load-save :
      RoundTrips
      → Stores
      → (s : SyncState Cost) (today : ℕ) (h h' : Host) → save s h ≡ ok h'
      → (t : SyncState Cost) × (load today s.toolkit s.connection_id h' ≡ ok t)
        × (t ≡ record (without_run f s) { daily_budget = roll today s.daily_budget })
        × (remaining today t.daily_budget ≡ remaining today s.daily_budget)
  unfolding load read_state remaining roll
  load-save round stores s today h h' e =
      let (v, d, k) = saved s h h' e in
      (
        record (without_run f s) { daily_budget = roll today s.daily_budget },
        (rw (stores.0 state_namespace (sync_key s.toolkit s.connection_id) v h h' k, round s v d)
            refl),
        refl,
        rolled s.daily_budget,
      )
    where
      rolled : (b : DailyBudget) → remaining today (roll today b) ≡ remaining today b
      rolled b = go (b.date == today) refl
        where
          go :
              (x : Bool)
              → b.date == today ≡ x
              → remaining today (if not x then record b { date = today; requests_used = 0 } else b)
                ≡ (if not x then b.limit else b.limit - b.requests_used)
          go true x = rw x refl
          go false x = rw self (omega arith)
            where
              self : today == today ≡ true
              self = ground arith

  -- Saving the state of one connection leaves what is loaded for every other connection, for
  -- toolkits whose names have no colon: their keys never meet.
  pub save-load_other :
      Stores
      → (s : SyncState Cost) (toolkit connection_id : Text) (today : ℕ) (h h' : Host)
      → any (λ c. c == 58) s.toolkit ≡ false
      → any (λ c. c == 58) toolkit ≡ false
      → ¬ ((s.toolkit ≡ toolkit) × (s.connection_id ≡ connection_id))
      → save s h ≡ ok h'
      → load today toolkit connection_id h' ≡ load today toolkit connection_id h
  unfolding load
  save-load_other stores s toolkit connection_id today h h' a b n e =
      let (v, d, k) = saved s h h' e in
      rw
        (stores.1 state_namespace (sync_key s.toolkit s.connection_id)
          (sync_key toolkit connection_id) v h h' k
          (λ q. n (sync_key_lem s.toolkit toolkit s.connection_id connection_id a b q)))
        refl
