-- ===== src/Sync/Tests.antt =====
-- The theorems on the state of a synchronization, run on a host that keeps one function of keys.
use tinycortex.Base.{
  ◌+◌, ◌-◌, ◌≡◌, ◌∙◌, ◌≢◌, ◌&&◌, ◌∷◌, ◌==◌, if◌then◌else◌, [], ℕ, ltb, leb, arith, Text, Option,
  Bool, same_text, some, none, ap, sym, same_text_refl, refl, true, same_text_eq, false, ok, any,
}
use tinycortex.Sync.State.{
  SyncState, Floats, new_state, remaining, roll, budget_remaining, budget_exhausted,
  default_daily_request_limit, sync_key,
}
use tinycortex.Sync.Persisted.{
  SyncStateStore, load, save, without_run, RoundTrips, Stores, load-save, save-load_other,
  state_namespace,
}
use tinycortex.Sync.Budgets.{Calls, used_on, after_calls, budget_remaining-after_calls}

abbrev dollars : Floats ℕ
dollars = record { none_spent = 0; is_positive = λ c. ltb 0 c; plus = λ a b. a + b }

abbrev calls : Calls
calls = (8, 40) ∷ (8, 470) ∷ (7, 30) ∷ []

budget_remaining-after_calls_example :
    (budget_remaining dollars 8 (after_calls dollars calls (new_state dollars 7 [] []))
      ≡ default_daily_request_limit - used_on 8 calls)
    × (budget_exhausted dollars 8 (after_calls dollars calls (new_state dollars 7 [] []))
        ≡ leb default_daily_request_limit (used_on 8 calls))
budget_remaining-after_calls_example =
    budget_remaining-after_calls dollars 7 8 [] [] calls
      (omega arith, (omega arith, (omega arith, omega arith)))

abbrev Host : Type 0
Host = Text → Text → Option (SyncState ℕ)

abbrev same_place : Text → Text → Text → Text → Bool
same_place n k m j = same_text n m && same_text k j

abbrev host : SyncStateStore ℕ Host (SyncState ℕ)
host = record {
  get = λ n k h. some (h n k);
  set = λ n k v h. some (λ m j. if same_place n k m j then some v else h m j);
  to_value = λ s. some (without_run dollars s);
  from_value = λ v. some v;
}

abbrev value_of : {A : Type 0} → A → Option A → A
value_of d none = d
value_of d (some a) = a

host-RoundTrips : RoundTrips dollars host
host-RoundTrips s v e = ap some (ap (value_of v) (sym e))

host-Stores : Stores dollars host
host-Stores = (
  λ n k v h h' e. ap some (seen n k v h h' (ap (value_of h) e)),
  λ n k j v h h' e d. ap some (unseen n k j v h h' (ap (value_of h) e) d),
)
  where
    seen :
        (n k : Text) (v : SyncState ℕ) (h h' : Host)
        → (λ m j. if same_place n k m j then some v else h m j) ≡ h'
        → h' n k ≡ some v
    seen n k v h h' e = sym (ap (λ g. g n k) e) ∙ (rw (same_text_refl n, same_text_refl k) refl)

    unseen :
        (n k j : Text) (v : SyncState ℕ) (h h' : Host)
        → (λ m i. if same_place n k m i then some v else h m i) ≡ h'
        → k ≢ j
        → h' n j ≡ h n j
    unseen n k j v h h' e d = sym (ap (λ g. g n j) e) ∙ go (same_text n n) (same_text k j) refl
      where
        go : (a b : Bool) → same_text k j ≡ b → (if a && b then some v else h n j) ≡ h n j
        go true true q = absurd (d (same_text_eq k j q))
        go true false q = refl
        go false b q = refl

-- A state of the connection "g:1" with one item seen.
abbrev mail : SyncState ℕ
mail = new_state dollars 7 (103 ∷ []) (49 ∷ [])

abbrev nothing : Host
nothing = λ n k. none

abbrev kept : Host
kept = λ m j.
    if same_place state_namespace (103 ∷ 58 ∷ 49 ∷ []) m j
    then some (without_run dollars mail)
    else none

saves : save dollars host mail nothing ≡ ok kept
unfolding save sync_key
saves = refl

load-save_example :
    (t : SyncState ℕ) × (load dollars host 8 (103 ∷ []) (49 ∷ []) kept ≡ ok t)
    × (t ≡ record (without_run dollars mail) { daily_budget = roll 8 mail.daily_budget })
    × (remaining 8 t.daily_budget ≡ remaining 8 mail.daily_budget)
load-save_example = load-save dollars host host-RoundTrips host-Stores mail 8 nothing kept saves

other_connection : ¬ ((mail.toolkit ≡ (103 ∷ [])) × (mail.connection_id ≡ (50 ∷ [])))
other_connection h = ground (arith, ap (any (λ c. c == 50)) h.1)

save-load_other_example :
    load dollars host 8 (103 ∷ []) (50 ∷ []) kept ≡ load dollars host 8 (103 ∷ []) (50 ∷ []) nothing
save-load_other_example =
    save-load_other dollars host host-Stores mail (103 ∷ []) (50 ∷ []) 8 nothing kept refl refl
      other_connection saves
