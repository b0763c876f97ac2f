-- ===== src/Sync/Budgets.antt =====
-- What the daily budget of memory/sync/state.rs counts.
use tinycortex.Base.{
  ◌+◌, ◌-◌, ◌≤◌, ◌<◌, ◌≡◌, ◌∷◌, ◌==◌, if◌then◌else◌, [], List, ℕ, refl, arith, Bool, true, false,
  min, u32_mod, not, ◌∙◌, ap, Text, leb,
}
use tinycortex.Sync.State.{
  SyncState, Floats, DailyBudget, remaining, is_exhausted, roll, record_budget, record_requests,
  add_u32, budget_remaining, budget_exhausted, new_state, default_daily_request_limit, new_budget,
}

-- Requests recorded, the newest first: the day of each and their number.
abbrev pub Calls : Type 0
Calls = List (ℕ × ℕ)

-- The days do not go back, from the first day to a last one.
abbrev pub InOrder : ℕ → Calls → ℕ → Type 0
InOrder start [] last = start ≤ last
InOrder start ((day, count) ∷ calls) last = (day ≤ last) × InOrder start calls day

-- The requests recorded on a day.
abbrev pub used_on : ℕ → Calls → ℕ
used_on day [] = 0
used_on day ((d, count) ∷ calls) = if d == day then count + used_on day calls else used_on day calls

used_on-hit :
    (d x count : ℕ) (calls : Calls)
    → x ≡ d
    → used_on x ((d, count) ∷ calls) ≡ count + used_on x calls
used_on-hit d x count calls e = ground (arith, e)

used_on-miss :
    (d x count : ℕ) (calls : Calls) → d < x → used_on x ((d, count) ∷ calls) ≡ used_on x calls
used_on-miss d x count calls e = ground (arith, e)

abbrev budget_after : ℕ → Calls → DailyBudget → DailyBudget
budget_after start [] b = b
budget_after start ((day, count) ∷ calls) b = record_budget day count (budget_after start calls b)

-- The date is a day that is not past the last call, and what is used is the sum of that day.
Counts : ℕ → DailyBudget → Calls → ℕ → Type 0
Counts limit b calls last =
    (b.date ≤ last)
    × (b.limit ≡ limit)
    × (b.requests_used ≡ min (used_on b.date calls) (u32_mod - 1))
    × ((day : ℕ) → b.date < day → used_on day calls ≡ 0)

record_budget-Counts :
    (limit start day count : ℕ) (calls : Calls) (last : ℕ) (b : DailyBudget)
    → last ≤ day
    → Counts limit b calls last
    → Counts limit (record_budget day count b) ((day, count) ∷ calls) day
unfolding record_budget roll Counts
record_budget-Counts limit start day count calls last b o (d, l, u, z) = go (b.date == day) refl
  where
    Goal : DailyBudget → Type 0
    Goal r =
        (r.date ≤ day)
        × (r.limit ≡ limit)
        × (add_u32 r.requests_used count
            ≡ min (used_on r.date ((day, count) ∷ calls)) (u32_mod - 1))
        × ((x : ℕ) → r.date < x → used_on x ((day, count) ∷ calls) ≡ 0)

    go :
        (e : Bool)
        → b.date == day ≡ e
        → Goal (if not e then record b { date = day; requests_used = 0 } else b)
    go true e = (
      omega (arith, d, o),
      l,
      omega (arith, u, used_on-hit day b.date count calls (ground (arith, e))),
      λ x k. used_on-miss day x count calls (ground (arith, e, k)) ∙ z x k,
    )
    go false e = (
      omega arith,
      l,
      omega (arith, used_on-hit day day count calls refl, z day (ground (arith, e, d, o))),
      λ x k. used_on-miss day x count calls k ∙ z x (omega (arith, k, d, o)),
    )

budget_after-Counts :
    (start : ℕ) (calls : Calls) (last : ℕ) (b : DailyBudget)
    → InOrder start calls last
    → b.date ≤ start
    → b.requests_used ≡ 0
    → Counts b.limit (budget_after start calls b) calls last
unfolding Counts
budget_after-Counts start [] last b h d u =
    (omega (arith, h, d), refl, omega (arith, u), λ x k. refl)
budget_after-Counts start ((day, count) ∷ calls) last b h d u =
    let ih = budget_after-Counts start calls day b h.1 d u in
    let (e, l, n, z) =
      record_budget-Counts b.limit start day count calls day (budget_after start calls b)
        (omega arith) ih in
    (omega (arith, e, h.0), l, n, z)

module _ {Cost : Type 0} (f : Floats Cost) where
  -- A state with calls recorded from a start day on.
  abbrev pub after_calls : Calls → SyncState Cost → SyncState Cost
  after_calls [] s = s
  after_calls ((day, count) ∷ calls) s = record_requests f day count (after_calls calls s)

  after_calls-budget :
      (start : ℕ) (calls : Calls) (s : SyncState Cost)
      → (after_calls calls s).daily_budget ≡ budget_after start calls s.daily_budget
  unfolding record_requests
  after_calls-budget start [] s = refl
  after_calls-budget start ((day, count) ∷ calls) s =
      ap (record_budget day count) (after_calls-budget start calls s)

  remaining_lem :
      (limit : ℕ) (today : ℕ) (b : DailyBudget) (calls : Calls)
      → limit < u32_mod
      → Counts limit b calls today
      → remaining today b ≡ limit - used_on today calls
  unfolding remaining Counts
  remaining_lem limit today b calls low (d, l, u, z) = go (b.date == today) refl
    where
      go :
          (e : Bool)
          → b.date == today ≡ e
          → (if not e then b.limit else b.limit - b.requests_used) ≡ limit - used_on today calls
      go true e = omega (arith, l, u, low, ap (λ x. used_on x calls) (same_day e))
        where
          same_day : b.date == today ≡ true → b.date ≡ today
          same_day e = ground (arith, e)
      go false e = omega (arith, l, z today (ground (arith, e, d)))

  -- Whatever requests are recorded from the day a state is made, on days that do not go back, what
  -- remains on a day is the limit of 500 less the requests recorded on that same day, down to zero,
  -- and the budget is exhausted exactly if nothing remains. This holds past the maximum of the
  -- counter, which saturates.
  pub budget_remaining-after_calls :
      (start today : ℕ) (toolkit connection_id : Text) (calls : Calls)
      → InOrder start calls today
      → let s = after_calls calls (new_state f start toolkit connection_id) in
        (budget_remaining f today s ≡ default_daily_request_limit - used_on today calls)
        × (budget_exhausted f today s ≡ leb default_daily_request_limit (used_on today calls))
  unfolding budget_remaining budget_exhausted is_exhausted
  budget_remaining-after_calls start today toolkit connection_id calls h =
      (left, rw left (none_left (used_on today calls)))
    where
      s : SyncState Cost
      s = after_calls calls (new_state f start toolkit connection_id)

      left : remaining today s.daily_budget ≡ 500 - used_on today calls
      left = rw (after_calls-budget start calls (new_state f start toolkit connection_id)) (
          remaining_lem 500 today (budget_after start calls (new_budget start)) calls (omega arith)
            (budget_after-Counts start calls today (new_budget start) h (omega arith) refl))

      none_left : (u : ℕ) → 500 - u == 0 ≡ leb 500 u
      none_left u = ground arith
