-- ===== src/Chunks/Breaker.antt =====
-- memory/chunks/connection_breaker.rs: the breaker of the initialization of one database. An instant
-- is a number of milliseconds, and `elapsed` is taken at an instant that is given.
use tinycortex.Base.{
  ◌+◌, ◌-◌, ◌≡◌, ◌&&◌, ◌∷◌, if◌then◌else◌, [], ℕ, Bool, Option, false, none, min, u32_mod, leb, not,
  true, some, ltb, List, suc, refl, ◌≤◌, ◌∙◌, ◌==◌, arith, ap,
}

abbrev pub cb_threshold : ℕ
cb_threshold = 3

abbrev pub cb_cooldown : ℕ
cb_cooldown = 30000

pub record BreakerState : Type 0 where
  pub consecutive_failures : ℕ
  pub tripped : Bool
  pub last_trip : Option ℕ

abbrev pub new_breaker : BreakerState
new_breaker = record { consecutive_failures = 0; tripped = false; last_trip = none }

-- Whether a tripped breaker recovered, and the new state.
unfoldable pub record_success : BreakerState → Bool × BreakerState
record_success s =
    (s.tripped, record { consecutive_failures = 0; tripped = false; last_trip = none })

-- Whether this failure tripped the breaker, and the new state.
unfoldable pub record_failure : ℕ → BreakerState → Bool × BreakerState
record_failure now s =
    let count = min (s.consecutive_failures + 1) (u32_mod - 1) in
    (
      leb cb_threshold count && not s.tripped,
      if leb cb_threshold count
          then record { consecutive_failures = count; tripped = true; last_trip = some now }
          else record s { consecutive_failures = count },
    )

unfoldable pub is_open : ℕ → BreakerState → Bool
is_open now s =
    if not s.tripped
    then false
    else elim s.last_trip [ none ↦ false | some at ↦ ltb (now - at) cb_cooldown ]

-- An attempt at initialization, with the instant of its failure.
pub data Attempt : Type 0 where
  succeeded : Attempt
  failed_at : ℕ → Attempt

-- The breaker after attempts, the newest first.
unfoldable pub after : List Attempt → BreakerState
unfolding record_success record_failure
after [] = new_breaker
after (succeeded ∷ es) = (record_success (after es)).1
after (failed_at now ∷ es) = (record_failure now (after es)).1

-- The failures since the last success.
abbrev pub failures : List Attempt → ℕ
failures [] = 0
failures (succeeded ∷ es) = 0
failures (failed_at now ∷ es) = suc (failures es)

-- The newest attempt is a failure within the cooldown.
abbrev pub failed_recently : ℕ → List Attempt → Bool
failed_recently now (failed_at t ∷ es) = ltb (now - t) cb_cooldown
failed_recently now _ = false

abbrev newest_failure : List Attempt → Option ℕ
newest_failure (failed_at t ∷ es) = if leb 2 (failures es) then some t else none
newest_failure _ = none

newest_failure-none : (es : List Attempt) → failures es ≤ 2 → newest_failure es ≡ none
newest_failure-none [] h = refl
newest_failure-none (succeeded ∷ es) h = refl
newest_failure-none (failed_at t ∷ es) h = go (leb 2 (failures es)) refl
  where
    go : (b : Bool) → leb 2 (failures es) ≡ b → (if b then some t else none) ≡ none
    go true e = ground (arith, e, h)
    go false e = refl

-- A state that a count, a flag and an instant make.
state : ℕ → Bool → Option ℕ → BreakerState
state n b o = record { consecutive_failures = n; tripped = b; last_trip = o }

step_lem :
    (t n : ℕ) (last : Option ℕ)
    → (n ≤ 2 → last ≡ none)
    → (record_failure t (state (min n (u32_mod - 1)) (leb 3 n) last)).1
      ≡ state (min (suc n) (u32_mod - 1)) (leb 3 (suc n)) (if leb 2 n then some t else none)
unfolding record_failure state
step_lem t n last h = go (leb 3 count) refl
  where
    count : ℕ
    count = min (min n (u32_mod - 1) + 1) (u32_mod - 1)

    same_count : count ≡ min (suc n) (u32_mod - 1)
    same_count = omega arith

    go :
        (b : Bool)
        → leb 3 count ≡ b
        → (if b then state count true (some t) else state count (leb 3 n) last)
          ≡ state (min (suc n) (u32_mod - 1)) (leb 3 (suc n)) (if leb 2 n then some t else none)
    go true e = rw (same_count, many, many') refl
      where
        many : leb 3 (suc n) ≡ true
        many = ground (arith, e)

        many' : leb 2 n ≡ true
        many' = ground (arith, e)
    go false e = rw (same_count, h (ground (arith, e)), few, few', few'') refl
      where
        few : leb 3 (suc n) ≡ false
        few = ground (arith, e)

        few' : leb 2 n ≡ false
        few' = ground (arith, e)

        few'' : leb 3 n ≡ false
        few'' = ground (arith, e)

after_lem :
    (es : List Attempt)
    → after es ≡ state (min (failures es) (u32_mod - 1)) (leb 3 (failures es)) (newest_failure es)
unfolding after record_success state
after_lem [] = refl
after_lem (succeeded ∷ es) = refl
after_lem (failed_at t ∷ es) =
    ap (λ s. (record_failure t s).1) (after_lem es)
    ∙ step_lem t (failures es) (newest_failure es) (newest_failure-none es)

-- After any attempts, the breaker is open exactly if the last three attempts or more failed and the
-- newest failure is within the cooldown; a further failure reports a trip exactly if it is the
-- third in a row, and a success reports a recovery exactly if three or more had failed.
pub is_open-after :
    (es : List Attempt) (now : ℕ)
    → (is_open now (after es) ≡ leb 3 (failures es) && failed_recently now es)
      × ((record_failure now (after es)).0 ≡ failures es == 2)
      × ((record_success (after es)).0 ≡ leb 3 (failures es))
unfolding is_open record_failure record_success state
is_open-after es now = (
  rw (after_lem es) (opens es),
  (rw (after_lem es) (trips (failures es))),
  (rw (after_lem es) refl),
)
  where
    at_trip :
        (n t : ℕ) (b : Bool)
        → is_open now (state n b (if b then some t else none)) ≡ b && ltb (now - t) cb_cooldown
    at_trip n t true = refl
    at_trip n t false = refl

    three : (n : ℕ) → leb 3 (suc n) ≡ leb 2 n
    three n = ground arith

    opens :
        (es : List Attempt)
        → is_open now
            (state (min (failures es) (u32_mod - 1)) (leb 3 (failures es)) (newest_failure es))
          ≡ leb 3 (failures es) && failed_recently now es
    opens [] = refl
    opens (succeeded ∷ es) = refl
    opens (failed_at t ∷ es) =
        rw (three (failures es))
          (at_trip (min (suc (failures es)) (u32_mod - 1)) t (leb 2 (failures es)))

    trips : (n : ℕ) → leb 3 (min (min n (u32_mod - 1) + 1) (u32_mod - 1)) && not (leb 3 n) ≡ n == 2
    trips n = ground arith
