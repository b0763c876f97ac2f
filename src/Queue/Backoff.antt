-- ===== src/Queue/Backoff.antt =====
-- The retry delay of memory/queue/store.rs.
use tinycortex.Queue.Store.{backoff_ms}
use tinycortex.Base.{◌+◌, ◌-◌, ◌*◌, ◌^◌, ◌≤◌, ◌≡◌, ℕ, zero, arith, suc, i64_max, min}
use native.Mathlib.Nat.{pow-suc}

pow_pos : (k : ℕ) → 1 ≤ 2 ^ k
pow_pos zero = omega arith
pow_pos (suc k) = rw pow-suc (omega (arith, pow_pos k))

pow_mono : (j k : ℕ) → j ≤ k → 2 ^ j ≤ 2 ^ k
pow_mono zero k h = pow_pos k
pow_mono (suc j) (suc k) h = rw (pow-suc, pow-suc) (omega (arith, pow_mono j k (omega arith)))
pow_mono (suc j) zero h = absurd (omega arith)

scaled_mono : (b x y : ℕ) → x ≤ y → b * x ≤ b * y
scaled_mono b x y h = grind arith

-- The delay lies between the base and the cap, does not fall from one attempt to the next, is the
-- base after the first attempt, and up to the twenty-first attempt is the doubled base cut at the
-- cap, so that saturation changes nothing there: for any base up to a cap that fits an `i64`.
pub backoff_ms_lem :
    (n base cap : ℕ)
    → base ≤ cap
    → cap ≤ i64_max
    → (base ≤ backoff_ms n base cap)
      × (backoff_ms n base cap ≤ cap)
      × (backoff_ms n base cap ≤ backoff_ms (n + 1) base cap)
      × (backoff_ms 1 base cap ≡ base)
      × (n ≤ 21 → backoff_ms n base cap ≡ min (base * 2 ^ (n - 1)) cap)
unfolding backoff_ms
backoff_ms_lem n base cap h k =
    let e = min (n - 1) 20 in
    let one = scaled_mono base 1 (2 ^ e) (pow_pos e) in
    let up =
      scaled_mono base (2 ^ e) (2 ^ min (n + 1 - 1) 20)
        (pow_mono e (min (n + 1 - 1) 20) (omega arith)) in
    (
      omega arith,
      omega arith,
      omega arith,
      omega arith,
      λ b. let same_exp : min (n - 1) 20 ≡ n - 1 = omega arith in rw same_exp (omega arith),
    )
