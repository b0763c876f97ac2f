-- ===== src/Queue/Gate.antt =====
-- memory/queue/gate.rs: the counting gate for LLM-bound jobs. The state is the number of free slots;
-- a blocked `acquire` is one that has not stepped yet.
use tinycortex.Base.{ℕ, ◌+◌, ◌<◌, ◌≡◌, ◌≢◌, max, Option, zero, none, suc, some, arith, refl}

unfoldable pub new : ℕ → ℕ
new permits = max permits 1

unfoldable pub try_acquire : ℕ → Option ℕ
try_acquire zero = none
try_acquire (suc available) = some available

unfoldable pub release : ℕ → ℕ
release available = available + 1

-- The gate with the permits that tasks hold.
pub record Gate : Type 0 where
  pub available : ℕ
  pub held : ℕ

-- Tasks take and drop permits in any order.
pub data Step (g : Gate) : Gate → Type 0 where
  take :
      (n : ℕ)
      → try_acquire g.available ≡ some n
      → Step g (record { available = n; held = g.held + 1 })
  drop : (h : ℕ) → g.held ≡ suc h → Step g (record { available = release g.available; held = h })

pub data Reach (g : Gate) : Gate → Type 0 where
  here : Reach g g
  next : {h k : Gate} → Reach g h → Step h k → Reach g k

Step-total : {g h : Gate} → Step g h → h.available + h.held ≡ g.available + g.held
unfolding try_acquire release
Step-total {g} (take n e) = go g.available e
  where
    go : (a : ℕ) → try_acquire a ≡ some n → n + (g.held + 1) ≡ a + g.held
    go zero q = cc
    go (suc a) q = ground arith
Step-total (drop h e) = ground arith

Reach-total : {g h : Gate} → Reach g h → h.available + h.held ≡ g.available + g.held
Reach-total here = refl
Reach-total (next r s) = omega (arith, Step-total s, Reach-total r)

-- Whatever tasks do, the free and the held permits add up to the configured number, or one if that
-- is zero; so never more tasks hold a permit than are configured, a task is refused only while all
-- are held, and when none is held the gate is open.
pub gate_conserves :
    (permits : ℕ) (g : Gate)
    → Reach (record { available = new permits; held = 0 }) g
    → (g.available + g.held ≡ max permits 1)
      × (try_acquire g.available ≡ none → g.held ≡ max permits 1)
      × (g.held ≡ 0 → try_acquire g.available ≢ none)
unfolding new
gate_conserves permits g r =
    let total : g.available + g.held ≡ max permits 1 = omega (arith, Reach-total r) in
    (total, (λ e. refused g.available e total), λ e. open_gate g.available (omega (arith, total)))
  where
    refused : (a : ℕ) → try_acquire a ≡ none → a + g.held ≡ max permits 1 → g.held ≡ max permits 1
    refused zero e t = omega arith
    refused (suc a) e t = unfold try_acquire in cc

    open_gate : (a : ℕ) → 0 < a → try_acquire a ≢ none
    open_gate zero h e = absurd (omega arith)
    open_gate (suc a) h e = unfold try_acquire in cc
