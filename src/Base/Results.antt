-- ===== src/Base/Results.antt =====
-- Rust's `Result<A, E>` with the `?` operator as a monad, and Rust's decimal `Display`.
use Prim.Native.Nat.{ℕ, zero, suc, ◌+◌, ◌/◌, ◌%◌, min}
use Prim.Native.String.{String, ◌++◌}
use mathlib.Core.Path.{◌≡◌, refl, ap}
use native.Mathlib.Omega.{arith}
use mathlib.Core.Bool.{Bool, true, false}
use mathlib.Core.Option.{Option, none, some}
use tinycortex.Base.Tests.{if◌then◌else◌, ◌==◌}

pub data Result {ℓ κ} (E : Type ℓ) (A : Type κ) : Type (ℓ ⊔ κ) where
  ok : A → Result E A
  err : E → Result E A

infixl 5 ◌>>=◌
abbrev pub ◌>>=◌ {ℓ κ μ} :
    {E : Type ℓ} {A : Type κ} {B : Type μ} → Result E A → (A → Result E B) → Result E B
ok a >>= f = f a
err e >>= f = err e

abbrev pub ok_or {ℓ κ} : {E : Type ℓ} {A : Type κ} → E → Option A → Result E A
ok_or e none = err e
ok_or e (some a) = ok a

abbrev pub is_ok {ℓ κ} : {E : Type ℓ} {A : Type κ} → Result E A → Bool
is_ok (ok a) = true
is_ok (err e) = false

abbrev pub i64_max : ℕ
i64_max = 9223372036854775807

abbrev pub u32_mod : ℕ
u32_mod = 4294967296

-- `i64::saturating_add` on numbers that are not negative.
abbrev pub saturating_add : ℕ → ℕ → ℕ
saturating_add a b = min (a + b) i64_max

digit : ℕ → String
digit d =
    if d == 0
    then "0"
    else if d == 1
    then "1"
    else if d == 2
    then "2"
    else if d == 3
    then "3"
    else if d == 4
    then "4"
    else if d == 5
    then "5"
    else if d == 6
    then "6"
    else if d == 7
    then "7"
    else if d == 8
    then "8"
    else "9"

show_from : ℕ → ℕ → String → String
show_from zero n acc = acc
show_from (suc fuel) n acc =
    let shown = digit (n % 10) ++ acc in
    let rest = show_from fuel (n / 10) shown in if n / 10 == 0 then shown else rest

-- The digits of a number below 2 ^ 64: twenty rounds are enough.
unfoldable pub show : ℕ → String
unfolding show_from digit
show n = show_from 20 n ""

-- A chain that returns: each part does.
pub bind-ok {ℓ κ μ} :
    {E : Type ℓ} {A : Type κ} {B : Type μ} (r : Result E A) (f : A → Result E B) (b : B)
    → r >>= f ≡ ok b
    → (a : A) × (r ≡ ok a) × (f a ≡ ok b)
bind-ok (ok a) f b h = (a, refl, h)
bind-ok (err e) f b h = ground (arith, ap is_ok h)

pub ok_or-ok {ℓ κ} :
    {E : Type ℓ} {A : Type κ} (e : E) (x : Option A) (y : A) → ok_or e x ≡ ok y → x ≡ some y
ok_or-ok e none y h = ground (arith, ap is_ok h)
ok_or-ok e (some x) y h = ap (λ r. elim r [ ok z ↦ some z | err m ↦ some x ]) h
