-- ===== src/Base/Trimmed.antt =====
-- `trim` leaves a text that it has trimmed.
use Prim.Native.Nat.{◌≤◌}
use mathlib.Core.Path.{◌≡◌, refl, sym, ap, ◌∙◌}
use mathlib.Core.Bool.{Bool, true, false}
use mathlib.Core.List.{[], ◌∷◌, ◌++◌, reverse, reverse-append, reverse-reverse}
use native.Mathlib.Omega.{arith}
use tinycortex.Base.Tests.{if◌then◌else◌}
use tinycortex.Base.Lists.{length}
use tinycortex.Base.Texts.{Text, is_whitespace, trim_start, trim}

trim_start_twice : (t : Text) → trim_start (trim_start t) ≡ trim_start t
unfolding trim_start
trim_start_twice [] = refl
trim_start_twice (c ∷ cs) = go (is_whitespace c) refl (trim_start_twice cs)
  where
    go :
        (b : Bool)
        → is_whitespace c ≡ b
        → trim_start (trim_start cs) ≡ trim_start cs
        → trim_start (if b then trim_start cs else c ∷ cs) ≡ (if b then trim_start cs else c ∷ cs)
    go true e h = h
    go false e h = rw e refl

-- What is trimmed off stands in front.
trim_start-suffix : (t : Text) → (w : Text) × (t ≡ w ++ trim_start t)
unfolding trim_start
trim_start-suffix [] = ([], refl)
trim_start-suffix (c ∷ cs) = go (is_whitespace c) (trim_start-suffix cs)
  where
    go :
        (b : Bool)
        → (w : Text) × (cs ≡ w ++ trim_start cs)
        → (w : Text) × ((c ∷ cs) ≡ w ++ (if b then trim_start cs else c ∷ cs))
    go true (w, e) = (c ∷ w, ap (λ z. c ∷ z) e)
    go false h = ([], refl)

length-trim_start : (t : Text) → length (trim_start t) ≤ length t
unfolding trim_start
length-trim_start [] = omega arith
length-trim_start (c ∷ cs) = go (is_whitespace c) (length-trim_start cs)
  where
    go :
        (b : Bool)
        → length (trim_start cs) ≤ length cs
        → length (if b then trim_start cs else c ∷ cs) ≤ length (c ∷ cs)
    go true h = omega (arith, h)
    go false h = omega arith

-- The start of a text that has nothing to trim in front has nothing either.
trim_start-prefix : (p w u : Text) → u ≡ p ++ w → trim_start u ≡ u → trim_start p ≡ p
unfolding trim_start
trim_start-prefix [] w u e h = refl
trim_start-prefix (c ∷ p) w u e h = go (is_whitespace c) (sym (ap trim_start e) ∙ h ∙ e)
  where
    go :
        (b : Bool)
        → (if b then trim_start (p ++ w) else c ∷ (p ++ w)) ≡ c ∷ (p ++ w)
        → (if b then trim_start p else c ∷ p) ≡ c ∷ p
    go true k = ground (arith, ap length k, length-trim_start (p ++ w))
    go false k = refl

pub trim_twice : (t : Text) → trim (trim t) ≡ trim t
unfolding trim
trim_twice t =
    ap (λ z. reverse (trim_start (reverse z))) front
    ∙ ap reverse (ap trim_start (reverse-reverse back) ∙ trim_start_twice (reverse (trim_start t)))
  where
    back : Text
    back = trim_start (reverse (trim_start t))

    front : trim_start (reverse back) ≡ reverse back
    front =
        let (w, e) = trim_start-suffix (reverse (trim_start t)) in
        trim_start-prefix (reverse back) (reverse w) (trim_start t)
          (sym (reverse-reverse (trim_start t)) ∙ ap reverse e ∙ reverse-append w back)
          (trim_start_twice t)
