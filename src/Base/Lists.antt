-- ===== src/Base/Lists.antt =====
-- Lists measured by native numbers, and predicates and searches over them.
use Prim.Native.Nat.{ℕ, suc, ◌+◌}
use mathlib.Core.Path.{◌≡◌, refl, ap, sym, subst, ◌∙◌}
use mathlib.Core.Logic.{◌⊎◌, inl, inr}
use mathlib.Core.Bool.{true, Bool, false, ◌||◌}
use mathlib.Core.List.{List, [], ◌∷◌, ◌++◌}
use mathlib.Core.Option.{Option, none, some}
use native.Mathlib.Omega.{arith}
use tinycortex.Base.Tests.{if◌then◌else◌}

module _ {ℓ} {A : Type ℓ} where
  abbrev pub length : List A → ℕ
  length [] = 0
  length (x ∷ xs) = suc (length xs)

  abbrev pub All {κ} : (A → Type κ) → List A → Type κ
  All P [] = Unit
  All P (x ∷ xs) = P x × All P xs

  abbrev pub any : (A → Bool) → List A → Bool
  any p [] = false
  any p (x ∷ xs) = p x || any p xs

  -- The entries that pass a test, in order.
  abbrev pub keep : (A → Bool) → List A → List A
  keep p [] = []
  keep p (x ∷ xs) = let rest = keep p xs in if p x then x ∷ rest else rest

  abbrev pub find : (A → Bool) → List A → Option A
  find p [] = none
  find p (x ∷ xs) = let rest = find p xs in if p x then some x else rest

  pub length-append : (xs ys : List A) → length (xs ++ ys) ≡ length xs + length ys
  length-append [] ys = omega arith
  length-append (x ∷ xs) ys = omega (arith, length-append xs ys)

module _ {A : Type 0} where
  abbrev pub In : A → List A → Type 0
  In x [] = ⊥
  In x (y ∷ ys) = (x ≡ y) ⊎ In x ys

  -- Any two entries at different places are related.
  abbrev pub Pairs {κ} : (A → A → Type κ) → List A → Type κ
  Pairs R [] = Unit
  Pairs R (x ∷ xs) = ((y : A) → In y xs → R x y) × Pairs R xs

  pub In-append_right : (x : A) (xs ys : List A) → In x ys → In x (xs ++ ys)
  In-append_right x [] ys m = m
  In-append_right x (y ∷ xs) ys m = inr (In-append_right x xs ys m)

  pub In-append : (x : A) (xs ys : List A) → In x (xs ++ ys) → In x xs ⊎ In x ys
  In-append x [] ys m = inr m
  In-append x (y ∷ xs) ys (inl e) = inl (inl e)
  In-append x (y ∷ xs) ys (inr m) = elim (In-append x xs ys m) [
    | inl p ↦ inl (inr p)
    | inr p ↦ inr p
  ]

  pub In-append_left : (x : A) (xs ys : List A) → In x xs → In x (xs ++ ys)
  In-append_left x [] ys m = elim m [ ]
  In-append_left x (y ∷ xs) ys (inl e) = inl e
  In-append_left x (y ∷ xs) ys (inr m) = inr (In-append_left x xs ys m)

  pub In-keep : (p : A → Bool) (x : A) (xs : List A) → In x (keep p xs) → In x xs × (p x ≡ true)
  In-keep p x [] m = elim m [ ]
  In-keep p x (y ∷ ys) m = go (p y) refl (In-keep p x ys) m
    where
      go :
          (b : Bool)
          → p y ≡ b
          → (In x (keep p ys) → In x ys × (p x ≡ true))
          → In x (if b then y ∷ keep p ys else keep p ys)
          → In x (y ∷ ys) × (p x ≡ true)
      go true e ih (inl s) = (inl s, ap p s ∙ e)
      go true e ih (inr n) = (inr (ih n).0, (ih n).1)
      go false e ih n = (inr (ih n).0, (ih n).1)

  -- Two entries of a list are the same one or are related, in some order.
  pub Pairs-In :
      (R : A → A → Type 0) (x y : A) (zs : List A)
      → Pairs R zs
      → In x zs
      → In y zs
      → (x ≡ y) ⊎ (R x y ⊎ R y x)
  Pairs-In R x y [] h m n = elim m [ ]
  Pairs-In R x y (z ∷ zs) h (inl e) (inl f) = inl (e ∙ sym f)
  Pairs-In R x y (z ∷ zs) h (inl e) (inr n) = inr (inl (subst (λ a. R a y) (sym e) (h.0 y n)))
  Pairs-In R x y (z ∷ zs) h (inr m) (inl f) = inr (inr (subst (λ a. R a x) (sym f) (h.0 x m)))
  Pairs-In R x y (z ∷ zs) h (inr m) (inr n) = Pairs-In R x y zs h.1 m n

  pub Pairs-map :
      (P Q S : A → A → Type 0) (zs : List A)
      → ((x y : A) → In x zs → In y zs → P x y → Q x y → S x y)
      → Pairs P zs
      → Pairs Q zs
      → Pairs S zs
  Pairs-map P Q S [] f p q = tt
  Pairs-map P Q S (z ∷ zs) f p q = (
    (λ y m. f z y (inl refl) (inr m) (p.0 y m) (q.0 y m)),
    Pairs-map P Q S zs (λ x y m n. f x y (inr m) (inr n)) p.1 q.1,
  )
