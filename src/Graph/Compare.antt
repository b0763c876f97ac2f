-- ===== src/Graph/Compare.antt =====
-- The order of texts that memory/graph/edge_store.rs takes from `str::cmp`.
use Prim.Native.Nat.compare as compare_ℕ
use Prim.Native.Nat.{ℕ, zero, suc, Ordering, compare as compare_ℕ}
use Prim.Native.String.compare
use Prim.Native.String.{String, [], ◌∷◌, compare, then}
use Prim.Native.Char.{code}
use text.Mathlib.TextEquality.{codes_equal}
use mathlib.Core.Path.{◌≡◌, refl, sym, ◌∙◌, ap, subst}

abbrev IsLess : Ordering → Type 0
IsLess Ordering.lt = Unit
IsLess Ordering.eq = ⊥
IsLess Ordering.gt = ⊥

-- The other way round.
abbrev pub flipped : Ordering → Ordering
flipped Ordering.lt = Ordering.gt
flipped Ordering.eq = Ordering.eq
flipped Ordering.gt = Ordering.lt

pub less : (o : Ordering) → o ≡ Ordering.lt → IsLess o
less o e = subst IsLess (sym e) tt

number_flip : (m n : ℕ) → compare_ℕ n m ≡ flipped (compare_ℕ m n)
number_flip zero zero = compare_ℕ.zero-zero ∙ ap flipped (sym compare_ℕ.zero-zero)
number_flip zero (suc n) = compare_ℕ.suc-zero n ∙ ap flipped (sym (compare_ℕ.zero-suc n))
number_flip (suc m) zero = compare_ℕ.zero-suc m ∙ ap flipped (sym (compare_ℕ.suc-zero m))
number_flip (suc m) (suc n) =
    compare_ℕ.suc-suc n m ∙ number_flip m n ∙ ap flipped (sym (compare_ℕ.suc-suc m n))

number_trans :
    (m n k : ℕ)
    → compare_ℕ m n ≡ Ordering.lt
    → compare_ℕ n k ≡ Ordering.lt
    → compare_ℕ m k ≡ Ordering.lt
number_trans m zero k e f = absurd (no_less m e)
  where
    no_less : (m : ℕ) → compare_ℕ m zero ≡ Ordering.lt → ⊥
    no_less zero e = less Ordering.eq (sym compare_ℕ.zero-zero ∙ e)
    no_less (suc m) e = less Ordering.gt (sym (compare_ℕ.suc-zero m) ∙ e)
number_trans m (suc n) zero e f = absurd (less Ordering.gt (sym (compare_ℕ.suc-zero n) ∙ f))
number_trans zero (suc n) (suc k) e f = compare_ℕ.zero-suc k
number_trans (suc m) (suc n) (suc k) e f =
    compare_ℕ.suc-suc m k
    ∙ number_trans m n k (sym (compare_ℕ.suc-suc m n) ∙ e) (sym (compare_ℕ.suc-suc n k) ∙ f)

pub flipped-then : (o p : Ordering) → flipped (then o p) ≡ then (flipped o) (flipped p)
flipped-then Ordering.lt p = refl
flipped-then Ordering.eq p = refl
flipped-then Ordering.gt p = refl

pub compare_flip : (s t : String) → compare t s ≡ flipped (compare s t)
compare_flip [] [] = compare.nil-nil ∙ ap flipped (sym compare.nil-nil)
compare_flip [] (d ∷ t) = compare.cons-nil d t ∙ ap flipped (sym (compare.nil-cons d t))
compare_flip (c ∷ s) [] = compare.nil-cons c s ∙ ap flipped (sym (compare.cons-nil c s))
compare_flip (c ∷ s) (d ∷ t) =
    compare.cons-cons d c t s
    ∙ (rw (number_flip (code c) (code d), compare_flip s t) refl)
    ∙ sym (flipped-then (compare_ℕ (code c) (code d)) (compare s t))
    ∙ ap flipped (sym (compare.cons-cons c d s t))

-- Chains of two comparisons, of which the first decides: they are transitive if their parts are.
pub then_trans :
    (a b c a' b' c' : Ordering)
    → (a ≡ Ordering.lt → b ≡ Ordering.lt → c ≡ Ordering.lt)
    → (a ≡ Ordering.eq → c ≡ b)
    → (b ≡ Ordering.eq → c ≡ a)
    → (a' ≡ Ordering.lt → b' ≡ Ordering.lt → c' ≡ Ordering.lt)
    → then a a' ≡ Ordering.lt
    → then b b' ≡ Ordering.lt
    → then c c' ≡ Ordering.lt
then_trans Ordering.lt Ordering.lt c a' b' c' t l r t' e f = ap (λ o. then o c') (t refl refl)
then_trans Ordering.lt Ordering.eq c a' b' c' t l r t' e f = ap (λ o. then o c') (r refl)
then_trans Ordering.lt Ordering.gt c a' b' c' t l r t' e f = absurd (less Ordering.gt f)
then_trans Ordering.eq Ordering.lt c a' b' c' t l r t' e f = ap (λ o. then o c') (l refl)
then_trans Ordering.eq Ordering.eq c a' b' c' t l r t' e f = ap (λ o. then o c') (l refl) ∙ t' e f
then_trans Ordering.eq Ordering.gt c a' b' c' t l r t' e f = absurd (less Ordering.gt f)
then_trans Ordering.gt b c a' b' c' t l r t' e f = absurd (less Ordering.gt e)

pub compare_trans :
    (s t u : String)
    → compare s t ≡ Ordering.lt
    → compare t u ≡ Ordering.lt
    → compare s u ≡ Ordering.lt
compare_trans s [] u e f = absurd (no_less s e)
  where
    no_less : (s : String) → compare s [] ≡ Ordering.lt → ⊥
    no_less [] e = less Ordering.eq (sym compare.nil-nil ∙ e)
    no_less (c ∷ s) e = less Ordering.gt (sym (compare.cons-nil c s) ∙ e)
compare_trans s (d ∷ t) [] e f = absurd (less Ordering.gt (sym (compare.cons-nil d t) ∙ f))
compare_trans [] (d ∷ t) (x ∷ u) e f = compare.nil-cons x u
compare_trans (c ∷ s) (d ∷ t) (x ∷ u) e f =
    compare.cons-cons c x s u
    ∙ then_trans (compare_ℕ (code c) (code d)) (compare_ℕ (code d) (code x))
        (compare_ℕ (code c) (code x)) (compare s t) (compare t u) (compare s u)
        (number_trans (code c) (code d) (code x))
        (λ h. ap (λ z. compare_ℕ (code z) (code x)) (codes_equal c d h))
        (λ h. ap (λ z. compare_ℕ (code c) (code z)) (sym (codes_equal d x h))) (compare_trans s t u)
        (sym (compare.cons-cons c d s t) ∙ e) (sym (compare.cons-cons d x t u) ∙ f)
