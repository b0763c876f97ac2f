-- ===== src/Chunks/Within.antt =====
-- The bound on the chunks of `split_by_token_budget` in memory/chunks/produce_split.rs.
use tinycortex.Base.{
  ◌+◌, ◌*◌, ◌≤◌, ◌<◌, ◌≡◌, ◌∙◌, ◌⊎◌, ◌∷◌, ◌++◌, if◌then◌else◌, [], ℕ, u32_mod, arith, List, All,
  map, length, inl, inr, ap, sym, refl, some, subst, leb, Option, suc, none, Bool, true, false,
  Text,
}
use tinycortex.Chunks.Split.{
  join_segments, atomic_segments, chunks_of, split_by_token_budget, total_tokens, seg_budget,
  overlap_budget, overlap_cap,
}
use tinycortex.Chunks.Atomic.{Truncates, Atom, atomic-Returns}
use tinycortex.Chunks.Budget.{pack-total}
use mathlib.Core.List.{append-nil}

seg_budget_lem : (b : ℕ) → 2 ≤ b → b * 40 < u32_mod → seg_budget b + overlap_cap b ≤ b
seg_budget_lem b h k = omega (arith, h, k)

module _ (estimate : Text → ℕ) (kept : Text → ℕ → ℕ) where
  -- What the estimate of the contract crate documents: it never exceeds the sum over two parts.
  abbrev pub Subadditive : Type 0
  Subadditive = (estimate [] ≡ 0) × ((s t : Text) → estimate (s ++ t) ≤ estimate s + estimate t)

  -- No character alone is above a budget.
  abbrev pub Light : ℕ → Type 0
  Light budget = (c : ℕ) → estimate (c ∷ []) ≤ budget

  join_total :
      Subadditive → (ss : List Text) → estimate (join_segments ss) ≤ total_tokens estimate ss
  unfolding join_segments total_tokens
  join_total sub [] = omega (arith, sub.0)
  join_total sub (s ∷ ss) = omega (arith, sub.1 s (join_segments ss), join_total sub ss)

  join_fits :
      Subadditive
      → (budget : ℕ) (cs : List (List Text)) → All (λ c. total_tokens estimate c ≤ budget) cs
      → All (λ c. estimate c ≤ budget) (map join_segments cs)
  join_fits sub budget [] h = tt
  join_fits sub budget (c ∷ cs) h =
      (omega (arith, h.0, join_total sub c), join_fits sub budget cs h.1)

  Atom-fits :
      (budget : ℕ)
      → Light budget
      → (ss : List Text) → All (Atom estimate kept budget) ss
      → All (λ s. estimate s ≤ budget) ss
  Atom-fits budget light [] h = tt
  Atom-fits budget light (s ∷ ss) h = (go s h.0.1, Atom-fits budget light ss h.1)
    where
      go : (s : Text) → (estimate s ≤ budget) ⊎ (length s ≡ 1) → estimate s ≤ budget
      go s (inl e) = e
      go [] (inr e) = ground (arith, e)
      go (c ∷ []) (inr e) = light c
      go (c ∷ d ∷ s) (inr e) = ground (arith, e)

  chunks_fit :
      Subadditive
      → (budget : ℕ) → 2 ≤ budget
      → budget * 40 < u32_mod
      → (t : Text) (ss : List Text) → join_segments ss ≡ t
      → All (λ s. estimate s ≤ seg_budget budget) ss
      → All (λ c. estimate c ≤ budget) (chunks_of estimate budget t ss)
  unfolding chunks_of join_segments
  chunks_fit sub budget two low t [] e h = (omega (arith, sub.0, ap estimate e), tt)
  chunks_fit sub budget two low t (s ∷ []) e h =
      (omega (arith, h.0, ap estimate (sym (append-nil s) ∙ e), seg_budget_lem budget two low), tt)
  chunks_fit sub budget two low t (s ∷ s' ∷ ss) e h = join_fits sub budget _ (
      pack-total estimate budget (overlap_budget budget) (overlap_cap budget) (seg_budget budget)
        (seg_budget_lem budget two low) (omega (arith, low)) (s ∷ s' ∷ ss) [] 0 h refl
        (omega arith))

  -- Every chunk is within a budget of two tokens or more, however its segments and its overlap
  -- fall, when no single character is above the budget of a segment. The budget times forty is
  -- taken to fit in 32 bits, the estimate to be subadditive, and truncation to return a prefix.
  pub split_by_token_budget_fits :
      Truncates estimate kept
      → Subadditive
      → (t : Text) (max_tokens : ℕ) → 2 ≤ max_tokens
      → max_tokens * 40 < u32_mod
      → Light (seg_budget max_tokens)
      → (chunks : List Text) × (split_by_token_budget estimate kept t max_tokens ≡ some chunks)
        × All (λ c. estimate c ≤ max_tokens) chunks
  unfolding split_by_token_budget
  split_by_token_budget_fits truncates sub [] m two low light =
      ([] ∷ [], refl, (omega (arith, sub.0), tt))
  split_by_token_budget_fits truncates sub (c ∷ cs) m two low light =
      subst (λ b. (chunks : List Text) × (split b ≡ some chunks) × All (λ c. estimate c ≤ m) chunks)
        (omega (arith, two)) (go (leb (estimate t) m) refl)
    where
      t : Text
      t = c ∷ cs

      split : ℕ → Option (List Text)
      split b =
          if leb (estimate t) b
          then some (t ∷ [])
          else elim (atomic_segments estimate kept (suc (length t)) (seg_budget b) t) [
            | none ↦ none
            | some segments ↦ some (chunks_of estimate b t segments)
          ]

      go :
          (b : Bool)
          → leb (estimate t) m ≡ b
          → (chunks : List Text) × ((if b
                then some (t ∷ [])
                else elim (atomic_segments estimate kept (suc (length t)) (seg_budget m) t) [
                  | none ↦ none
                  | some segments ↦ some (chunks_of estimate m t segments)
                ])
              ≡ some chunks)
            × All (λ c. estimate c ≤ m) chunks
      go true e = (t ∷ [], refl, (ground (arith, e), tt))
      go false e =
          let (segs, e, j, a) =
            atomic-Returns estimate kept truncates (suc (length t)) (seg_budget m) t
              (omega arith) in
          (
            chunks_of estimate m t segs,
            ap
                (λ o. elim o [
                  | none ↦ none
                  | some segments ↦ some (chunks_of estimate m t segments)
                ])
                e,
            chunks_fit sub m two low t segs j (Atom-fits (seg_budget m) light segs a),
          )
