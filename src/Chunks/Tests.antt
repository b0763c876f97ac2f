-- ===== src/Chunks/Tests.antt =====
-- The theorems on the splitter, run on one text, where a token is a character.
use tinycortex.Chunks.Breaker.{
  Attempt, failed_at, succeeded, is_open, after, failures, failed_recently, record_failure,
  record_success, is_open-after,
}
use tinycortex.Base.{
  ◌≤◌, ◌≡◌, ◌∷◌, [], ℕ, min, length, zero, arith, suc, refl, length-append, List, some, All, Text,
  take, ◌&&◌, ◌==◌, leb,
}
use tinycortex.Chunks.Split.{split_by_token_budget}
use tinycortex.Chunks.Atomic.{Truncates}
use tinycortex.Chunks.Pack.{Tiled}
use tinycortex.Chunks.Tiling.{split_by_token_budget-Tiled}
use tinycortex.Chunks.Within.{Subadditive, Light, split_by_token_budget_fits}

abbrev cut : Text → ℕ → ℕ
cut t budget = min budget (length t)

length-take : (n : ℕ) (t : Text) → length (take n t) ≤ n
length-take zero t = omega arith
length-take (suc n) [] = omega arith
length-take (suc n) (x ∷ t) = omega (arith, length-take n t)

cut-Truncates : Truncates length cut
cut-Truncates t budget = (omega arith, omega (arith, length-take (cut t budget) t))

length-Subadditive : Subadditive length cut
length-Subadditive = (refl, λ s t. omega (arith, length-append s t))

length-Light : Light length cut 6
length-Light c = omega arith

-- "one. two three four"
abbrev sentence : Text
sentence =
    111 ∷ 110 ∷ 101 ∷ 46 ∷ 32 ∷ 116 ∷ 119 ∷ 111 ∷ 32 ∷ 116 ∷ 104 ∷ 114 ∷ 101 ∷ 101 ∷ 32 ∷ 102 ∷ 111
    ∷ 117 ∷ 114 ∷ []

split_by_token_budget-Tiled_example :
    (chunks : List Text) × (split_by_token_budget length cut sentence 10 ≡ some chunks)
    × Tiled [] chunks sentence
split_by_token_budget-Tiled_example =
    split_by_token_budget-Tiled length cut cut-Truncates sentence 10 (omega arith)

split_by_token_budget_fits_example :
    (chunks : List Text) × (split_by_token_budget length cut sentence 10 ≡ some chunks)
    × All (λ c. length c ≤ 10) chunks
split_by_token_budget_fits_example =
    split_by_token_budget_fits length cut cut-Truncates length-Subadditive sentence 10 (omega arith)
      (omega arith) length-Light

-- Three failures, of which the first stands last.
abbrev attempts : List Attempt
attempts = failed_at 900 ∷ failed_at 800 ∷ failed_at 700 ∷ succeeded ∷ []

is_open-after_example :
    (is_open 1000 (after attempts) ≡ leb 3 (failures attempts) && failed_recently 1000 attempts)
    × ((record_failure 1000 (after attempts)).0 ≡ failures attempts == 2)
    × ((record_success (after attempts)).0 ≡ leb 3 (failures attempts))
is_open-after_example = is_open-after attempts 1000
