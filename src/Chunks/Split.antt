-- ===== src/Chunks/Split.antt =====
-- memory/chunks/produce_split.rs: text cut into pieces of a token budget with overlap. A text is the
-- list of its code points. The two functions of the contract crate are parameters: the estimate
-- of tokens, and how many characters a truncation to a budget keeps.
use mathlib.Core.List.{reverse}
use tinycortex.Base.{
  ℕ, zero, suc, ◌+◌, ◌-◌, ◌*◌, ◌/◌, max, min, Bool, false, ◌&&◌, ◌||◌, Option, none, some, List, [],
  ◌∷◌, ◌++◌, if◌then◌else◌, ltb, leb, ◌==◌, length, not, map, ◌%◌, u32_mod, Text, take, drop,
  is_nil,
}

-- Texts put one after another: `concat`.
unfoldable pub join_segments : List Text → Text
join_segments [] = []
join_segments (s ∷ ss) = s ++ join_segments ss

-- A character in front of the first piece.
unfoldable pub glue : ℕ → List Text → List Text
glue c [] = (c ∷ []) ∷ []
glue c (p ∷ ps) = (c ∷ p) ∷ ps

-- Pieces that end with a blank line, the separator kept at their end.
unfoldable pub split_blank_lines : Text → List Text
unfolding glue
split_blank_lines [] = []
split_blank_lines (c ∷ []) = (c ∷ []) ∷ []
split_blank_lines (c ∷ d ∷ rest) =
    let after = split_blank_lines rest in
    let on = split_blank_lines (d ∷ rest) in
    if c == 10 && d == 10 then (c ∷ d ∷ []) ∷ after else glue c on

starts_with_space : Text → Bool
starts_with_space [] = false
starts_with_space (c ∷ cs) = c == 32

-- After a line break, and after `.`, `!` or `?` before a space.
unfoldable pub ends_sentence : ℕ → Text → Bool
unfolding starts_with_space
ends_sentence c rest = c == 10 || ((c == 46 || (c == 33 || c == 63)) && starts_with_space rest)

unfoldable pub ends_word : ℕ → Text → Bool
ends_word c rest = c == 32

unfoldable pub split_after : (ℕ → Text → Bool) → Text → List Text
unfolding glue
split_after ends [] = []
split_after ends (c ∷ rest) =
    let ps = split_after ends rest in if ends c rest then (c ∷ []) ∷ ps else glue c ps

-- A split counts if it made two pieces at least.
unfoldable pub progress : List Text → Option (List Text)
progress (p ∷ q ∷ ps) = some (p ∷ q ∷ ps)
progress _ = none

unfoldable pub or_else : Option (List Text) → Option (List Text) → Option (List Text)
or_else (some ps) o = some ps
or_else none o = o

-- The hierarchy of boundaries.
unfoldable pub boundaries : Text → Option (List Text)
unfolding split_blank_lines split_after ends_sentence ends_word progress or_else
boundaries t =
    or_else (progress (split_blank_lines t))
      (or_else (progress (split_after ends_sentence t)) (progress (split_after ends_word t)))

unfoldable pub append_results : Option (List Text) → Option (List Text) → Option (List Text)
append_results (some xs) (some ys) = some (xs ++ ys)
append_results _ _ = none

-- One result after another, if all are there.
unfoldable pub gather : (Text → Option (List Text)) → List Text → Option (List Text)
unfolding append_results
gather f [] = some []
gather f (p ∷ ps) = append_results (f p) (gather f ps)

-- An empty piece becomes one of a single character.
abbrev pub at_least_one : ℕ → ℕ
at_least_one zero = 1
at_least_one (suc n) = suc n

module _ (estimate : Text → ℕ) (kept : Text → ℕ → ℕ) where
  -- The loop of `hard_split`, on fuel: a character at least each time.
  unfoldable pub hard_split : ℕ → ℕ → Text → Option (List Text)
  unfolding append_results
  hard_split zero budget t = none
  hard_split (suc fuel) budget [] = some []
  hard_split (suc fuel) budget (c ∷ cs) =
      let n = at_least_one (kept (c ∷ cs) budget) in
      append_results (some (take n (c ∷ cs) ∷ [])) (hard_split fuel budget (drop n (c ∷ cs)))

  -- `push_atomic_segments`, on fuel for its depth.
  unfoldable pub atomic_segments : ℕ → ℕ → Text → Option (List Text)
  unfolding boundaries gather hard_split
  atomic_segments zero budget t = none
  atomic_segments (suc fuel) budget [] = some []
  atomic_segments (suc fuel) budget (c ∷ cs) =
      if leb (estimate (c ∷ cs)) budget then some ((c ∷ cs) ∷ []) else elim (boundaries (c ∷ cs)) [
        | some ps ↦ gather (atomic_segments fuel budget) ps
        | none ↦ hard_split (suc fuel) budget (c ∷ cs)
      ]

-- `u32::saturating_add`.
unfoldable pub add_tokens : ℕ → ℕ → ℕ
add_tokens a b = min (a + b) (u32_mod - 1)

abbrev pub overlap_budget : ℕ → ℕ
overlap_budget budget = max (budget * 12 % u32_mod / 100) 1

abbrev pub overlap_cap : ℕ → ℕ
overlap_cap budget = max (budget * 40 % u32_mod / 100) (overlap_budget budget)

abbrev pub seg_budget : ℕ → ℕ
seg_budget budget = max (budget - overlap_cap budget) 1

module _ (estimate : Text → ℕ) where
  unfoldable pub total_tokens : List Text → ℕ
  total_tokens [] = 0
  total_tokens (s ∷ ss) = estimate s + total_tokens ss

  -- How many segments to take from the end: the argument is the reversed list.
  unfoldable pub overlap_count : ℕ → ℕ → ℕ → List Text → ℕ
  unfolding add_tokens
  overlap_count want most acc [] = 0
  overlap_count want most acc (s ∷ ss) =
      let acc' = add_tokens acc (estimate s) in
      let more = overlap_count want most acc' ss in
      if ltb most acc' then 0 else if leb want acc' then 1 else suc more

  -- The segments carried over; never the whole chunk.
  unfoldable pub tail_overlap : ℕ → ℕ → List Text → List Text
  unfolding overlap_count
  tail_overlap want most cur =
      let n = min (overlap_count want most 0 (reverse cur)) (length cur - 1) in
      drop (length cur - n) cur

  -- The greedy loop: the segments left, the current chunk and its tokens.
  unfoldable pub pack : ℕ → ℕ → ℕ → List Text → List Text → ℕ → List (List Text)
  unfolding tail_overlap total_tokens add_tokens
  pack budget want most [] cur tokens = if is_nil cur then [] else cur ∷ []
  pack budget want most (s ∷ ss) cur tokens =
      let carried = tail_overlap want most cur in
      let flushed =
        pack budget want most ss (carried ++ (s ∷ []))
          (add_tokens (total_tokens carried) (estimate s)) in
      let on = pack budget want most ss (cur ++ (s ∷ [])) (add_tokens tokens (estimate s)) in
      if not (is_nil cur) && ltb budget (add_tokens tokens (estimate s)) then cur ∷ flushed else on

  -- Each chunk from its segments; a text of one segment stays whole.
  unfoldable pub chunks_of : ℕ → Text → List Text → List Text
  unfolding pack join_segments
  chunks_of budget t (s ∷ s' ∷ ss) =
      map join_segments
        (pack budget (overlap_budget budget) (overlap_cap budget) (s ∷ s' ∷ ss) [] 0)
  chunks_of budget t _ = t ∷ []

module _ (estimate : Text → ℕ) (kept : Text → ℕ → ℕ) where
  unfoldable pub split_by_token_budget : Text → ℕ → Option (List Text)
  unfolding atomic_segments chunks_of
  split_by_token_budget t max_tokens =
      let budget = max max_tokens 1 in
      if is_nil t
      then some ([] ∷ [])
      else if leb (estimate t) budget
      then some (t ∷ [])
      else elim (atomic_segments estimate kept (suc (length t)) (seg_budget budget) t) [
        | none ↦ none
        | some segments ↦ some (chunks_of estimate budget t segments)
      ]
