-- ===== src/Chunks/Budget.antt =====
-- The token budget of the chunks that memory/chunks/produce_split.rs packs.
use tinycortex.Base.{
  ◌+◌, ◌-◌, ◌≤◌, ◌<◌, ◌≡◌, ◌∷◌, ◌++◌, [], ℕ, List, arith, refl, ap, length, length-append, u32_mod,
  zero, suc, ◌∙◌, if◌then◌else◌, ltb, leb, min, Bool, true, false, sym, ◌&&◌, not, All, Text, take,
  drop, take-drop, is_nil,
}
use mathlib.Core.List.{reverse, reverse-append}
use tinycortex.Chunks.Split.{tail_overlap, overlap_count, total_tokens, add_tokens, pack}
use tinycortex.Chunks.Pieces.{length-drop}

module _ (estimate : Text → ℕ) where
  abbrev total : List Text → ℕ
  total = total_tokens estimate

  pub total-append : (xs ys : List Text) → total (xs ++ ys) ≡ total xs + total ys
  unfolding total_tokens
  total-append [] ys = omega arith
  total-append (x ∷ xs) ys = omega (arith, total-append xs ys)

  total-reverse : (xs : List Text) → total (reverse xs) ≡ total xs
  unfolding total_tokens
  total-reverse [] = refl
  total-reverse (x ∷ xs) = omega (
    arith,
    total-reverse xs,
    ap total (reverse-append (x ∷ []) xs),
    total-append (reverse xs) (x ∷ []),
  )

  length-reverse : (xs : List Text) → length (reverse xs) ≡ length xs
  length-reverse [] = refl
  length-reverse (x ∷ xs) = omega (
    arith,
    length-reverse xs,
    ap length (reverse-append (x ∷ []) xs),
    length-append (reverse xs) (x ∷ []),
  )

  take-append : (xs ys : List Text) → take (length xs) (xs ++ ys) ≡ xs
  take-append [] ys = refl
  take-append (x ∷ xs) ys = ap (λ z. x ∷ z) (take-append xs ys)

  overlap_count_lem :
      (want most acc : ℕ) (xs : List Text) (k : ℕ)
      → most < u32_mod - 1
      → acc ≤ most
      → k ≤ overlap_count estimate want most acc xs
      → acc + total (take k xs) ≤ most
  unfolding overlap_count total_tokens add_tokens
  overlap_count_lem want most acc xs zero m a h = omega arith
  overlap_count_lem want most acc [] (suc k) m a h = ground (arith, h)
  overlap_count_lem want most acc (x ∷ xs) (suc k) m a h =
      go (ltb most acc') refl (leb want acc') (overlap_count_lem want most acc' xs k m) h
    where
      acc' : ℕ
      acc' = min (acc + estimate x) (u32_mod - 1)

      le : ltb most acc' ≡ false → acc' ≤ most
      le e = ground (arith, e)

      go :
          (over : Bool)
          → ltb most acc' ≡ over
          → (enough : Bool)
          → (acc' ≤ most
              → k ≤ overlap_count estimate want most acc' xs
              → acc' + total (take k xs) ≤ most)
          → suc k ≤ (
              if over
              then 0
              else if enough
              then 1
              else suc (overlap_count estimate want most acc' xs))
          → acc + (estimate x + total (take k xs)) ≤ most
      go true e enough ih h = ground (arith, h)
      go false e true ih h = omega (arith, ih (le e) (omega arith), m, le e)
      go false e false ih h = omega (arith, ih (le e) (omega (arith, h)), m, le e)

  tail_overlap-total :
      (want most : ℕ) (cur : List Text)
      → most < u32_mod - 1
      → total (tail_overlap estimate want most cur) ≤ most
  unfolding tail_overlap
  tail_overlap-total want most cur m = omega (arith, bound, split)
    where
      n : ℕ
      n = min (overlap_count estimate want most 0 (reverse cur)) (length cur - 1)

      front : List Text
      front = take (length cur - n) cur

      back : List Text
      back = drop (length cur - n) cur

      back_length : length back ≡ n
      back_length = omega (arith, length-drop (length cur - n) cur)

      turned : take n (reverse cur) ≡ reverse back
      turned =
          ap (take n)
            (ap reverse (sym (take-drop (length cur - n) cur)) ∙ reverse-append front back)
          ∙ ap (λ k. take k (reverse back ++ reverse front))
              (sym (length-reverse back ∙ back_length))
          ∙ take-append (reverse back) (reverse front)

      bound : total (take n (reverse cur)) ≤ most
      bound =
          omega (arith, overlap_count_lem want most 0 (reverse cur) n m (omega arith) (omega arith))

      split : total (take n (reverse cur)) ≡ total back
      split = ap total turned ∙ total-reverse back

  total_one : (xs : List Text) (s : Text) → total (xs ++ (s ∷ [])) ≡ total xs + estimate s
  unfolding total_tokens
  total_one xs s = omega (arith, total-append xs (s ∷ []))

  fits :
      (cur : List Text) (budget tokens e : ℕ)
      → tokens ≡ total cur
      → e ≤ budget
      → budget < u32_mod - 1
      → not (is_nil cur) && ltb budget (add_tokens tokens e) ≡ false
      → tokens + e ≤ budget
  unfolding total_tokens add_tokens
  fits [] budget tokens e t k b h = omega (arith, t, k)
  fits (x ∷ xs) budget tokens e t k b h = le h
    where
      le : ltb budget (min (tokens + e) (u32_mod - 1)) ≡ false → tokens + e ≤ budget
      le h = ground (arith, h, b)

  add_exact : (a b budget : ℕ) → a + b ≤ budget → budget < u32_mod - 1 → add_tokens a b ≡ a + b
  unfolding add_tokens
  add_exact a b budget h k = omega (arith, h, k)

  grown :
      (xs : List Text) (s : Text) (tokens budget : ℕ)
      → tokens ≡ total xs
      → tokens + estimate s ≤ budget
      → budget < u32_mod - 1
      → (add_tokens tokens (estimate s) ≡ total (xs ++ (s ∷ [])))
        × (add_tokens tokens (estimate s) ≤ budget)
  grown xs s tokens budget e h k = (
    omega (arith, add_exact tokens (estimate s) budget h k, total_one xs s, e),
    omega (arith, add_exact tokens (estimate s) budget h k, h),
  )

  -- Chunks packed from small segments stay within the budget, counted by their segments.
  pub pack-total :
      (budget want most seg : ℕ)
      → seg + most ≤ budget
      → budget < u32_mod - 1
      → (ss cur : List Text) (tokens : ℕ) → All (λ s. estimate s ≤ seg) ss
      → tokens ≡ total cur
      → tokens ≤ budget
      → All (λ c. total c ≤ budget) (pack estimate budget want most ss cur tokens)
  unfolding pack
  pack-total budget want most seg small low [] cur tokens h e k = last cur e
    where
      last :
          (c : List Text)
          → tokens ≡ total c
          → All (λ c. total c ≤ budget) (if is_nil c then [] else c ∷ [])
      last [] e = tt
      last (x ∷ xs) e = (omega (arith, e, k), tt)
  pack-total budget want most seg small low (s ∷ ss) cur tokens h e k =
      go (not (is_nil cur) && ltb budget (add_tokens tokens (estimate s))) refl
        (pack-total budget want most seg small low ss (carried ++ (s ∷ []))
          (add_tokens (total carried) (estimate s)) h.1 restart.0 restart.1)
        (pack-total budget want most seg small low ss (cur ++ (s ∷ []))
          (add_tokens tokens (estimate s)) h.1)
    where
      carried : List Text
      carried = tail_overlap estimate want most cur

      small_carried : total carried ≤ most
      small_carried = tail_overlap-total want most cur (omega (arith, small, low))

      restart :
          (add_tokens (total carried) (estimate s) ≡ total (carried ++ (s ∷ [])))
          × (add_tokens (total carried) (estimate s) ≤ budget)
      restart =
          grown carried s (total carried) budget refl (omega (arith, small_carried, small, h.0)) low

      go :
          (over : Bool)
          → not (is_nil cur) && ltb budget (add_tokens tokens (estimate s)) ≡ over
          → All
              (λ c. total c ≤ budget)
              (pack estimate budget want most ss
                (carried ++ (s ∷ []))
                (add_tokens (total carried) (estimate s)))
          → (add_tokens tokens (estimate s) ≡ total (cur ++ (s ∷ []))
              → add_tokens tokens (estimate s) ≤ budget
              → All
                  (λ c. total c ≤ budget)
                  (pack estimate budget want most ss
                    (cur ++ (s ∷ []))
                    (add_tokens tokens (estimate s))))
          → All
              (λ c. total c ≤ budget)
              (if over
                then cur
                  ∷ pack estimate budget want most ss
                      (carried ++ (s ∷ []))
                      (add_tokens (total carried) (estimate s))
                else pack estimate budget want most ss
                    (cur ++ (s ∷ []))
                    (add_tokens tokens (estimate s)))
      go true o f on = (omega (arith, e, k), f)
      go false o f on =
          let fit = fits cur budget tokens (estimate s) e (omega (arith, h.0, small)) low o in
          let on_grown = grown cur s tokens budget e fit low in on on_grown.0 on_grown.1
