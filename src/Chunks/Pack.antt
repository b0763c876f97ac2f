-- ===== src/Chunks/Pack.antt =====
-- The greedy loop of `split_by_token_budget` in memory/chunks/produce_split.rs, on its segments.
use tinycortex.Base.{
  ◌-◌, ◌≤◌, ◌≡◌, ◌⊎◌, ◌∷◌, ◌++◌, if◌then◌else◌, [], List, length, ℕ, zero, refl, suc, ap, arith,
  inr, sym, inl, min, ◌∙◌, ◌&&◌, Bool, not, true, ltb, length-append, false, subst, take, Text,
  take-drop, is_nil,
}
use mathlib.Core.List.{append-nil, append_assoc, reverse}
use tinycortex.Chunks.Split.{pack, tail_overlap, overlap_count, total_tokens, add_tokens}

-- What is carried over ends the chunk before, and is not the whole of it.
abbrev pub Carried {ℓ} : {A : Type ℓ} → List A → List A → Type ℓ
Carried {A = A} before shared =
    (front : List A) × (before ≡ front ++ shared) × ((1 ≤ length front) ⊎ (shared ≡ []))

-- Chunks that read a list from its start to its end: each repeats an end of the one before, and then has
-- something new.
abbrev pub Tiled {ℓ} : {A : Type ℓ} → List A → List (List A) → List A → Type ℓ
Tiled {A = A} before [] left = left ≡ []
Tiled {A = A} before (c ∷ cs) left =
    (shared fresh rest : List A) × (c ≡ shared ++ fresh)
    × (left ≡ fresh ++ rest)
    × Carried before shared
    × (1 ≤ length fresh)
    × Tiled c cs rest

length-take {ℓ} : {A : Type ℓ} (n : ℕ) (xs : List A) → n ≤ length xs → length (take n xs) ≡ n
length-take zero xs h = omega arith
length-take (suc n) [] h = ground (arith, h)
length-take (suc n) (x ∷ xs) h = omega (arith, length-take n xs (omega (arith, h)))

module _ (estimate : Text → ℕ) where
  tail_overlap-Carried :
      (want most : ℕ) (cur : List Text) → Carried cur (tail_overlap estimate want most cur)
  unfolding tail_overlap
  tail_overlap-Carried want most [] = ([], refl, inr refl)
  tail_overlap-Carried want most (c ∷ cs) =
      (take k xs, sym (take-drop k xs), inl (omega (arith, length-take k xs (omega arith))))
    where
      xs : List Text
      xs = c ∷ cs

      n : ℕ
      n = min (overlap_count estimate want most 0 (reverse xs)) (length xs - 1)

      k : ℕ
      k = length xs - n

  empty_fresh : {A : Type 0} (shared fresh : List A) → [] ≡ shared ++ fresh → fresh ≡ []
  empty_fresh [] fresh e = sym e
  empty_fresh (x ∷ xs) fresh e = ground (arith, ap length e)

  has_fresh :
      (cur fresh : List Text) (b : Bool)
      → not (is_nil cur) && b ≡ true
      → (1 ≤ length fresh) ⊎ (cur ≡ [])
      → 1 ≤ length fresh
  has_fresh cur fresh b h (inl n) = n
  has_fresh [] fresh b h (inr e) = ground (arith, h)
  has_fresh (x ∷ xs) fresh b h (inr e) = ground (arith, ap length e)

  -- The chunk that grows is what was carried over, and then something new, unless it is empty.
  pub pack-Tiled :
      (budget want most : ℕ) (ss cur : List Text) (tokens : ℕ) (before shared fresh : List Text)
      → cur ≡ shared ++ fresh
      → Carried before shared
      → (1 ≤ length fresh) ⊎ (cur ≡ [])
      → Tiled before (pack estimate budget want most ss cur tokens) (fresh ++ ss)
  unfolding pack
  pack-Tiled budget want most [] cur tokens before shared fresh e k n = go cur e n
    where
      go :
          (c : List Text)
          → c ≡ shared ++ fresh
          → (1 ≤ length fresh) ⊎ (c ≡ [])
          → Tiled before (if is_nil c then [] else c ∷ []) (fresh ++ [])
      go [] e n = append-nil fresh ∙ empty_fresh shared fresh e
      go (x ∷ xs) e n = (shared, fresh, [], e, refl, k, has_fresh (x ∷ xs) fresh true refl n, refl)
  pack-Tiled budget want most (s ∷ ss) cur tokens before shared fresh e k n =
      go (not (is_nil cur) && ltb budget (add_tokens tokens (estimate s))) refl
        (pack-Tiled budget want most ss (carried ++ (s ∷ []))
          (add_tokens (total_tokens estimate carried) (estimate s)) cur carried (s ∷ []) refl
          (tail_overlap-Carried want most cur) (inl (omega arith)))
        (pack-Tiled budget want most ss (cur ++ (s ∷ [])) (add_tokens tokens (estimate s)) before
          shared (fresh ++ (s ∷ []))
          (ap (λ z. z ++ (s ∷ [])) e ∙ append_assoc shared fresh (s ∷ [])) k
          (inl (omega (arith, length-append fresh (s ∷ [])))))
    where
      carried : List Text
      carried = tail_overlap estimate want most cur

      flushed : List (List Text)
      flushed =
          pack estimate budget want most ss (carried ++ (s ∷ []))
            (add_tokens (total_tokens estimate carried) (estimate s))

      on : List (List Text)
      on = pack estimate budget want most ss (cur ++ (s ∷ [])) (add_tokens tokens (estimate s))

      go :
          (over : Bool)
          → not (is_nil cur) && ltb budget (add_tokens tokens (estimate s)) ≡ over
          → Tiled cur flushed (s ∷ ss)
          → Tiled before on ((fresh ++ (s ∷ [])) ++ ss)
          → Tiled before (if over then cur ∷ flushed else on) (fresh ++ s ∷ ss)
      go true h f o = (
        shared,
        fresh,
        s ∷ ss,
        e,
        refl,
        k,
        has_fresh cur fresh (ltb budget (add_tokens tokens (estimate s))) h n,
        f,
      )
      go false h f o = subst (Tiled before on) (append_assoc fresh (s ∷ []) ss) o
