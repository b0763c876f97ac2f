-- ===== src/Chunks/Tiling.antt =====
-- What `split_by_token_budget` of memory/chunks/produce_split.rs promises of its chunks.
use tinycortex.Base.{
  ◌≤◌, ◌≡◌, ◌∙◌, ◌⊎◌, ◌∷◌, ◌++◌, if◌then◌else◌, [], List, All, ap, length, inl, arith, subst, inr,
  map, sym, ℕ, refl, some, leb, max, Bool, suc, none, true, false, Text,
}
use mathlib.Core.List.{append-nil}
use tinycortex.Chunks.Split.{
  join_segments, atomic_segments, chunks_of, split_by_token_budget, pack, seg_budget,
  overlap_budget, overlap_cap,
}
use tinycortex.Chunks.Pieces.{Full, join-append, length-join}
use tinycortex.Chunks.Atomic.{Truncates, Atom, atomic-Returns}
use tinycortex.Chunks.Pack.{Tiled, Carried, pack-Tiled}

All-left : (xs ys : List Text) → All Full (xs ++ ys) → All Full xs
All-left [] ys h = tt
All-left (x ∷ xs) ys h = (h.0, All-left xs ys h.1)

All-right : (xs ys : List Text) → All Full (xs ++ ys) → All Full ys
All-right [] ys h = h
All-right (x ∷ xs) ys h = All-right xs ys h.1

All-both : (xs ys : List Text) → All Full xs → All Full ys → All Full (xs ++ ys)
All-both [] ys h k = k
All-both (x ∷ xs) ys h k = (h.0, All-both xs ys h.1 k)

join-Carried :
    (before shared : List Text)
    → All Full before
    → Carried before shared
    → Carried (join_segments before) (join_segments shared)
unfolding join_segments
join-Carried before shared h (front, e, s) =
    (join_segments front, ap join_segments e ∙ join-append front shared, go s)
  where
    go :
        (1 ≤ length front) ⊎ (shared ≡ [])
        → (1 ≤ length (join_segments front)) ⊎ (join_segments shared ≡ [])
    go (inl n) =
        inl (omega (arith, n, length-join front (All-left front shared (subst (All Full) e h))))
    go (inr k) = inr (ap join_segments k)

-- Segments that tile make texts that tile.
join-Tiled :
    (before : List Text) (cs : List (List Text)) (left : List Text)
    → All Full before
    → All Full left
    → Tiled before cs left
    → Tiled (join_segments before) (map join_segments cs) (join_segments left)
unfolding join_segments
join-Tiled before [] left h k e = ap join_segments e
join-Tiled before (c ∷ cs) left h k (shared, fresh, rest, e, l, carried, n, tail) = (
  join_segments shared,
  join_segments fresh,
  join_segments rest,
  ap join_segments e ∙ join-append shared fresh,
  ap join_segments l ∙ join-append fresh rest,
  join-Carried before shared h carried,
  omega (arith, n, length-join fresh (All-left fresh rest parts)),
  join-Tiled c cs rest
      (subst (All Full) (sym e) (All-both shared fresh shared_parts (All-left fresh rest parts)))
      (All-right fresh rest parts) tail,
)
  where
    parts : All Full (fresh ++ rest)
    parts = subst (All Full) l k

    shared_parts : All Full shared
    shared_parts = All-right carried.0 shared (subst (All Full) carried.1 h)

module _ (estimate : Text → ℕ) (kept : Text → ℕ → ℕ) where
  whole-Tiled : (t : Text) → 1 ≤ length t → Tiled [] (t ∷ []) t
  whole-Tiled t h = ([], t, [], refl, sym (append-nil t), ([], refl, inr refl), h, refl)

  Atom-Full : (budget : ℕ) (ss : List Text) → All (Atom estimate kept budget) ss → All Full ss
  unfolding Full
  Atom-Full budget [] h = tt
  Atom-Full budget (s ∷ ss) h = (h.0.0, Atom-Full budget ss h.1)

  chunks-Tiled :
      (budget : ℕ) (t : Text) (ss : List Text)
      → 1 ≤ length t
      → join_segments ss ≡ t
      → All Full ss
      → Tiled [] (chunks_of estimate budget t ss) t
  unfolding chunks_of join_segments
  chunks-Tiled budget t [] n e h = whole-Tiled t n
  chunks-Tiled budget t (s ∷ []) n e h = whole-Tiled t n
  chunks-Tiled budget t (s ∷ s' ∷ ss) n e h = subst (Tiled [] (map join_segments chunks)) e (
      join-Tiled [] chunks (s ∷ s' ∷ ss) tt h (
        pack-Tiled estimate budget (overlap_budget budget) (overlap_cap budget) (s ∷ s' ∷ ss) [] 0
          [] [] [] refl ([], refl, inr refl) (inr refl)))
    where
      chunks : List (List Text)
      chunks = pack estimate budget (overlap_budget budget) (overlap_cap budget) (s ∷ s' ∷ ss) [] 0

  -- The splitter ends on every text that is not empty, and its chunks read the text from start to
  -- end without a gap: each chunk is an end of the chunk before it, never the whole of it, and
  -- then at least one new character. Truncation to a budget is taken to return a prefix.
  pub split_by_token_budget-Tiled :
      Truncates estimate kept
      → (t : Text) (max_tokens : ℕ) → 1 ≤ length t
      → (chunks : List Text) × (split_by_token_budget estimate kept t max_tokens ≡ some chunks)
        × Tiled [] chunks t
  unfolding split_by_token_budget
  split_by_token_budget-Tiled truncates [] max_tokens n = ground (arith, n)
  split_by_token_budget-Tiled truncates (c ∷ cs) max_tokens n = go (leb (estimate t) budget)
    where
      t : Text
      t = c ∷ cs

      budget : ℕ
      budget = max max_tokens 1

      go :
          (b : Bool)
          → (chunks : List Text) × ((if b
                then some (t ∷ [])
                else elim (atomic_segments estimate kept (suc (length t)) (seg_budget budget) t) [
                  | none ↦ none
                  | some segments ↦ some (chunks_of estimate budget t segments)
                ])
              ≡ some chunks)
            × Tiled [] chunks t
      go true = (t ∷ [], refl, whole-Tiled t n)
      go false =
          let (segs, e, j, a) =
            atomic-Returns estimate kept truncates (suc (length t)) (seg_budget budget) t
              (omega arith) in
          (
            chunks_of estimate budget t segs,
            ap
                (λ o. elim o [
                  | none ↦ none
                  | some segments ↦ some (chunks_of estimate budget t segments)
                ])
                e,
            chunks-Tiled budget t segs n j (Atom-Full (seg_budget budget) segs a),
          )
