-- ===== src/Chunks/Pieces.antt =====
-- How the boundaries of memory/chunks/produce_split.rs cut a text: its pieces tile it.
use tinycortex.Base.{
  ◌+◌, ◌-◌, ◌≤◌, ◌<◌, ◌≡◌, ◌∙◌, ◌&&◌, ◌∷◌, ◌++◌, ◌==◌, if◌then◌else◌, [], length, List, refl, ap,
  sym, ℕ, zero, suc, arith, All, Bool, true, false, length-append, some, subst, none, Option, Text,
  drop,
}
use mathlib.Core.List.{append_assoc}
use tinycortex.Chunks.Split.{
  join_segments, glue, split_blank_lines, split_after, progress, boundaries, ends_sentence,
  ends_word, or_else,
}

unfoldable pub Full : Text → Type 0
Full p = 1 ≤ length p

pub join-append :
    (xs ys : List Text) → join_segments (xs ++ ys) ≡ join_segments xs ++ join_segments ys
unfolding join_segments
join-append [] ys = refl
join-append (x ∷ xs) ys =
    ap (λ z. x ++ z) (join-append xs ys)
    ∙ sym (append_assoc x (join_segments xs) (join_segments ys))

pub length-drop {ℓ} : {A : Type ℓ} (n : ℕ) (t : List A) → length (drop n t) ≡ length t - n
length-drop zero t = omega arith
length-drop (suc n) [] = omega arith
length-drop (suc n) (x ∷ xs) = omega (arith, length-drop n xs)

-- The pieces of a text: together they are it, and none is empty.
abbrev pub Tiles : List Text → Text → Type 0
Tiles ps t = (join_segments ps ≡ t) × All Full ps

glue-Tiles : (c : ℕ) (ps : List Text) (t : Text) → Tiles ps t → Tiles (glue c ps) (c ∷ t)
unfolding glue join_segments Full
glue-Tiles c [] t h = (ap (λ z. c ∷ z) h.0, (omega arith, tt))
glue-Tiles c (p ∷ ps) t h = (ap (λ z. c ∷ z) h.0, (omega arith, h.1.1))

blank_lines-Tiles : (t : Text) → Tiles (split_blank_lines t) t
unfolding split_blank_lines join_segments Full
blank_lines-Tiles [] = (refl, tt)
blank_lines-Tiles (c ∷ []) = (refl, (omega arith, tt))
blank_lines-Tiles (c ∷ d ∷ rest) =
    go (c == 10 && d == 10) (blank_lines-Tiles rest) (blank_lines-Tiles (d ∷ rest))
  where
    go :
        (b : Bool)
        → Tiles (split_blank_lines rest) rest
        → Tiles (split_blank_lines (d ∷ rest)) (d ∷ rest)
        → Tiles
            (if b
              then (c ∷ d ∷ []) ∷ split_blank_lines rest
              else glue c (split_blank_lines (d ∷ rest)))
            (c ∷ d ∷ rest)
    go true h k = (ap (λ z. c ∷ d ∷ z) h.0, (omega arith, h.1))
    go false h k = glue-Tiles c (split_blank_lines (d ∷ rest)) (d ∷ rest) k

split_after-Tiles : (ends : ℕ → Text → Bool) (t : Text) → Tiles (split_after ends t) t
unfolding split_after join_segments Full
split_after-Tiles ends [] = (refl, tt)
split_after-Tiles ends (c ∷ rest) = go (ends c rest) (split_after-Tiles ends rest)
  where
    go :
        (b : Bool)
        → Tiles (split_after ends rest) rest
        → Tiles
            (if b then (c ∷ []) ∷ split_after ends rest else glue c (split_after ends rest))
            (c ∷ rest)
    go true h = (ap (λ z. c ∷ z) h.0, (omega arith, h.1))
    go false h = glue-Tiles c (split_after ends rest) rest h

-- Shorter than a text, not empty.
unfoldable pub Part : Text → Text → Type 0
Part t p = (1 ≤ length p) × (length p < length t)

pub length-join : (ps : List Text) → All Full ps → length ps ≤ length (join_segments ps)
unfolding join_segments Full
length-join [] h = omega arith
length-join (p ∷ ps) h = omega (arith, h.0, length-join ps h.1, length-append p (join_segments ps))

parts_from :
    (t : Text) (k : ℕ) (ps : List Text)
    → All Full ps
    → length (join_segments ps) + k ≤ length t
    → 1 ≤ k
    → All (Part t) ps
unfolding join_segments Full Part
parts_from t k [] h e q = tt
parts_from t k (p ∷ ps) h e q = (
  (h.0, omega (arith, e, q, length-append p (join_segments ps))),
  parts_from t k ps h.1 (omega (arith, e, length-append p (join_segments ps))) q,
)

abbrev pub Cut : Text → List Text → Type 0
Cut t ps = (join_segments ps ≡ t) × All (Part t) ps

progress-Cut : (t : Text) (ps qs : List Text) → Tiles ps t → progress ps ≡ some qs → Cut t qs
unfolding progress join_segments Full Part
progress-Cut t [] qs h e = ground (arith, e)
progress-Cut t (p ∷ []) qs h e = ground (arith, e)
progress-Cut t (p ∷ q ∷ ps) qs h e = subst (Cut t) (same_list e) (h.0, (first, (second, rest)))
  where
    same_list : some (p ∷ q ∷ ps) ≡ some qs → (p ∷ q ∷ ps) ≡ qs
    same_list k = ap (λ o. elim o [ none ↦ [] | some x ↦ x ]) k

    total : length t ≡ length p + (length q + length (join_segments ps))
    total = omega (
      arith,
      ap length h.0,
      length-append p (q ++ join_segments ps),
      length-append q (join_segments ps),
    )

    first : Part t p
    first = (h.1.0, omega (arith, h.1.0, h.1.1.0, total))

    second : Part t q
    second = (h.1.1.0, omega (arith, h.1.0, h.1.1.0, total))

    rest : All (Part t) ps
    rest = parts_from t (length p) ps h.1.1.1 (omega (arith, total)) (omega (arith, h.1.0))

-- Whatever boundaries a text is cut at, it is cut into shorter parts, which tile it.
pub boundaries-Cut : (t : Text) (ps : List Text) → boundaries t ≡ some ps → Cut t ps
unfolding boundaries or_else
boundaries-Cut t ps = go (progress (split_blank_lines t)) refl
  where
    words :
        (o : Option (List Text)) → progress (split_after ends_word t) ≡ o → o ≡ some ps → Cut t ps
    words o e k =
        progress-Cut t (split_after ends_word t) ps (split_after-Tiles ends_word t) (e ∙ k)

    sentences :
        (o : Option (List Text))
        → progress (split_after ends_sentence t) ≡ o
        → or_else o (progress (split_after ends_word t)) ≡ some ps
        → Cut t ps
    sentences (some qs) e k =
        progress-Cut t (split_after ends_sentence t) ps (split_after-Tiles ends_sentence t) (e ∙ k)
    sentences none e k = words (progress (split_after ends_word t)) refl k

    go :
        (o : Option (List Text))
        → progress (split_blank_lines t) ≡ o
        → or_else o
            (or_else (progress (split_after ends_sentence t)) (progress (split_after ends_word t)))
          ≡ some ps
        → Cut t ps
    go (some qs) e k = progress-Cut t (split_blank_lines t) ps (blank_lines-Tiles t) (e ∙ k)
    go none e k = sentences (progress (split_after ends_sentence t)) refl k
