-- ===== src/Chunks/Atomic.antt =====
-- `push_atomic_segments` of memory/chunks/produce_split.rs: it ends, and its segments tile the text.
use tinycortex.Base.{
  ◌≤◌, ◌<◌, ◌≡◌, ◌∙◌, ◌⊎◌, ◌∷◌, ◌++◌, [], List, All, Option, some, refl, ℕ, length, zero, arith,
  suc, subst, inr, inl, if◌then◌else◌, leb, none, Bool, true, false, Text, take, take-drop, drop,
}
use mathlib.Core.List.{append-nil}
use tinycortex.Chunks.Split.{
  join_segments, gather, hard_split, append_results, at_least_one, atomic_segments, boundaries,
}
use tinycortex.Chunks.Pieces.{join-append, length-drop, Part, boundaries-Cut}

All-append {ℓ} :
    {A : Type 0} (P : A → Type ℓ) (xs ys : List A) → All P xs → All P ys → All P (xs ++ ys)
All-append P [] ys h k = k
All-append P (x ∷ xs) ys h k = (h.0, All-append P xs ys h.1 k)

-- A result is there, tiles the text, and has a property in each segment.
abbrev pub Returns : (Text → Type 0) → Text → Option (List Text) → Type 0
Returns Q t o = (segs : List Text) × (o ≡ some segs) × (join_segments segs ≡ t) × All Q segs

append-Returns :
    (Q : Text → Type 0) (a b : Text) (o r : Option (List Text))
    → Returns Q a o
    → Returns Q b r
    → Returns Q (a ++ b) (append_results o r)
unfolding append_results
append-Returns Q a b o r (xs, e, j, q) (ys, e', j', q') =
    (xs ++ ys, (rw (e, e') refl), (join-append xs ys ∙ (rw (j, j') refl)), All-append Q xs ys q q')

gather-Returns :
    (Q : Text → Type 0) (f : Text → Option (List Text)) (ps : List Text)
    → All (λ p. Returns Q p (f p)) ps
    → Returns Q (join_segments ps) (gather f ps)
unfolding gather append_results join_segments
gather-Returns Q f [] h = ([], refl, refl, tt)
gather-Returns Q f (p ∷ ps) h =
    append-Returns Q p (join_segments ps) (f p) (gather f ps) h.0 (gather-Returns Q f ps h.1)

positive : (k : ℕ) → 1 ≤ at_least_one k
positive zero = omega arith
positive (suc k) = omega arith

module _ (estimate : Text → ℕ) (kept : Text → ℕ → ℕ) where
  -- What the truncation of the contract crate documents: a prefix within the budget.
  abbrev pub Truncates : Type 0
  Truncates =
      (t : Text) (budget : ℕ)
      → (kept t budget ≤ length t) × (estimate (take (kept t budget) t) ≤ budget)

  -- A segment has a character, and is within the budget or a single character.
  abbrev pub Atom : ℕ → Text → Type 0
  Atom budget s = (1 ≤ length s) × ((estimate s ≤ budget) ⊎ (length s ≡ 1))

  hard_split-Returns :
      Truncates
      → (fuel budget : ℕ) (t : Text) → length t < fuel
      → Returns (Atom budget) t (hard_split estimate kept fuel budget t)
  unfolding hard_split join_segments
  hard_split-Returns truncates zero budget t h = ground (arith, h)
  hard_split-Returns truncates (suc fuel) budget [] h = ([], refl, refl, tt)
  hard_split-Returns truncates (suc fuel) budget (c ∷ cs) h =
      subst (λ z. Returns (Atom budget) z (hard_split estimate kept (suc fuel) budget (c ∷ cs)))
        (take-drop n t)
        (append-Returns (Atom budget) (take n t) (drop n t) (some (take n t ∷ []))
          (hard_split estimate kept fuel budget (drop n t))
          (take n t ∷ [], refl, append-nil (take n t), (atom, tt))
          (hard_split-Returns truncates fuel budget (drop n t)
            (omega (arith, h, length-drop n t, positive (kept t budget)))))
    where
      t : Text
      t = c ∷ cs

      n : ℕ
      n = at_least_one (kept t budget)

      atom : Atom budget (take n t)
      atom = go (kept t budget) refl
        where
          go : (k : ℕ) → kept t budget ≡ k → Atom budget (take (at_least_one k) t)
          go zero e = (omega arith, inr refl)
          go (suc k) e = (
            omega arith,
            inl (subst (λ m. estimate (take m t) ≤ budget) e (truncates t budget).1),
          )

  pub atomic-Returns :
      Truncates
      → (fuel budget : ℕ) (t : Text) → length t < fuel
      → Returns (Atom budget) t (atomic_segments estimate kept fuel budget t)
  unfolding atomic_segments join_segments Part
  atomic-Returns truncates zero budget t h = ground (arith, h)
  atomic-Returns truncates (suc fuel) budget [] h = ([], refl, refl, tt)
  atomic-Returns truncates (suc fuel) budget (c ∷ cs) h =
      go (λ p k. atomic-Returns truncates fuel budget p k) (leb (estimate t) budget) refl
    where
      t : Text
      t = c ∷ cs

      parts :
          ((p : Text)
            → length p < fuel
            → Returns (Atom budget) p (atomic_segments estimate kept fuel budget p))
          → (ps : List Text) → All (Part t) ps
          → All (λ p. Returns (Atom budget) p (atomic_segments estimate kept fuel budget p)) ps
      parts ih [] k = tt
      parts ih (p ∷ ps) k = (ih p (omega (arith, h, k.0.1)), parts ih ps k.1)

      cut :
          ((p : Text)
            → length p < fuel
            → Returns (Atom budget) p (atomic_segments estimate kept fuel budget p))
          → (o : Option (List Text)) → boundaries t ≡ o
          → Returns (Atom budget) t (elim o [
            | some ps ↦ gather (atomic_segments estimate kept fuel budget) ps
            | none ↦ hard_split estimate kept (suc fuel) budget t
          ])
      cut ih (some ps) e =
          let (j, parted) = boundaries-Cut t ps e in
          subst
            (λ z. Returns (Atom budget) z (gather (atomic_segments estimate kept fuel budget) ps)) j
            (gather-Returns (Atom budget) (atomic_segments estimate kept fuel budget) ps
              (parts ih ps parted))
      cut ih none e = hard_split-Returns truncates (suc fuel) budget t h

      go :
          ((p : Text)
            → length p < fuel
            → Returns (Atom budget) p (atomic_segments estimate kept fuel budget p))
          → (b : Bool) → leb (estimate t) budget ≡ b
          → Returns (Atom budget) t (
              if b then some (t ∷ []) else elim (boundaries t) [
                | some ps ↦ gather (atomic_segments estimate kept fuel budget) ps
                | none ↦ hard_split estimate kept (suc fuel) budget t
              ])
      go ih true e = (t ∷ [], refl, append-nil t, ((omega arith, inl (ground (arith, e))), tt))
      go ih false e = cut ih (boundaries t) refl
