-- ===== src/Goals/Trim.antt =====
-- What the caps of memory/goals/store.rs drop.
use mathlib.Core.List.{append-nil, append_assoc}
use tinycortex.Base.{
  ◌≤◌, ◌<◌, ◌≡◌, ◌∙◌, ◌⊎◌, ◌&&◌, ◌∷◌, ◌++◌, if◌then◌else◌, [], List, Text, map, refl, ap, ℕ, length,
  inl, sym, inr, subst, arith, ltb, Bool, true, false, length-append, utf8_len,
}
use tinycortex.Goals.Doc.{GoalItem, Outside, cap_count, cap_size, GoalsDoc, enforce_caps}

map-append :
    (xs ys : List GoalItem) → map (λ i. i.id) (xs ++ ys) ≡ map (λ i. i.id) xs ++ map (λ i. i.id) ys
map-append [] ys = refl
map-append (x ∷ xs) ys = ap (λ z. x.id ∷ z) (map-append xs ys)

module _ (o : Outside) where
  abbrev pub rendered : List GoalItem → ℕ
  rendered is = utf8_len (o.render (record { items = is }))

  -- Nothing was dropped, or the last item dropped and the items left are too much.
  abbrev pub Needed : (List GoalItem → Type 0) → List GoalItem → List GoalItem → Type 0
  Needed Much pre left =
      (pre ≡ [])
      ⊎ ((init : List GoalItem) × (j : GoalItem) × (pre ≡ init ++ (j ∷ [])) × Much (j ∷ left))

  abbrev Cut : (List GoalItem → Type 0) → List Text × List GoalItem → List GoalItem → Type 0
  Cut Much r is =
      (pre : List GoalItem) × (is ≡ pre ++ r.1) × (map (λ i. i.id) pre ≡ r.0) × Needed Much pre r.1

  abbrev pub TooMany : List GoalItem → Type 0
  TooMany is = 8 < length is

  abbrev pub TooLarge : List GoalItem → Type 0
  TooLarge is = (2000 < rendered is) × (1 < length is)

  -- One more item in front, which was dropped.
  Cut-cons :
      (Much : List GoalItem → Type 0) (i : GoalItem) (r : List Text × List GoalItem)
      (is : List GoalItem)
      → Much (i ∷ is)
      → Cut Much r is
      → Cut Much (i.id ∷ r.0, r.1) (i ∷ is)
  Cut-cons Much i r is m (pre, e, d, inl n) = (
    i ∷ [],
    ap (λ z. i ∷ z) (e ∙ ap (λ p. p ++ r.1) n),
    ap (λ z. i.id ∷ z) (ap (λ p. map (λ x. x.id) p) (sym n) ∙ d),
    inr ([], i, refl, subst (λ z. Much (i ∷ z)) (e ∙ ap (λ p. p ++ r.1) n) m),
  )
  Cut-cons Much i r is m (pre, e, d, inr (init, j, f, k)) =
      (i ∷ pre, ap (λ z. i ∷ z) e, ap (λ z. i.id ∷ z) d, inr (i ∷ init, j, ap (λ z. i ∷ z) f, k))

  cap_count-Cut :
      (is : List GoalItem) → Cut TooMany (cap_count is) is × (length (cap_count is).1 ≤ 8)
  unfolding cap_count
  cap_count-Cut [] = (([], refl, refl, inl refl), omega arith)
  cap_count-Cut (i ∷ is) = go (ltb 8 (length (i ∷ is))) refl (cap_count-Cut is)
    where
      Goal : List Text × List GoalItem → Type 0
      Goal r = Cut TooMany r (i ∷ is) × (length r.1 ≤ 8)

      go :
          (b : Bool)
          → ltb 8 (length (i ∷ is)) ≡ b
          → Cut TooMany (cap_count is) is × (length (cap_count is).1 ≤ 8)
          → Goal (if b then (i.id ∷ (cap_count is).0, (cap_count is).1) else ([], i ∷ is))
      go true e (c, l) = (Cut-cons TooMany i (cap_count is) is (ground (arith, e)) c, l)
      go false e h = (([], refl, refl, inl refl), ground (arith, e))

  cap_size-Cut :
      (is : List GoalItem)
      → Cut TooLarge (cap_size o is) is
        × ((rendered (cap_size o is).1 ≤ 2000) ⊎ (length (cap_size o is).1 ≤ 1))
  unfolding cap_size
  cap_size-Cut [] = (([], refl, refl, inl refl), inr (omega arith))
  cap_size-Cut (i ∷ is) =
      go (ltb 2000 (rendered (i ∷ is))) refl (ltb 1 (length (i ∷ is))) refl (cap_size-Cut is)
    where
      Goal : List Text × List GoalItem → Type 0
      Goal r = Cut TooLarge r (i ∷ is) × ((rendered r.1 ≤ 2000) ⊎ (length r.1 ≤ 1))

      go :
          (a : Bool)
          → ltb 2000 (rendered (i ∷ is)) ≡ a
          → (b : Bool) → ltb 1 (length (i ∷ is)) ≡ b
          → Cut TooLarge (cap_size o is) is
            × ((rendered (cap_size o is).1 ≤ 2000) ⊎ (length (cap_size o is).1 ≤ 1))
          → Goal (if a && b then (i.id ∷ (cap_size o is).0, (cap_size o is).1) else ([], i ∷ is))
      go true e true f (c, l) =
          (Cut-cons TooLarge i (cap_size o is) is (ground (arith, e), ground (arith, f)) c, l)
      go true e false f h = (([], refl, refl, inl refl), inr (ground (arith, f)))
      go false e b f h = (([], refl, refl, inl refl), inl (ground (arith, e)))

  -- What is left of a list and why: it ends the list, its ids follow those dropped, it has eight
  -- items at most, it is small or a single item, and one more item would be too much.
  abbrev pub Trimmed : List GoalItem → List Text → List GoalItem → Type 0
  Trimmed is dropped left =
      (pre : List GoalItem) × (is ≡ pre ++ left)
      × (map (λ i. i.id) pre ≡ dropped)
      × (length left ≤ 8)
      × ((rendered left ≤ 2000) ⊎ (length left ≤ 1))
      × Needed (λ js. TooMany js ⊎ TooLarge js) pre left

  pub enforce_caps-Trimmed :
      (doc : GoalsDoc) → Trimmed doc.items (enforce_caps o doc).0 (enforce_caps o doc).1.items
  unfolding enforce_caps
  enforce_caps-Trimmed doc =
      let ((pre, e, d, n), few) = cap_count-Cut doc.items in
      let ((pre', e', d', n'), small) = cap_size-Cut (cap_count doc.items).1 in
      (
        pre ++ pre',
        e
            ∙ ap (λ z. pre ++ z) e'
            ∙ sym (append_assoc pre pre' (cap_size o (cap_count doc.items).1).1),
        map-append pre pre' ∙ (rw (d, d') refl),
        omega (arith, few, ap length e', length-append pre' (cap_size o (cap_count doc.items).1).1),
        small,
        needed pre pre' e' n n',
      )
    where
      middle : List GoalItem
      middle = (cap_count doc.items).1

      left : List GoalItem
      left = (cap_size o middle).1

      needed :
          (pre pre' : List GoalItem)
          → middle ≡ pre' ++ left
          → Needed TooMany pre middle
          → Needed TooLarge pre' left
          → Needed (λ js. TooMany js ⊎ TooLarge js) (pre ++ pre') left
      needed pre pre' e n (inr (init, j, f, k)) =
          inr (pre ++ init, j, ap (λ z. pre ++ z) f ∙ sym (append_assoc pre init (j ∷ [])), inr k)
      needed pre pre' e (inl n) (inl f) = inl (rw (n, f) refl)
      needed pre pre' e (inr (init, j, f, k)) (inl g) = inr (
        init,
        j,
        (rw g (append-nil pre)) ∙ f,
        inl (subst (λ z. 8 < length (j ∷ z)) (e ∙ ap (λ p. p ++ left) g) k),
      )
