-- ===== src/Store/Newest.antt =====
-- The order of the listings of memory/store/kv.rs.
use mathlib.Core.List.{Perm}
use mathlib.Core.List.Perm
use tinycortex.Base.{
  ◌≤◌, ◌≡◌, ◌∷◌, if◌then◌else◌, [], Bool, List, All, keep, true, false, ℕ, ltb, arith, refl,
}
use tinycortex.Store.Listing.{insert_newest, by_newest}

module _ {A : Type 0} (P : A → Type 0) where
  pub All-keep : (p : A → Bool) (xs : List A) → All P xs → All P (keep p xs)
  All-keep p [] h = tt
  All-keep p (x ∷ xs) h = go (p x) (All-keep p xs h.1)
    where
      go : (b : Bool) → All P (keep p xs) → All P (if b then x ∷ keep p xs else keep p xs)
      go true k = (h.0, k)
      go false k = k

module _ {A : Type 0} (instant : A → ℕ) where
  -- No record is older than a later one.
  abbrev pub Newest : List A → Type 0
  Newest [] = Unit
  Newest (x ∷ xs) = All (λ y. instant y ≤ instant x) xs × Newest xs

  All-insert :
      (P : A → Type 0) (x : A) (xs : List A) → P x → All P xs → All P (insert_newest instant x xs)
  unfolding insert_newest
  All-insert P x [] p h = (p, tt)
  All-insert P x (y ∷ ys) p h = go (ltb (instant x) (instant y)) (All-insert P x ys p h.1)
    where
      go :
          (b : Bool)
          → All P (insert_newest instant x ys)
          → All P (if b then y ∷ insert_newest instant x ys else x ∷ y ∷ ys)
      go true k = (h.0, k)
      go false k = (p, h)

  pub All-newest : (P : A → Type 0) (xs : List A) → All P xs → All P (by_newest instant xs)
  unfolding by_newest
  All-newest P [] h = tt
  All-newest P (x ∷ xs) h = All-insert P x (by_newest instant xs) h.0 (All-newest P xs h.1)

  All-weaken :
      (m n : ℕ) → m ≤ n → (xs : List A) → All (λ y. instant y ≤ m) xs → All (λ y. instant y ≤ n) xs
  All-weaken m n k [] h = tt
  All-weaken m n k (x ∷ xs) h = (omega (arith, h.0, k), All-weaken m n k xs h.1)

  insert-Newest : (x : A) (xs : List A) → Newest xs → Newest (insert_newest instant x xs)
  unfolding insert_newest
  insert-Newest x [] h = (tt, tt)
  insert-Newest x (y ∷ ys) h = go (ltb (instant x) (instant y)) refl (insert-Newest x ys h.1)
    where
      go :
          (b : Bool)
          → ltb (instant x) (instant y) ≡ b
          → Newest (insert_newest instant x ys)
          → Newest (if b then y ∷ insert_newest instant x ys else x ∷ y ∷ ys)
      go true e k = (All-insert (λ z. instant z ≤ instant y) x ys (ground (arith, e)) h.0, k)
      go false e k =
          ((ground (arith, e), All-weaken (instant y) (instant x) (ground (arith, e)) ys h.0), h)

  pub by_newest-Newest : (xs : List A) → Newest (by_newest instant xs)
  unfolding by_newest
  by_newest-Newest [] = tt
  by_newest-Newest (x ∷ xs) = insert-Newest x (by_newest instant xs) (by_newest-Newest xs)

  insert-Perm : (x : A) (xs : List A) → Perm (insert_newest instant x xs) (x ∷ xs)
  unfolding insert_newest
  insert-Perm x [] = Perm.rfl
  insert-Perm x (y ∷ ys) = go (ltb (instant x) (instant y)) (insert-Perm x ys)
    where
      go :
          (b : Bool)
          → Perm (insert_newest instant x ys) (x ∷ ys)
          → Perm (if b then y ∷ insert_newest instant x ys else x ∷ y ∷ ys) (x ∷ y ∷ ys)
      go true k = Perm.trans (Perm.cons y k) (Perm.swap x y ys)
      go false k = Perm.rfl

  pub by_newest-Perm : (xs : List A) → Perm (by_newest instant xs) xs
  unfolding by_newest
  by_newest-Perm [] = Perm.rfl
  by_newest-Perm (x ∷ xs) =
      Perm.trans (insert-Perm x (by_newest instant xs)) (Perm.cons x (by_newest-Perm xs))
