-- ===== src/Queue/Index.antt =====
-- The partial unique index over the dedupe keys of active rows: which statements can violate it.
use tinycortex.Base.{
  String, Bool, true, false, Option, none, [], ◌∷◌, ok, ◌≡◌, refl, ◌⊎◌, inl, inr, arith, In,
  Bool-cases, Option-cases, some, same_iff, Pairs, if◌then◌else◌,
}
use tinycortex.Queue.Table.{
  Row, Table, index_entry, holds, keys_unique, update_where, count_where, exec_update, is_key,
  has_id,
}

abbrev pub IsUnique : Table → Type 0
IsUnique t = keys_unique t ≡ true

-- The first entry takes no key that the second does not hold.
abbrev pub IsSub : Option String → Option String → Type 0
IsSub a b = (a ≡ none) ⊎ (a ≡ b)

-- Row by row, the first table takes no key that the second does not hold.
abbrev pub Sub : Table → Table → Type 0
Sub [] [] = Unit
Sub (r ∷ t) (s ∷ u) = IsSub (index_entry r) (index_entry s) × Sub t u
Sub _ _ = ⊥

Sub-holds : (k : String) (t u : Table) → Sub t u → holds k u ≡ false → holds k t ≡ false
unfolding holds
Sub-holds k [] [] s h = refl
Sub-holds k [] (y ∷ u) s h = elim s [ ]
Sub-holds k (r ∷ t) [] s h = elim s [ ]
Sub-holds k (r ∷ t) (y ∷ u) s h = ground (arith, Sub-holds k t u s.1)

pub Sub-IsUnique : (t u : Table) → Sub t u → IsUnique u → IsUnique t
unfolding keys_unique
Sub-IsUnique [] [] s h = refl
Sub-IsUnique [] (y ∷ u) s h = elim s [ ]
Sub-IsUnique (r ∷ t) [] s h = elim s [ ]
Sub-IsUnique (r ∷ t) (y ∷ u) s h = elim (Option-cases (index_entry r)) [
  | inl e ↦ ground (arith, Sub-IsUnique t u s.1)
  | inr (k, e) ↦ ground (arith, Sub-IsUnique t u s.1, Sub-holds k t u s.1)
]

-- An UPDATE that takes no new key leaves a table below the one it ran on.
pub Sub-update_where :
    (p : Row → Bool) (f : Row → Row) (t : Table)
    → ((r : Row) → In r t → p r ≡ true → IsSub (index_entry (f r)) (index_entry r))
    → Sub (update_where p f t) t
unfolding update_where
Sub-update_where p f [] h = tt
Sub-update_where p f (r ∷ t) h = elim (Bool-cases (p r)) [
  | inl e ↦ (ground (arith, h r (inl refl)), Sub-update_where p f t (λ x m. h x (inr m)))
  | inr e ↦ (ground arith, Sub-update_where p f t (λ x m. h x (inr m)))
]

pub exec_update-ok_of_unique :
    (p : Row → Bool) (f : Row → Row) (t : Table)
    → IsUnique (update_where p f t)
    → exec_update p f t ≡ ok (count_where p t, update_where p f t)
unfolding exec_update
exec_update-ok_of_unique p f t h = ground arith

-- Such an UPDATE is never refused, and the index stays unique.
pub exec_update_keeps :
    (p : Row → Bool) (f : Row → Row) (t : Table)
    → IsUnique t
    → ((r : Row) → In r t → p r ≡ true → IsSub (index_entry (f r)) (index_entry r))
    → (exec_update p f t ≡ ok (count_where p t, update_where p f t)) × IsUnique (update_where p f t)
exec_update_keeps p f t u h =
    let next = Sub-IsUnique (update_where p f t) t (Sub-update_where p f t h) u in
    (exec_update-ok_of_unique p f t next, next)

abbrev pub NoClash : Row → Row → Type 0
NoClash r s = (k : String) → index_entry r ≡ some k → index_entry s ≡ some k → ⊥

pub In-holds :
    (k : String) (s : Row) (t : Table) → In s t → index_entry s ≡ some k → holds k t ≡ true
unfolding holds
In-holds k s [] m e = elim m [ ]
In-holds k s (r ∷ t) (inl p) e = rw (← p, e) (ground (arith, same_iff k k))
In-holds k s (r ∷ t) (inr m) e = ground (arith, In-holds k s t m e)

pub holds-In :
    (k : String) (t : Table) → holds k t ≡ true → (s : Row) × In s t × (index_entry s ≡ some k)
unfolding holds
holds-In k (r ∷ t) h = elim (Bool-cases (is_key k (index_entry r))) [
  | inl e ↦ (r, inl refl, key e)
  | inr e ↦ let (s, m, f) = holds-In k t (ground arith) in (s, inr m, f)
]
  where
    key : is_key k (index_entry r) ≡ true → index_entry r ≡ some k
    key e = elim (Option-cases (index_entry r)) [
      | inl n ↦ ground arith
      | inr (j, f) ↦ ground (arith, same_iff j k)
    ]
holds-In k [] h = cc

pub IsUnique-Pairs : (t : Table) → IsUnique t → Pairs NoClash t
unfolding keys_unique
IsUnique-Pairs [] u = tt
IsUnique-Pairs (r ∷ t) u =
    ((λ s m k e f. ground (arith, In-holds k s t m f)), IsUnique-Pairs t (ground arith))

pub Pairs-IsUnique : (t : Table) → Pairs NoClash t → IsUnique t
unfolding keys_unique
Pairs-IsUnique [] h = refl
Pairs-IsUnique (r ∷ t) h = elim (Option-cases (index_entry r)) [
  | inl e ↦ ground (arith, Pairs-IsUnique t h.1)
  | inr (k, e) ↦ elim (Bool-cases (holds k t)) [
    | inl y ↦ let (s, m, f) = holds-In k t y in absurd (h.0 s m k e f)
    | inr n ↦ ground (arith, Pairs-IsUnique t h.1)
  ]
]

pub has_id-eq : (i : String) (r : Row) → has_id i r ≡ true → r.id ≡ i
unfolding has_id
has_id-eq i r h = (same_iff r.id i).0 h

pub has_id-of_eq : (i : String) (r : Row) → r.id ≡ i → has_id i r ≡ true
unfolding has_id
has_id-of_eq i r e = (same_iff r.id i).1 e

pub In-update_where :
    (p : Row → Bool) (f : Row → Row) (x : Row) (t : Table)
    → In x (update_where p f t)
    → (r : Row) × In r t × (x ≡ (if p r then f r else r))
unfolding update_where
In-update_where p f x [] m = elim m [ ]
In-update_where p f x (r ∷ t) (inl e) = (r, inl refl, e)
In-update_where p f x (r ∷ t) (inr m) = let (s, n, e) = In-update_where p f x t m in (s, inr n, e)

pub In-image :
    (p : Row → Bool) (f : Row → Row) (r : Row) (t : Table)
    → In r t
    → In (if p r then f r else r) (update_where p f t)
unfolding update_where
In-image p f r [] m = elim m [ ]
In-image p f r (s ∷ t) (inl e) = inl (rw e refl)
In-image p f r (s ∷ t) (inr m) = inr (In-image p f r t m)
