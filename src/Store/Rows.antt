-- ===== src/Store/Rows.antt =====
-- The tables of memory/store/kv.rs: rows under a primary key, written by `INSERT … ON CONFLICT DO
-- UPDATE`. A statement is taken to succeed. Instants are numbers, read only by their order.
use tinycortex.Base.{
  ◌≡◌, ◌∷◌, if◌then◌else◌, [], Text, ℕ, Bool, List, Option, none, some, length, keep, not, true,
  refl, false, ◌∙◌, sym, arith, ap, ltb,
}

pub record Row (K : Type 0) : Type 0 where
  pub key : K
  pub value_json : Text
  pub updated_at : ℕ

abbrev pub is_some {ℓ} : {A : Type ℓ} → Option A → Bool
is_some none = false
is_some (some a) = true

module _ {K : Type 0} (same_key : K → K → Bool) where
  -- A conflicting row keeps its place and its key.
  unfoldable pub upsert : K → Text → ℕ → List (Row K) → List (Row K)
  upsert k raw now [] = record { key = k; value_json = raw; updated_at = now } ∷ []
  upsert k raw now (r ∷ rs) =
      let rest = upsert k raw now rs in
      if same_key k r.key then record r { value_json = raw; updated_at = now } ∷ rs else r ∷ rest

  -- `SELECT value_json … WHERE` the key.
  unfoldable pub find_value : K → List (Row K) → Option Text
  find_value k [] = none
  find_value k (r ∷ rs) =
      let rest = find_value k rs in if same_key k r.key then some r.value_json else rest

  -- The rows removed are counted.
  unfoldable pub delete_row : K → List (Row K) → ℕ × List (Row K)
  delete_row k rs =
      (length (keep (λ r. same_key k r.key) rs), keep (λ r. not (same_key k r.key)) rs)

  -- The test decides equality of keys.
  abbrev pub Decides : Type 0
  Decides = ((k : K) → same_key k k ≡ true) × ((j k : K) → same_key j k ≡ true → j ≡ k)

  pub find_value-upsert :
      Decides
      → (j k : K) (raw : Text) (now : ℕ) (rs : List (Row K))
      → find_value j (upsert k raw now rs) ≡ (if same_key j k then some raw else find_value j rs)
  unfolding upsert find_value
  find_value-upsert d j k raw now [] = refl
  find_value-upsert d j k raw now (r ∷ rs) =
      go (same_key k r.key) refl (same_key j r.key) refl (same_key j k) refl
        (find_value-upsert d j k raw now rs)
    where
      written : Row K
      written = record r { value_json = raw; updated_at = now }

      go :
          (at : Bool)
          → same_key k r.key ≡ at
          → (hit : Bool) → same_key j r.key ≡ hit
          → (own : Bool) → same_key j k ≡ own
          → find_value j (upsert k raw now rs) ≡ (if own then some raw else find_value j rs)
          → find_value j (if at then written ∷ rs else r ∷ upsert k raw now rs)
            ≡ (if own then some raw else if hit then some r.value_json else find_value j rs)
      go true a true h true o ih = rw h refl
      go true a false h false o ih = rw h refl
      go true a true h false o ih = ground (arith, sym o ∙ ap (same_key j) (d.1 k r.key a) ∙ h)
      go true a false h true o ih = ground (arith, sym o ∙ ap (same_key j) (d.1 k r.key a) ∙ h)
      go false a true h true o ih =
          ground (arith, sym a ∙ ap (λ x. same_key x r.key) (sym (d.1 j k o)) ∙ h)
      go false a true h false o ih = rw h refl
      go false a false h own o ih = rw h ih

  pub find_value-delete :
      Decides
      → (j k : K) (rs : List (Row K))
      → find_value j (delete_row k rs).1 ≡ (if same_key j k then none else find_value j rs)
  unfolding delete_row find_value
  find_value-delete d j k [] = go (same_key j k)
    where
      go : (b : Bool) → ◌≡◌ {A = Option Text} none (if b then none else none)
      go true = refl
      go false = refl
  find_value-delete d j k (r ∷ rs) =
      go (same_key k r.key) refl (same_key j r.key) refl (same_key j k) refl
        (find_value-delete d j k rs)
    where
      left : List (Row K)
      left = keep (λ x. not (same_key k x.key)) rs

      go :
          (at : Bool)
          → same_key k r.key ≡ at
          → (hit : Bool) → same_key j r.key ≡ hit
          → (own : Bool) → same_key j k ≡ own
          → find_value j left ≡ (if own then none else find_value j rs)
          → find_value j (if not at then r ∷ left else left)
            ≡ (if own then none else if hit then some r.value_json else find_value j rs)
      go true a hit h true o ih = ih
      go true a true h false o ih = ground (arith, sym o ∙ ap (same_key j) (d.1 k r.key a) ∙ h)
      go true a false h false o ih = ih
      go false a true h true o ih =
          ground (arith, sym a ∙ ap (λ x. same_key x r.key) (sym (d.1 j k o)) ∙ h)
      go false a true h false o ih = rw h refl
      go false a false h own o ih = rw h ih

  -- A delete counts a row exactly if the key was there.
  pub delete_row-count :
      (k : K) (rs : List (Row K)) → ltb 0 (delete_row k rs).0 ≡ is_some (find_value k rs)
  unfolding delete_row find_value
  delete_row-count k [] = refl
  delete_row-count k (r ∷ rs) = go (same_key k r.key) (delete_row-count k rs)
    where
      hits : List (Row K)
      hits = keep (λ x. same_key k x.key) rs

      go :
          (b : Bool)
          → ltb 0 (length hits) ≡ is_some (find_value k rs)
          → ltb 0 (length (if b then r ∷ hits else hits))
            ≡ is_some (if b then some r.value_json else find_value k rs)
      go true ih = ground arith
      go false ih = ih
