-- ===== src/Tree/Growth.antt =====
-- What `append_to_buffer` of memory/tree/bucket_seal.rs adds to the buffers.
use tinycortex.Base.{
  String, ◌||◌, ℕ, Bool, true, false, ◌≡◌, refl, arith, ◌∷◌, ◌++◌, [], List, same_iff,
  if◌then◌else◌, inl, inr, ap, ◌∙◌, sym, same, In, any, subst, ◌≢◌, Pairs,
}
use tinycortex.Tree.Buffer.{Buffer, Buffers, get_buffer, upsert_buffer, is_at, push_item}
use tinycortex.Tree.Append.{append_item}
use tinycortex.Tree.Rows.{
  is_at_lem, get_buffer-is_at, get_buffer-upsert_at, get_buffer-upsert_other,
}
use mathlib.Core.List.{append-nil, append_assoc}

-- The arguments of one call of `append_to_buffer` on an active tree.
pub record Append : Type 0 where
  pub tree_id : String
  pub level : ℕ
  pub item : String
  pub tokens : ℕ
  pub instant : ℕ

abbrev pub append_all : List Append → Buffers → Buffers
append_all [] bs = bs
append_all (a ∷ rest) bs =
    append_all rest (append_item a.tree_id a.level a.item a.tokens a.instant bs)

abbrev pub items : String → ℕ → Buffers → List String
items t l bs = (get_buffer t l bs).item_ids

any-In : (x : String) (ys : List String) → any (same x) ys ≡ false → ¬ In x ys
any-In x [] h m = m
any-In x (y ∷ ys) h m = go (same x y) refl h m (any-In x ys)
  where
    go :
        (b : Bool)
        → same x y ≡ b
        → b || any (same x) ys ≡ false
        → In x (y ∷ ys)
        → (any (same x) ys ≡ false → ¬ In x ys)
        → ⊥
    go true e k n ih = ground (arith, k)
    go false e k (inl p) ih = ground (arith, e, (same_iff x y).1 p)
    go false e k (inr n) ih = ih k n

-- One append leaves what a buffer held in front and adds its own item at most.
pub append_item_grows :
    (a : Append) (t : String) (l : ℕ) (bs : Buffers)
    → (more : List String) × ((items t l
            (append_item a.tree_id a.level a.item a.tokens a.instant bs)
          ≡ items t l bs ++ more)
        × (((y : String) → In y more → (y ≡ a.item) × ¬ In y (items t l bs))
            × Pairs (λ y z. y ≢ z) more))
unfolding append_item push_item
append_item_grows a t l bs = go (any (same a.item) buf.item_ids) (is_at t l pushed) refl refl
  where
    buf : Buffer
    buf = get_buffer a.tree_id a.level bs

    pushed : Buffer
    pushed = push_item a.item a.tokens a.instant buf

    own : (buf.tree_id ≡ a.tree_id) × (buf.level ≡ a.level)
    own = is_at_lem a.tree_id a.level buf (get_buffer-is_at a.tree_id a.level bs)

    same_place : is_at t l pushed ≡ true → items a.tree_id a.level bs ≡ items t l bs
    same_place h =
        rw (sym own.0 ∙ (is_at_lem t l pushed h).0, sym own.1 ∙ (is_at_lem t l pushed h).1) refl

    go :
        (found at : Bool)
        → any (same a.item) buf.item_ids ≡ found
        → is_at t l pushed ≡ at
        → (more : List String) × ((items t l (if found then bs else upsert_buffer pushed bs)
              ≡ items t l bs ++ more)
            × (((y : String) → In y more → (y ≡ a.item) × ¬ In y (items t l bs))
                × Pairs (λ y z. y ≢ z) more))
    go true at d e = ([], (sym (append-nil (items t l bs)), ((λ y m. elim m [ ]), tt)))
    go false false d e = (
      [],
      (
        ap (λ b. b.item_ids) (get_buffer-upsert_other t l pushed bs e)
            ∙ sym (append-nil (items t l bs)),
        ((λ y m. elim m [ ]), tt),
      ),
    )
    go false true d e = (
      a.item ∷ [],
      (
        ap (λ b. b.item_ids) (get_buffer-upsert_at t l pushed bs e)
            ∙ ap (λ xs. xs ++ (a.item ∷ [])) (same_place e),
        (
          (λ y m. (
            only y m,
            λ n. any-In a.item buf.item_ids d (
                subst (In a.item) (sym (same_place e))
                  (subst (λ z. In z (items t l bs)) (only y m) n)),
          )),
          ((λ y m. elim m [ ]), tt),
        ),
      ),
    )
      where
        only : (y : String) → In y (a.item ∷ []) → y ≡ a.item
        only y (inl p) = p
        only y (inr m) = elim m [ ]

pub append_all_grows :
    (calls : List Append) (t : String) (l : ℕ) (bs : Buffers)
    → (more : List String) × (items t l (append_all calls bs) ≡ items t l bs ++ more)
append_all_grows [] t l bs = ([], sym (append-nil (items t l bs)))
append_all_grows (a ∷ calls) t l bs =
    let first = append_item_grows a t l bs in
    let later =
      append_all_grows calls t l (append_item a.tree_id a.level a.item a.tokens a.instant bs) in
    (
      first.0 ++ later.0,
      later.1 ∙ ap (λ xs. xs ++ later.0) first.1.0 ∙ append_assoc (items t l bs) first.0 later.0,
    )
