-- ===== src/Tree/Snapshot.antt =====
-- A seal reads a buffer, summarises it without a lock and consumes what it read: what
-- memory/tree/store/buffers.rs does when other workers wrote in between.
use tinycortex.Tree.Growth.{items, Append, append_all, append_all_grows, append_item_grows}
use tinycortex.Base.{
  ◌>>=◌, ok_or, String, ℕ, Bool, true, false, ◌≡◌, ◌≢◌, refl, arith, ◌∷◌, ◌++◌, [], List, same_iff,
  if◌then◌else◌, inl, inr, ap, ◌∙◌, sym, same, same_refl, Option, some, none, In, Pairs, All, ok,
  err, subst, In-append, In-append_right, ok_or,
}
use tinycortex.Tree.Buffer.{
  Buffer, Buffers, get_buffer, upsert_buffer, is_at, strip_prefix, consume_snapshot, consumed,
  buffer_changed,
}
use tinycortex.Tree.Append.{append_item}
use tinycortex.Tree.Rows.{
  is_at_lem, is_at-place, get_buffer-is_at, get_buffer-upsert_at, get_buffer-upsert_other,
}

strip_prefix-append : (xs ys : List String) → strip_prefix xs (xs ++ ys) ≡ some ys
unfolding strip_prefix
strip_prefix-append [] ys = refl
strip_prefix-append (x ∷ xs) ys = rw (same_refl x) (strip_prefix-append xs ys)

strip_prefix-absent :
    (x : String) (xs ys : List String) → ¬ In x ys → strip_prefix (x ∷ xs) ys ≡ none
unfolding strip_prefix
strip_prefix-absent x xs [] h = refl
strip_prefix-absent x xs (y ∷ ys) h = go (same x y) refl
  where
    go : (b : Bool) → same x y ≡ b → (if b then strip_prefix xs ys else none) ≡ none
    go true e = elim (h (inl ((same_iff x y).0 e))) [ ]
    go false e = refl

consumed-items : (c : Buffer) (n : ℕ) (rest : List String) → (consumed c n rest).item_ids ≡ rest
unfolding consumed
consumed-items c n [] = refl
consumed-items c n (x ∷ rest) = refl

consumed-place :
    (c : Buffer) (n : ℕ) (rest : List String) (t : String) (l : ℕ)
    → is_at t l (consumed c n rest) ≡ is_at t l c
unfolding consumed is_at
consumed-place c n [] t l = refl
consumed-place c n (x ∷ rest) t l = refl

consume_snapshot-ok :
    (t : String) (l : ℕ) (snapshot : Buffer) (bs : Buffers) (rest : List String)
    → is_at t l snapshot ≡ true
    → items t l bs ≡ snapshot.item_ids ++ rest
    → consume_snapshot snapshot bs
      ≡ ok (upsert_buffer (consumed (get_buffer t l bs) snapshot.token_sum rest) bs)
unfolding consume_snapshot
consume_snapshot-ok t l snapshot bs rest h e =
    rw
      (
        (is_at_lem t l snapshot h).0,
        (is_at_lem t l snapshot h).1,
        e,
        strip_prefix-append snapshot.item_ids rest,
      )
      refl

-- A buffer is read, then any calls of `append_to_buffer` run on any trees and levels, then a seal
-- consumes the snapshot that was read: it is not refused, the items of the snapshot followed by
-- those left over are exactly the items that the buffer held, and every other buffer is as it was.
pub consume_snapshot-append_all :
    (t : String) (l : ℕ) (bs : Buffers) (calls : List Append)
    → (after : Buffers) × ((consume_snapshot (get_buffer t l bs) (append_all calls bs) ≡ ok after)
        × ((items t l bs ++ items t l after ≡ items t l (append_all calls bs))
            × ((u : String) (m : ℕ)
                → is_at u m (get_buffer t l bs) ≡ false
                → get_buffer u m after ≡ get_buffer u m (append_all calls bs))))
consume_snapshot-append_all t l bs calls = (
  upsert_buffer b now,
  (
    consume_snapshot-ok t l snapshot now grown.0 own grown.1,
    (
      sym (grown.1 ∙ ap (λ xs. items t l bs ++ xs) (sym left_over)),
      λ u m h. get_buffer-upsert_other u m b now (place u m ∙ h),
    ),
  ),
)
  where
    now : Buffers
    now = append_all calls bs

    snapshot : Buffer
    snapshot = get_buffer t l bs

    own : is_at t l snapshot ≡ true
    own = get_buffer-is_at t l bs

    grown : (more : List String) × (items t l now ≡ items t l bs ++ more)
    grown = append_all_grows calls t l bs

    b : Buffer
    b = consumed (get_buffer t l now) snapshot.token_sum grown.0

    left_over : items t l (upsert_buffer b now) ≡ grown.0
    left_over =
        ap (λ c. c.item_ids)
          (get_buffer-upsert_at t l b now
            (consumed-place (get_buffer t l now) _ grown.0 t l ∙ get_buffer-is_at t l now))
        ∙ consumed-items (get_buffer t l now) _ grown.0

    place : (u : String) (m : ℕ) → is_at u m b ≡ is_at u m snapshot
    place u m =
        consumed-place (get_buffer t l now) _ grown.0 u m
        ∙ is_at-place u m (get_buffer t l now) snapshot
            ((is_at_lem t l _ (get_buffer-is_at t l now)).0 ∙ sym (is_at_lem t l snapshot own).0)
            ((is_at_lem t l _ (get_buffer-is_at t l now)).1 ∙ sym (is_at_lem t l snapshot own).1)

strip_prefix-some : (xs ys rest : List String) → strip_prefix xs ys ≡ some rest → ys ≡ xs ++ rest
unfolding strip_prefix
strip_prefix-some [] ys rest h = ground arith
strip_prefix-some (x ∷ xs) [] rest h = ground arith
strip_prefix-some (x ∷ xs) (y ∷ ys) rest h = go (same x y) refl h (strip_prefix-some xs ys rest)
  where
    go :
        (b : Bool)
        → same x y ≡ b
        → (if b then strip_prefix xs ys else none) ≡ some rest
        → (strip_prefix xs ys ≡ some rest → ys ≡ xs ++ rest)
        → y ∷ ys ≡ x ∷ (xs ++ rest)
    go true e k ih = rw ((same_iff x y).0 e, ih k) refl
    go false e k ih = ground arith

absent_after :
    (x : String) (t : String) (l : ℕ) (calls : List Append) (bs : Buffers)
    → All (λ a. x ≢ a.item) calls
    → ¬ In x (items t l bs)
    → ¬ In x (items t l (append_all calls bs))
absent_after x t l [] bs h n m = n m
absent_after x t l (a ∷ calls) bs h n m =
    absent_after x t l calls (append_item a.tree_id a.level a.item a.tokens a.instant bs) h.1 still
      m
  where
    still : ¬ In x (items t l (append_item a.tree_id a.level a.item a.tokens a.instant bs))
    still k =
        let grown = append_item_grows a t l bs in
        elim (In-append x (items t l bs) grown.0 (subst (In x) grown.1.0 k)) [
          | inl p ↦ n p
          | inr p ↦ h.0 (grown.1.1.0 x p).0
        ]

-- A seal that consumed a snapshot which was not empty leaves a competing seal of the same snapshot
-- nothing to consume: where no item stood twice in the buffer, and no call since appends the
-- snapshot's first item again, the second one is refused.
pub consume_snapshot-once :
    (snapshot : Buffer) (bs after : Buffers) (x : String) (xs : List String) (calls : List Append)
    → snapshot.item_ids ≡ x ∷ xs
    → Pairs (λ y z. y ≢ z) (items snapshot.tree_id snapshot.level bs)
    → consume_snapshot snapshot bs ≡ ok after
    → All (λ a. x ≢ a.item) calls
    → consume_snapshot snapshot (append_all calls after) ≡ err buffer_changed
unfolding consume_snapshot
consume_snapshot-once snapshot bs after x xs calls e u h f =
    go (strip_prefix snapshot.item_ids (items t l bs)) refl h
  where
    t : String
    t = snapshot.tree_id

    l : ℕ
    l = snapshot.level

    written : List String → Buffer
    written rest = consumed (get_buffer t l bs) snapshot.token_sum rest

    unseen : (rest : List String) → items t l bs ≡ snapshot.item_ids ++ rest → ¬ In x rest
    unseen rest p m =
        (subst (Pairs (λ y z. y ≢ z)) (p ∙ ap (λ ys. ys ++ rest) e) u).0 x
          (In-append_right x xs rest m) refl

    left_over : (rest : List String) → items t l (upsert_buffer (written rest) bs) ≡ rest
    left_over rest =
        ap (λ c. c.item_ids)
          (get_buffer-upsert_at t l (written rest) bs
            (consumed-place (get_buffer t l bs) _ rest t l ∙ get_buffer-is_at t l bs))
        ∙ consumed-items (get_buffer t l bs) _ rest

    refused :
        (bs₁ : Buffers)
        → ¬ In x (items t l bs₁)
        → consume_snapshot snapshot bs₁ ≡ err buffer_changed
    refused bs₁ n = rw (e, strip_prefix-absent x xs (items t l bs₁) n) refl

    go :
        (found : Option (List String))
        → strip_prefix snapshot.item_ids (items t l bs) ≡ found
        → (ok_or buffer_changed found >>= λ rest. ok (upsert_buffer (written rest) bs)) ≡ ok after
        → consume_snapshot snapshot (append_all calls after) ≡ err buffer_changed
    go none d k = ground arith
    go (some rest) d k =
        refused (append_all calls after) (absent_after x t l calls after f (gone (ground arith)))
      where
        gone : upsert_buffer (written rest) bs ≡ after → ¬ In x (items t l after)
        gone p m =
            unseen rest (strip_prefix-some snapshot.item_ids (items t l bs) rest d)
              (subst (In x) (ap (items t l) (sym p) ∙ left_over rest) m)
