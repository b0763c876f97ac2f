-- ===== src/Tree/Rows.antt =====
-- What a read of memory/tree/store/buffers.rs sees after a write: the laws of the buffer rows.
use tinycortex.Base.{
  String, ℕ, Bool, true, false, ◌≡◌, refl, arith, ◌∷◌, [], same_iff, if◌then◌else◌, ◌∙◌, sym, ◌&&◌,
  ◌==◌, same, same_refl, find, Option, some,
}
use tinycortex.Tree.Buffer.{Buffer, Buffers, get_buffer, upsert_buffer, is_at, empty}
use mathlib.Core.Option

pub is_at_lem :
    (t : String) (l : ℕ) (b : Buffer) → is_at t l b ≡ true → (b.tree_id ≡ t) × (b.level ≡ l)
unfolding is_at
is_at_lem t l b h = go (same b.tree_id t) refl (b.level == l) refl h
  where
    go :
        (x : Bool)
        → same b.tree_id t ≡ x
        → (y : Bool) → (b.level == l) ≡ y
        → x && y ≡ true
        → (b.tree_id ≡ t) × (b.level ≡ l)
    go true e true f h = ((same_iff b.tree_id t).0 e, ground arith)
    go true e false f h = ground arith
    go false e y f h = ground arith

pub is_at_of : (t : String) (l : ℕ) (b : Buffer) → b.tree_id ≡ t → b.level ≡ l → is_at t l b ≡ true
unfolding is_at
is_at_of t l b e f = rw ((same_iff b.tree_id t).1 e) ground (arith, f)

pub is_at_own : (b : Buffer) → is_at b.tree_id b.level b ≡ true
unfolding is_at
is_at_own b = ground (arith, same_refl b.tree_id)

pub get_buffer-is_at : (t : String) (l : ℕ) (bs : Buffers) → is_at t l (get_buffer t l bs) ≡ true
unfolding get_buffer
get_buffer-is_at t l [] = is_at_own (empty t l)
get_buffer-is_at t l (c ∷ bs) = go (is_at t l c) refl (get_buffer-is_at t l bs)
  where
    rest : Option Buffer
    rest = find (is_at t l) bs

    go :
        (x : Bool)
        → is_at t l c ≡ x
        → is_at t l (Option.get_or rest (empty t l)) ≡ true
        → is_at t l (Option.get_or (if x then some c else rest) (empty t l)) ≡ true
    go true e ih = e
    go false e ih = ih

pub get_buffer-upsert_same :
    (b : Buffer) (bs : Buffers) → get_buffer b.tree_id b.level (upsert_buffer b bs) ≡ b
unfolding get_buffer upsert_buffer
get_buffer-upsert_same b [] = rw (is_at_own b) refl
get_buffer-upsert_same b (c ∷ bs) =
    go (is_at b.tree_id b.level c) refl (get_buffer-upsert_same b bs)
  where
    go :
        (x : Bool)
        → is_at b.tree_id b.level c ≡ x
        → get_buffer b.tree_id b.level (upsert_buffer b bs) ≡ b
        → get_buffer b.tree_id b.level (if x then b ∷ bs else c ∷ upsert_buffer b bs) ≡ b
    go true e ih = rw (is_at_own b) refl
    go false e ih = rw e ih

pub get_buffer-upsert_other :
    (t : String) (l : ℕ) (b : Buffer) (bs : Buffers)
    → is_at t l b ≡ false
    → get_buffer t l (upsert_buffer b bs) ≡ get_buffer t l bs
unfolding get_buffer upsert_buffer
get_buffer-upsert_other t l b [] h = rw h refl
get_buffer-upsert_other t l b (c ∷ bs) h =
    go (is_at b.tree_id b.level c) refl (is_at t l c) refl (get_buffer-upsert_other t l b bs h)
  where
    at_key :
        (c.tree_id ≡ b.tree_id) × (c.level ≡ b.level)
        → (c.tree_id ≡ t) × (c.level ≡ l)
        → is_at t l b ≡ true
    at_key p q = is_at_of t l b (sym p.0 ∙ q.0) (sym p.1 ∙ q.1)

    go :
        (x : Bool)
        → is_at b.tree_id b.level c ≡ x
        → (y : Bool) → is_at t l c ≡ y
        → get_buffer t l (upsert_buffer b bs) ≡ get_buffer t l bs
        → get_buffer t l (if x then b ∷ bs else c ∷ upsert_buffer b bs) ≡ get_buffer t l (c ∷ bs)
    go true e true f ih =
        ground (arith, h, at_key (is_at_lem b.tree_id b.level c e) (is_at_lem t l c f))
    go true e false f ih = rw (h, f) refl
    go false e true f ih = rw f refl
    go false e false f ih = rw f ih

pub get_buffer-upsert_at :
    (t : String) (l : ℕ) (b : Buffer) (bs : Buffers)
    → is_at t l b ≡ true
    → get_buffer t l (upsert_buffer b bs) ≡ b
get_buffer-upsert_at t l b bs h =
    rw (sym (is_at_lem t l b h).0, sym (is_at_lem t l b h).1) (get_buffer-upsert_same b bs)

pub is_at-place :
    (u : String) (m : ℕ) (b c : Buffer)
    → b.tree_id ≡ c.tree_id
    → b.level ≡ c.level
    → is_at u m b ≡ is_at u m c
unfolding is_at
is_at-place u m b c e f = rw (e, f) refl
