-- ===== src/Tree/Retry.antt =====
-- `append_to_buffer` of memory/tree/bucket_seal.rs, called again after a failure.
use tinycortex.Queue.Gate.{new}
use tinycortex.Tree.Rows.{is_at-place, get_buffer-is_at, get_buffer-upsert_at}
use tinycortex.Tree.Append.{append_item, append_to_buffer}
use tinycortex.Tree.Buffer.{
  Buffers, Buffer, push_item, get_buffer, is_at, upsert_buffer, no_tree, tree_archived,
}
use tinycortex.Base.{
  Bool-cases, ◌>>=◌, ok_or, ◌≡◌, ◌∙◌, ◌≢◌, ◌||◌, ◌∷◌, ◌++◌, if◌then◌else◌, [], String, List, any,
  same, true, same_refl, refl, Bool, false, ℕ, ap, Pairs, In, In-append, inl, inr, sym, Option, ok,
  err, none, arith, some, subst,
}
use tinycortex.Tree.Growth.{Append, items, append_item_grows}

any-append_last : (x : String) (xs : List String) → any (same x) (xs ++ (x ∷ [])) ≡ true
any-append_last x [] = rw (same_refl x) refl
any-append_last x (y ∷ xs) = rw (any-append_last x xs) (or_true (same x y))
  where
    or_true : (b : Bool) → b || true ≡ true
    or_true true = refl
    or_true false = refl

-- After an append the buffer holds the item.
append_item-found :
    (t : String) (l : ℕ) (item : String) (d ts : ℕ) (bs : Buffers)
    → any (same item) (items t l (append_item t l item d ts bs)) ≡ true
unfolding append_item
append_item-found t l item d ts bs = go (any (same item) (items t l bs)) refl
  where
    pushed : Buffer
    pushed = push_item item d ts (get_buffer t l bs)

    at : is_at t l pushed ≡ true
    at =
        unfold push_item in
        (is_at-place t l pushed (get_buffer t l bs) refl refl ∙ get_buffer-is_at t l bs)

    go :
        (b : Bool)
        → any (same item) (items t l bs) ≡ b
        → any (same item) (items t l (if b then bs else upsert_buffer pushed bs)) ≡ true
    go true e = e
    go false e =
        ap (λ b. any (same item) b.item_ids) (get_buffer-upsert_at t l pushed bs at)
        ∙ unfold push_item in any-append_last item (items t l bs)

Pairs-append :
    (xs more : List String)
    → Pairs (λ y z. y ≢ z) xs
    → Pairs (λ y z. y ≢ z) more
    → ((y : String) → In y more → ¬ In y xs)
    → Pairs (λ y z. y ≢ z) (xs ++ more)
Pairs-append [] more p q h = q
Pairs-append (x ∷ xs) more p q h = (
  (λ y m e. elim (In-append y xs more m) [ inl n ↦ p.0 y n e | inr n ↦ h y n (inl (sym e)) ]),
  Pairs-append xs more p.1 q (λ y m n. h y m (inr n)),
)

append_item-again :
    (t : String) (l : ℕ) (item : String) (d ts : ℕ) (bs : Buffers)
    → any (same item) (items t l bs) ≡ true
    → append_item t l item d ts bs ≡ bs
unfolding append_item
append_item-again t l item d ts bs h = rw h refl

append_item-Pairs :
    (a : Append) (u : String) (m : ℕ) (bs : Buffers)
    → Pairs (λ y z. y ≢ z) (items u m bs)
    → Pairs (λ y z. y ≢ z) (items u m (append_item a.tree_id a.level a.item a.tokens a.instant bs))
append_item-Pairs a u m bs p =
    let (more, (e, (new, apart))) = append_item_grows a u m bs in
    subst (Pairs (λ y z. y ≢ z)) (sym e)
      (Pairs-append (items u m bs) more p apart (λ y n. (new y n).1))

-- An append that succeeded can be repeated, with whatever token count and instant: the second call
-- succeeds and changes nothing. And where no item stood twice in a buffer, none does after it.
pub append_to_buffer_lem :
    (status_of : String → Option String) (t : String) (l : ℕ) (item : String) (d ts d₂ ts₂ : ℕ)
    (bs after : Buffers)
    → append_to_buffer status_of t l item d ts bs ≡ ok after
    → (append_to_buffer status_of t l item d₂ ts₂ after ≡ ok after)
      × ((u : String) (m : ℕ)
          → Pairs (λ y z. y ≢ z) (items u m bs)
          → Pairs (λ y z. y ≢ z) (items u m after))
unfolding append_to_buffer
append_to_buffer_lem status_of t l item d ts d₂ ts₂ bs after h = go (status_of t) refl h
  where
    once : Buffers
    once = append_item t l item d ts bs

    call : Append
    call = record { tree_id = t; level = l; item = item; tokens = d; instant = ts }

    settled :
        (status : String)
        → status_of t ≡ some status
        → same status "active" ≡ true
        → once ≡ after
        → (append_to_buffer status_of t l item d₂ ts₂ after ≡ ok after)
          × ((u : String) (m : ℕ)
              → Pairs (λ y z. y ≢ z) (items u m bs)
              → Pairs (λ y z. y ≢ z) (items u m after))
    settled status e f k = (
      rw (e, f, sym k)
          (ap ok (append_item-again t l item d₂ ts₂ once (append_item-found t l item d ts bs))),
      λ u m p. subst (λ b. Pairs (λ y z. y ≢ z) (items u m b)) k (append_item-Pairs call u m bs p),
    )

    go :
        (o : Option String)
        → status_of t ≡ o
        → (ok_or no_tree o >>= λ status.
            if same status "active" then ok once else err tree_archived)
          ≡ ok after
        → (append_to_buffer status_of t l item d₂ ts₂ after ≡ ok after)
          × ((u : String) (m : ℕ)
              → Pairs (λ y z. y ≢ z) (items u m bs)
              → Pairs (λ y z. y ≢ z) (items u m after))
    go none e k = ground arith
    go (some status) e k = elim (Bool-cases (same status "active")) [
      | inl f ↦ settled status e f (ground arith)
      | inr f ↦ ground arith
    ]
