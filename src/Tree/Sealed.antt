-- ===== src/Tree/Sealed.antt =====
-- The seals of `cascade_all_from_with_services` in memory/tree/bucket_seal.rs, one after another.
use tinycortex.Tree.Forest.{Tree, Store}
use tinycortex.Tree.Seal.{SealServices, Fresh, SealError, seal_one_level}
use tinycortex.Queue.Handlers.{Serde}
use tinycortex.Tree.Buffer.{TreeConfig, is_empty, get_buffer, should_seal, Buffer}
use tinycortex.Queue.Config.{QueueConfig}
use tinycortex.Base.{
  ℕ, ◌>>=◌, ◌+◌, ◌&&◌, ◌∷◌, if◌then◌else◌, [], Bool, Result, List, String, err, ok, zero, suc, not,
  false, ◌≤◌, ◌<◌, ◌≡◌, true, refl, length, arith, subst, ap, ◌∙◌, ◌⊎◌, ◌||◌, sym, inl, inr,
}
use tinycortex.Tree.Cascade.{IsCascade, cascade-IsCascade, cascade, cascade_next, cascade_all_from}

module _ (config : QueueConfig) (tree_config : TreeConfig) (serde : Serde) (services : SealServices)
    (fresh : ℕ → Fresh) (enqueue_follow_ups : Bool) (tree : Tree) where
  -- A round seals: the buffer is not empty, and it is forced or due.
  abbrev pub seals : ℕ → Bool → Store → Bool
  seals level force s =
      let buf = get_buffer tree.id level s.buffers in
      not (is_empty buf.item_ids) && (force || should_seal tree_config buf)

  -- The seals of a cascade, one level after another. Only the first may be forced, and the cascade
  -- stops at the first level that does not seal, or without a round left.
  abbrev pub Sealed : ℕ → List String → ℕ → Bool → Store → Store → Type 0
  Sealed rounds [] level force s s' = (s' ≡ s) × ((rounds ≡ 0) ⊎ (seals level force s ≡ false))
  Sealed zero (id ∷ ids) level force s s' = ⊥
  Sealed (suc rounds) (id ∷ ids) level force s s' =
      (seals level force s ≡ true)
      × ((s₁ : Store) × (seal_one_level config tree_config serde services (fresh level)
              enqueue_follow_ups tree (get_buffer tree.id level s.buffers) s
            ≡ (ok id, s₁))
          × Sealed rounds ids (level + 1) false s₁ s')

  stopped :
      (rounds level : ℕ) (force : Bool) (s s' : Store) (ids : List String)
      → (rounds ≡ 0) ⊎ (seals level force s ≡ false)
      → ◌≡◌ {A = Result SealError (List String) × Store} (ok [], s) (ok ids, s')
      → Sealed rounds ids level force s s'
  stopped rounds level force s s' [] h e = (sym (ap (λ x. x.1) e), h)
  stopped rounds level force s s' (x ∷ ids) h e = ground (arith, ap (λ y. y.0) e)

  id_in : String → Result SealError (List String) → String
  id_in d (ok (x ∷ xs)) = x
  id_in d _ = d

  ids_in : Result SealError (List String) → List String
  ids_in (ok (x ∷ xs)) = xs
  ids_in _ = []

  cascade-one :
      (rounds level : ℕ) (force : Bool) (s s₁ s₂ s' : Store) (id : String)
      (r : Result SealError (List String)) (ids : List String)
      → seals level force s ≡ true
      → seal_one_level config tree_config serde services
          (fresh level)
          enqueue_follow_ups
          tree
          (get_buffer tree.id level s.buffers)
          s
        ≡ (ok id, s₁)
      → ((is : List String) → r ≡ ok is → Sealed rounds is (level + 1) false s₁ s₂)
      → ◌≡◌ {A = Result SealError (List String) × Store}
          ((r >>= λ is. ok (id ∷ is)), s₂)
          (ok ids, s')
      → Sealed (suc rounds) ids level force s s'
  unfolding id_in ids_in
  cascade-one rounds level force s s₁ s₂ s' id (err e) ids d o ih q =
      ground (arith, ap (λ y. y.0) q)
  cascade-one rounds level force s s₁ s₂ s' id (ok is) [] d o ih q = ground (arith, ap (λ y. y.0) q)
  cascade-one rounds level force s s₁ s₂ s' id (ok is) (x ∷ ids) d o ih q = (
    d,
    (
      s₁,
      o ∙ ap (λ z. (ok z, s₁)) (ap (λ y. id_in id y.0) q),
      subst (λ z. Sealed rounds z (level + 1) false s₁ s') (ap (λ y. ids_in y.0) q)
          (subst (λ z. Sealed rounds is (level + 1) false s₁ z) (ap (λ y. y.1) q) (ih is refl)),
    ),
  )

  cascade-Sealed :
      (rounds level : ℕ) (force : Bool) (s s' : Store) (ids : List String)
      → cascade config tree_config serde services fresh enqueue_follow_ups tree rounds level force s
        ≡ (ok ids, s')
      → Sealed rounds ids level force s s'
  unfolding cascade cascade_next
  cascade-Sealed zero level force s s' ids e = stopped zero level force s s' ids (inl refl) e
  cascade-Sealed (suc rounds) level force s s' ids e =
      go (not force && not (should_seal tree_config buf)) refl (is_empty buf.item_ids) refl one refl
        (cascade-Sealed rounds (level + 1) false) e
    where
      buf : Buffer
      buf = get_buffer tree.id level s.buffers

      one : Result SealError String × Store
      one =
          seal_one_level config tree_config serde services (fresh level) enqueue_follow_ups tree buf
            s

      rest : Store → Result SealError (List String) × Store
      rest =
          cascade config tree_config serde services fresh enqueue_follow_ups tree rounds (level + 1)
            false

      go :
          (b : Bool)
          → not force && not (should_seal tree_config buf) ≡ b
          → (c : Bool) → is_empty buf.item_ids ≡ c
          → (r : Result SealError String × Store) → one ≡ r
          → ((s₁ s₂ : Store) (is : List String)
              → rest s₁ ≡ (ok is, s₂)
              → Sealed rounds is (level + 1) false s₁ s₂)
          → (if b then (ok [], s) else if c then (ok [], s) else cascade_next rest r) ≡ (ok ids, s')
          → Sealed (suc rounds) ids level force s s'
      go true e c f r o ih q = stopped (suc rounds) level force s s' ids (inr (ground (arith, e))) q
      go false e true f r o ih q =
          stopped (suc rounds) level force s s' ids (inr (ground (arith, f))) q
      go false e false f (err x, s₁) o ih q = ground (arith, ap (λ y. y.0) q)
      go false e false f (ok id, s₁) o ih q =
          cascade-one rounds level force s s₁ (rest s₁).1 s' id (rest s₁).0 ids
            (ground (arith, e, f)) o (λ is p. ih s₁ (rest s₁).1 is (ap (λ y. (y, (rest s₁).1)) p)) q

-- A cascade that succeeds seals level after level from the one where it starts: each sealed buffer
-- is not empty and due, where only the first may be forced instead, and each id is that of a seal
-- run on the store which the seals before it left. It stops at the first level that does not seal,
-- or after 32 seals, the code's cap; if it stops earlier, the buffer there is not due; and if it
-- seals nothing, the store is as it was.
pub cascade_all_from_lem :
    (config : QueueConfig) (tree_config : TreeConfig) (serde : Serde) (services : SealServices)
    (fresh : ℕ → Fresh) (flag : Bool) (tree : Tree) (level : ℕ) (force : Bool) (s s' : Store)
    (ids : List String)
    → cascade_all_from config tree_config serde services fresh flag tree level force s
      ≡ (ok ids, s')
    → Sealed config tree_config serde services fresh flag tree 32 ids level force s s'
      × (length ids ≤ 32)
      × (length ids < 32
          → should_seal tree_config (get_buffer tree.id (level + length ids) s'.buffers) ≡ false)
      × (ids ≡ [] → s' ≡ s)
unfolding cascade_all_from
cascade_all_from_lem config tree_config serde services fresh flag tree level force s s' ids e =
    let (short, (settled, still)) =
      subst (λ r. IsCascade config tree_config serde services fresh flag tree 32 level s r) e
        (cascade-IsCascade config tree_config serde services fresh flag tree 32 level force s) ids
        refl in
    (
      cascade-Sealed config tree_config serde services fresh flag tree 32 level force s s' ids e,
      short,
      settled,
      still,
    )
