-- ===== src/Tree/Cascade.antt =====
-- `cascade_all_from_with_services` of memory/tree/bucket_seal.rs: a seal may fill the level above. The
-- artifact that a flavoured tree compiles afterwards is a file written on a best-effort basis and
-- is left out.
use tinycortex.Tree.Forest.{Tree, Store}
use tinycortex.Tree.Seal.{SealServices, Fresh, SealError, seal_one_level}
use tinycortex.Queue.Handlers.{Serde}
use tinycortex.Tree.Buffer.{TreeConfig, is_empty, get_buffer, should_seal, Buffer}
use tinycortex.Queue.Config.{QueueConfig}
use tinycortex.Base.{
  ℕ, ◌>>=◌, ◌+◌, ◌&&◌, ◌∷◌, if◌then◌else◌, [], Bool, Result, List, String, err, ok, zero, suc, not,
  false, ◌≤◌, ◌<◌, ◌≡◌, true, refl, length, arith, subst, ap,
}

abbrev pub max_cascade_depth : ℕ
max_cascade_depth = 32

-- The rest of the loop after one seal.
unfoldable pub cascade_next :
    (Store → Result SealError (List String) × Store)
    → Result SealError String × Store
    → Result SealError (List String) × Store
cascade_next rest (err e, s) = (err e, s)
cascade_next rest (ok id, s) = let (ids, s') = rest s in ((ids >>= λ is. ok (id ∷ is)), s')

module _ (config : QueueConfig) (tree_config : TreeConfig) (serde : Serde) (services : SealServices)
    (fresh : ℕ → Fresh) (enqueue_follow_ups : Bool) (tree : Tree) where
  -- The loop: rounds left, level, whether this round is forced.
  unfoldable pub cascade : ℕ → ℕ → Bool → Store → Result SealError (List String) × Store
  unfolding is_empty cascade_next
  cascade zero level force s = (ok [], s)
  cascade (suc rounds) level force s =
      let buf = get_buffer tree.id level s.buffers in
      if not force && not (should_seal tree_config buf)
      then (ok [], s)
      else if is_empty buf.item_ids
      then (ok [], s)
      else cascade_next (cascade rounds (level + 1) false) (
          seal_one_level config tree_config serde services (fresh level) enqueue_follow_ups tree buf
            s)

  unfoldable pub cascade_all_from : ℕ → Bool → Store → Result SealError (List String) × Store
  unfolding cascade
  cascade_all_from start_level force s = cascade max_cascade_depth start_level force s

empty-should_seal :
    (tree_config : TreeConfig) (b : Buffer)
    → is_empty b.item_ids ≡ true
    → should_seal tree_config b ≡ false
unfolding should_seal
empty-should_seal tree_config b h = rw h refl

module _ (config : QueueConfig) (tree_config : TreeConfig) (serde : Serde) (services : SealServices)
    (fresh : ℕ → Fresh) (enqueue_follow_ups : Bool) (tree : Tree) where
  -- What a cascade of some rounds from a level promises.
  abbrev pub IsCascade : ℕ → ℕ → Store → Result SealError (List String) × Store → Type 0
  IsCascade rounds level s r =
      (ids : List String)
      → r.0 ≡ ok ids
      → (length ids ≤ rounds)
        × ((length ids < rounds
              → should_seal tree_config (get_buffer tree.id (level + length ids) r.1.buffers)
                ≡ false)
            × (ids ≡ [] → r.1 ≡ s))

  IsCascade-stop :
      (rounds level : ℕ) (s : Store)
      → should_seal tree_config (get_buffer tree.id level s.buffers) ≡ false
      → IsCascade rounds level s (ok [], s)
  IsCascade-stop rounds level s h [] e = (
    omega arith,
    (
      (λ b.
          subst (λ n. should_seal tree_config (get_buffer tree.id n s.buffers) ≡ false)
            (omega arith) h),
      λ q. refl,
    ),
  )
  IsCascade-stop rounds level s h (x ∷ ids) e = ground arith

  no_rounds : (level : ℕ) (s : Store) → IsCascade 0 level s (ok [], s)
  no_rounds level s [] e = (omega arith, ((λ b. absurd (omega (arith, b))), λ q. refl))
  no_rounds level s (x ∷ ids) e = ground arith

  -- One more seal in front.
  one_more :
      (rounds level : ℕ) (s s₁ s₂ : Store) (id : String) (r : Result SealError (List String))
      → IsCascade rounds (level + 1) s₁ (r, s₂)
      → IsCascade (suc rounds) level s ((r >>= λ is. ok (id ∷ is)), s₂)
  one_more rounds level s s₁ s₂ id (err e) h ids q = ground arith
  one_more rounds level s s₁ s₂ id (ok is) h [] q = ground arith
  one_more rounds level s s₁ s₂ id (ok is) h (x ∷ ids) q =
      let (short, (settled, still)) = h is refl in
      let same_tail : is ≡ ids = ground arith in
      let same_length : length is ≡ length ids = ap length same_tail in
      (
        omega (arith, short, same_length),
        (
          (λ b.
              subst (λ n. should_seal tree_config (get_buffer tree.id n s₂.buffers) ≡ false)
                (omega (arith, same_length)) (settled (omega (arith, b, same_length)))),
          λ p. ground arith,
        ),
      )

  pub cascade-IsCascade :
      (rounds level : ℕ) (force : Bool) (s : Store)
      → IsCascade rounds level s (
          cascade config tree_config serde services fresh enqueue_follow_ups tree rounds level force
            s)
  unfolding cascade cascade_next
  cascade-IsCascade zero level force s = no_rounds level s
  cascade-IsCascade (suc rounds) level force s =
      go (not force && not (should_seal tree_config buf)) refl (is_empty buf.item_ids) refl one
        (cascade-IsCascade rounds (level + 1) false)
    where
      buf : Buffer
      buf = get_buffer tree.id level s.buffers

      one : Result SealError String × Store
      one =
          seal_one_level config tree_config serde services (fresh level) enqueue_follow_ups tree buf
            s

      rest : Store → Result SealError (List String) × Store
      rest =
          cascade config tree_config serde services fresh enqueue_follow_ups tree rounds (level + 1)
            false

      go :
          (b : Bool)
          → not force && not (should_seal tree_config buf) ≡ b
          → (c : Bool) → is_empty buf.item_ids ≡ c
          → (r : Result SealError String × Store)
          → ((s₁ : Store) → IsCascade rounds (level + 1) s₁ (rest s₁))
          → IsCascade
              (suc rounds)
              level
              s
              (if b then (ok [], s) else if c then (ok [], s) else cascade_next rest r)
      go true e c f r ih = IsCascade-stop (suc rounds) level s (ground arith)
      go false e true f r ih =
          IsCascade-stop (suc rounds) level s (empty-should_seal tree_config buf f)
      go false e false f (err x, s₁) ih = λ ids q. ground arith
      go false e false f (ok id, s₁) ih =
          one_more rounds level s s₁ (rest s₁).1 id (rest s₁).0 (ih s₁)
