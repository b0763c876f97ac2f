-- ===== src/Queue/Enqueue.antt =====
-- `enqueue_conn` of memory/queue/store.rs and the follow-ups of `mark_done_with_followups` in
-- memory/queue/store_settle.rs.
use tinycortex.Queue.Settle.{enqueue_all}
use tinycortex.Queue.Requeue.{IdsUnique}
use tinycortex.Queue.Store.{new_row, enqueue_conn}
use tinycortex.Queue.Index.{IsUnique, has_id-eq, In-holds, holds-In}
use tinycortex.Base.{
  ◌≡◌, ◌||◌, ◌∷◌, ◌++◌, [], String, refl, arith, true, Option, ℕ, ◌∙◌, ◌≢◌, ◌⊎◌, if◌then◌else◌,
  none, some, same_iff, In, any, false, Bool-cases, inl, inr, ap, Bool, In-append_left,
  In-append_right, List, map, Pairs, sym,
}
use tinycortex.Queue.Table.{
  Row, Table, holds, entry_free, index_entry, keys_unique, is_active, is_key, has_id,
  insert_or_ignore,
}
use tinycortex.Queue.Types.{NewJob}

holds-append : (k : String) (t u : Table) → holds k (t ++ u) ≡ (holds k t || holds k u)
unfolding holds
holds-append k [] u = refl
holds-append k (r ∷ t) u = ground (arith, holds-append k t u)

free-append :
    (a b : Option String) (s r : Row) (t : Table)
    → index_entry s ≡ a
    → index_entry r ≡ b
    → entry_free a t ≡ true
    → entry_free b (s ∷ t) ≡ true
    → entry_free a (t ++ (r ∷ [])) ≡ true
unfolding entry_free is_key
free-append none b s r t d e f g = refl
free-append (some k) none s r t d e f g = ground (arith, holds-append k t (r ∷ []))
free-append (some k) (some j) s r t d e f g =
    ground (arith, holds-append k t (r ∷ []), same_iff j k, same_iff k j)

free-tail :
    (b : Option String) (s : Row) (t : Table) → entry_free b (s ∷ t) ≡ true → entry_free b t ≡ true
unfolding entry_free
free-tail none s t f = refl
free-tail (some k) s t f = ground arith

append-IsUnique :
    (r : Row) (t : Table)
    → IsUnique t
    → entry_free (index_entry r) t ≡ true
    → IsUnique (t ++ (r ∷ []))
unfolding keys_unique
append-IsUnique r [] u f = ground arith
append-IsUnique r (s ∷ t) u f =
    let here = free-append (index_entry s) (index_entry r) s r t refl refl in
    ground (arith, here, append-IsUnique r t, free-tail (index_entry r) s t f)

-- The new row of a job.
new_row-entry :
    (id : String) (now : ℕ) (job : NewJob) (default : ℕ)
    → index_entry (new_row id now job default) ≡ job.dedupe_key
unfolding new_row index_entry is_active
new_row-entry id now job default = refl

abbrev pub IsFresh : String → Table → Type 0
IsFresh id t = (r : Row) → In r t → r.id ≢ id

any-IsFresh : (id : String) (t : Table) → IsFresh id t → any (has_id id) t ≡ false
any-IsFresh id [] f = refl
any-IsFresh id (r ∷ t) f = elim (Bool-cases (has_id id r)) [
  | inl e ↦ absurd (f r (inl refl) (has_id-eq id r e))
  | inr e ↦ rw e (any-IsFresh id t (λ s m. f s (inr m)))
]

pub IdsUnique-append :
    (r : Row) (t : Table) → IdsUnique t → IsFresh r.id t → IdsUnique (t ++ (r ∷ []))
IdsUnique-append r [] u f = ((λ y m. elim m [ ]), tt)
IdsUnique-append r (s ∷ t) u f = (apart, IdsUnique-append r t u.1 (λ x m. f x (inr m)))
  where
    ends : (y : Row) (xs : Table) → In y (xs ++ (r ∷ [])) → In y xs ⊎ (y ≡ r)
    ends y [] (inl e) = inr e
    ends y [] (inr m) = elim m [ ]
    ends y (x ∷ xs) (inl e) = inl (inl e)
    ends y (x ∷ xs) (inr m) = elim (ends y xs m) [ inl n ↦ inl (inr n) | inr e ↦ inr e ]

    apart : (y : Row) → In y (t ++ (r ∷ [])) → s.id ≢ y.id
    apart y m e = elim (ends y t m) [
      | inl n ↦ u.0 y n e
      | inr q ↦ f s (inl refl) (e ∙ ap (λ (x : Row). x.id) q)
    ]

insert_or_ignore-fresh :
    (r : Row) (t : Table) (b : Bool)
    → IsFresh r.id t
    → entry_free (index_entry r) t ≡ b
    → insert_or_ignore r t ≡ (if b then (1, t ++ (r ∷ [])) else (0, t))
unfolding insert_or_ignore
insert_or_ignore-fresh r t true f e = rw (any-IsFresh r.id t f, e) refl
insert_or_ignore-fresh r t false f e = rw (any-IsFresh r.id t f, e) refl

enqueued : Bool → Row → Table → Option String × Table
enqueued true r t = (some r.id, t ++ (r ∷ []))
enqueued false r t = (none, t)

enqueue_conn-enqueued :
    (id : String) (now : ℕ) (job : NewJob) (default : ℕ) (t : Table) (b : Bool)
    → IsFresh id t
    → entry_free job.dedupe_key t ≡ b
    → enqueue_conn id now job default t ≡ enqueued b (new_row id now job default) t
unfolding enqueue_conn enqueued index_entry
enqueue_conn-enqueued id now job default t true f e =
    let g = insert_or_ignore-fresh (new_row id now job default) t true f e in rw g refl
enqueue_conn-enqueued id now job default t false f e =
    let g = insert_or_ignore-fresh (new_row id now job default) t false f e in rw g refl

-- What an enqueue promises of the table after it.
abbrev pub IsEnqueued : NewJob → Table → Table → Type 0
IsEnqueued job t t' =
    IsUnique t'
    × IdsUnique t'
    × ((r : Row) → In r t → In r t')
    × ((k : String) → job.dedupe_key ≡ some k → holds k t' ≡ true)

enqueued-IsEnqueued :
    (job : NewJob) (r : Row) (t : Table) (b : Bool)
    → index_entry r ≡ job.dedupe_key
    → IsUnique t
    → IdsUnique t
    → IsFresh r.id t
    → entry_free job.dedupe_key t ≡ b
    → IsEnqueued job t (enqueued b r t).1
unfolding enqueued
enqueued-IsEnqueued job r t true q u v f e = (
  append-IsUnique r t u (rw q e),
  IdsUnique-append r t v f,
  (λ s m. In-append_left s t (r ∷ []) m),
  (λ k h. In-holds k r (t ++ (r ∷ [])) (In-append_right r t (r ∷ []) (inl refl)) (q ∙ h)),
)
enqueued-IsEnqueued job r t false q u v f e = (u, v, (λ s m. m), λ k h. held k job.dedupe_key h e)
  where
    held : (k : String) (o : Option String) → o ≡ some k → entry_free o t ≡ false → holds k t ≡ true
    held k none h g = cc
    held k (some j) h g = unfold entry_free in ground arith

-- Enqueueing under a fresh id: a job whose dedupe key an active row holds is suppressed and the
-- table is unchanged; any other is appended as a ready row with no attempts and its id is returned.
-- Either way all rows are kept, the active keys and the ids stay unique, and an active row holds the
-- job's key, if it has one.
pub enqueue_conn_lem :
    (id : String) (now : ℕ) (job : NewJob) (default : ℕ) (t : Table)
    → IsUnique t
    → IdsUnique t
    → IsFresh id t
    → let r = new_row id now job default in
      (entry_free job.dedupe_key t ≡ false → enqueue_conn id now job default t ≡ (none, t))
      × (entry_free job.dedupe_key t ≡ true
          → enqueue_conn id now job default t ≡ (some id, t ++ (r ∷ [])))
      × IsEnqueued job t (enqueue_conn id now job default t).1
enqueue_conn_lem id now job default t u v f = (
  unfold enqueued in (λ e. enqueue_conn-enqueued id now job default t false f e),
  unfold enqueued new_row in (λ e. enqueue_conn-enqueued id now job default t true f e),
  rw (enqueue_conn-enqueued id now job default t _ f refl) (
      enqueued-IsEnqueued job (new_row id now job default) t (entry_free job.dedupe_key t)
        (new_row-entry id now job default) u v (unfold new_row in f) refl),
)

-- The ids that a transaction gives to its follow-ups are fresh and differ.
abbrev pub FreshIds : List (String × NewJob) → Table → Type 0
FreshIds js t =
    ((id : String) → In id (map (λ j. j.0) js) → IsFresh id t)
    × Pairs (λ i j. i ≢ j) (map (λ j. j.0) js)

In-enqueue_conn :
    (id : String) (now : ℕ) (job : NewJob) (default : ℕ) (t : Table) (r : Row)
    → IsFresh id t
    → In r (enqueue_conn id now job default t).1
    → In r t ⊎ (r.id ≡ id)
In-enqueue_conn id now job default t r f m =
    go (entry_free job.dedupe_key t) (rw (enqueue_conn-enqueued id now job default t _ f refl) at m)
  where
    go : (b : Bool) → In r (enqueued b (new_row id now job default) t).1 → In r t ⊎ (r.id ≡ id)
    go false n = unfold enqueued in inl n
    go true n = unfold enqueued in last t n
      where
        last : (xs : Table) → In r (xs ++ (new_row id now job default ∷ [])) → In r xs ⊎ (r.id ≡ id)
        last [] (inl e) = inr (unfold new_row in ap (λ (x : Row). x.id) e)
        last [] (inr n) = elim n [ ]
        last (x ∷ xs) (inl e) = inl (inl e)
        last (x ∷ xs) (inr n) = elim (last xs n) [ inl k ↦ inl (inr k) | inr e ↦ inr e ]

FreshIds-tail :
    (id : String) (now : ℕ) (job : NewJob) (default : ℕ) (js : List (String × NewJob)) (t : Table)
    → FreshIds ((id, job) ∷ js) t
    → FreshIds js (enqueue_conn id now job default t).1
FreshIds-tail id now job default js t (f, p) = (
  (λ i m r n e. elim (In-enqueue_conn id now job default t r (f id (inl refl)) n) [
    | inl k ↦ f i (inr m) r k e
    | inr q ↦ p.0 i m (sym q ∙ e)
  ]),
  p.1,
)

holds_mono :
    (k : String) (t u : Table) → ((r : Row) → In r t → In r u) → holds k t ≡ true → holds k u ≡ true
holds_mono k t u f h = let (s, m, e) = holds-In k t h in In-holds k s u (f s m) e

-- All follow-ups, one after the other.
pub enqueue_all_lem :
    (now default : ℕ) (js : List (String × NewJob)) (t : Table)
    → IsUnique t
    → IdsUnique t
    → FreshIds js t
    → IsUnique (enqueue_all now default js t)
      × ((r : Row) → In r t → In r (enqueue_all now default js t))
      × ((j : String × NewJob) (k : String)
          → In j js
          → j.1.dedupe_key ≡ some k
          → holds k (enqueue_all now default js t) ≡ true)
unfolding enqueue_all
enqueue_all_lem now default [] t u v f = (u, (λ r m. m), λ j k m. elim m [ ])
enqueue_all_lem now default ((id, job) ∷ js) t u v f =
    let next = (enqueue_conn id now job default t).1 in
    let (w, x, grow, held) = (enqueue_conn_lem id now job default t u v (f.0 id (inl refl))).2 in
    let (a, b, c) =
      enqueue_all_lem now default js next w x (FreshIds-tail id now job default js t f) in
    (
      a,
      (λ r m. b r (grow r m)),
      λ j k m e. elim m [
        | inl q ↦
            holds_mono k next _ b
              (held k (sym (ap (λ (y : String × NewJob). y.1.dedupe_key) q) ∙ e))
        | inr n ↦ c j k n e
      ],
    )
