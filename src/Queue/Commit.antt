-- ===== src/Queue/Commit.antt =====
-- `mark_done_with_followups` of memory/queue/store_settle.rs: the parent's settlement with its
-- follow-ups.
use tinycortex.Queue.Lease.{update_where-none}
use tinycortex.Queue.Enqueue.{FreshIds, enqueue_all_lem}
use tinycortex.Queue.Config.{QueueConfig}
use tinycortex.Queue.Requeue.{IdsUnique}
use tinycortex.Queue.Settle.{done_row, mark_done_with_followups, has_token, enqueue_all}
use tinycortex.Queue.Index.{IsSub, In-update_where, IsUnique, exec_update_keeps, In-image}
use tinycortex.Base.{
  ◌≡◌, ◌∙◌, ◌∷◌, ◌==◌, if◌then◌else◌, [], ℕ, inl, refl, Bool, In, false, arith, inr, ap, true, sym,
  List, String, ok, some, Bool-cases, subst,
}
use tinycortex.Queue.Table.{Row, Table, index_entry, is_active, count_where, update_where, holds}
use tinycortex.Queue.Types.{Job, NewJob}

done_row-IsSub : (now : ℕ) (r : Row) → IsSub (index_entry (done_row now r)) (index_entry r)
unfolding done_row index_entry is_active
done_row-IsSub now r = inl refl

count_where-zero :
    (p : Row → Bool) (t : Table) → count_where p t ≡ 0 → (r : Row) → In r t → p r ≡ false
unfolding count_where
count_where-zero p [] h r m = elim m [ ]
count_where-zero p (s ∷ t) h r (inl e) = rw e (ground arith)
count_where-zero p (s ∷ t) h r (inr m) = count_where-zero p t (ground arith) r m

count_where-found :
    (p : Row → Bool) (t : Table) → count_where p t == 0 ≡ false → (r : Row) × In r t × (p r ≡ true)
unfolding count_where
count_where-found p [] h = ground (arith, h)
count_where-found p (s ∷ t) h = elim (Bool-cases (p s)) [
  | inl q ↦ (s, inl refl, q)
  | inr q ↦ let (r, m, g) = count_where-found p t (ground (arith, q, h)) in (r, inr m, g)
]

-- An update that keeps the ids keeps them unique, and fresh ids fresh.
pub update_where-ids :
    (p : Row → Bool) (f : Row → Row) (t : Table)
    → ((r : Row) → (f r).id ≡ r.id)
    → (s : Row) → In s (update_where p f t)
    → (r : Row) × In r t × (s.id ≡ r.id)
update_where-ids p f t h s m =
    let (r, n, e) = In-update_where p f s t m in (r, n, ap (λ (x : Row). x.id) e ∙ pick (p r) r)
  where
    pick : (b : Bool) (r : Row) → (if b then f r else r).id ≡ r.id
    pick true r = h r
    pick false r = refl

pub IdsUnique-update_where :
    (p : Row → Bool) (f : Row → Row) (t : Table)
    → ((r : Row) → (f r).id ≡ r.id)
    → IdsUnique t
    → IdsUnique (update_where p f t)
unfolding update_where
IdsUnique-update_where p f [] h u = tt
IdsUnique-update_where p f (r ∷ t) h u = (
  (λ y m e. let (s, n, q) = update_where-ids p f t h y m in u.0 s n (sym (pick (p r)) ∙ e ∙ q)),
  IdsUnique-update_where p f t h u.1,
)
  where
    pick : (b : Bool) → (if b then f r else r).id ≡ r.id
    pick true = h r
    pick false = refl

-- Settling a job as done is atomic with its follow-ups, whose rows get fresh ids: on a table with
-- unique ids and unique active keys the transaction is not refused and keeps the active keys unique.
-- If it reports that nothing was committed, the table is unchanged, no follow-up was added, and no
-- row carried the job's token; if it reports a commit, some row carried the token, every row with it
-- is done, every other row is there as it was, and every follow-up's dedupe key is held by an active
-- row.
pub mark_done_with_followups_lem :
    (config : QueueConfig) (now : ℕ) (job : Job) (js : List (String × NewJob)) (t : Table)
    → IsUnique t
    → IdsUnique t
    → FreshIds js t
    → (b : Bool) × (t' : Table) × (mark_done_with_followups config now job js t ≡ ok (b, t'))
      × IsUnique t'
      × (b ≡ false → (t' ≡ t) × ((r : Row) → In r t → has_token job r ≡ false))
      × (b ≡ true
          → ((r : Row) × In r t × (has_token job r ≡ true))
            × ((r : Row) → In r t → has_token job r ≡ true → In (done_row now r) t')
            × ((r : Row) → In r t → has_token job r ≡ false → In r t')
            × ((j : String × NewJob) (k : String)
                → In j js
                → j.1.dedupe_key ≡ some k
                → holds k t' ≡ true))
unfolding mark_done_with_followups
mark_done_with_followups_lem config now job js t u v f =
    let p = has_token job in
    let changed = update_where p (done_row now) t in
    let (e, w) = exec_update_keeps p (done_row now) t u (λ r m h. done_row-IsSub now r) in
    elim (Bool-cases (count_where p t == 0)) [
      | inl zero_rows ↦
          let gone = count_where-zero p t (ground arith) in
          let unchanged = (update_where-none p (done_row now) t gone).0 in
          (false, changed, rw (e, zero_rows) refl, w, (λ h. (unchanged, gone)), λ h. cc)
      | inr some_rows ↦
          let fresh : FreshIds js changed = (
            (λ i m s n q.
                let (r, k, g) = update_where-ids p (done_row now) t (λ x. done_row-id now x) s n in
                f.0 i m r k (sym g ∙ q)),
            f.1,
          ) in
          let (a, b, c) =
            enqueue_all_lem now config.max_attempts js changed w
              (IdsUnique-update_where p (done_row now) t (λ x. done_row-id now x) v) fresh in
          (
            true,
            enqueue_all now config.max_attempts js changed,
            rw (e, some_rows) refl,
            a,
            (λ h. cc),
            λ h. (
              count_where-found p t some_rows,
              (λ r m g. b (done_row now r) (done_image r m g)),
              (λ r m g. b r (kept_image r m g)),
              c,
            ),
          )
    ]
  where
    done_row-id : (now : ℕ) (r : Row) → (done_row now r).id ≡ r.id
    done_row-id now r = unfold done_row in refl

    done_image :
        (r : Row)
        → In r t
        → has_token job r ≡ true
        → In (done_row now r) (update_where (has_token job) (done_row now) t)
    done_image r m g =
        subst (λ s. In s (update_where (has_token job) (done_row now) t)) (rw g refl)
          (In-image (has_token job) (done_row now) r t m)

    kept_image :
        (r : Row)
        → In r t
        → has_token job r ≡ false
        → In r (update_where (has_token job) (done_row now) t)
    kept_image r m g =
        subst (λ s. In s (update_where (has_token job) (done_row now) t)) (rw g refl)
          (In-image (has_token job) (done_row now) r t m)
