-- ===== src/Queue/Lease.antt =====
-- Settlement under the claim token of memory/queue/store_settle.rs, by a worker whose lease is stale.
use tinycortex.Queue.Store.{claim_row}
use tinycortex.Queue.Config.{QueueConfig}
use tinycortex.Queue.Index.{
  IsUnique, exec_update-ok_of_unique, has_id-eq, In-update_where, has_id-of_eq,
}
use tinycortex.Queue.Settle.{has_token, mark_done_with_followups, mark_failed_typed, mark_deferred}
use tinycortex.Base.{
  ◌≤◌, ◌<◌, ◌≡◌, ◌∷◌, [], In, false, Bool, refl, inr, inl, ok, subst, sym, ℕ, List, String, Option,
  Bool-cases, arith,
}
use tinycortex.Queue.Table.{Row, Table, update_where, count_where, exec_update, has_id}
use tinycortex.Queue.Types.{Job, NewJob, JobFailure}

-- No row carries the job's token any more.
abbrev pub IsStale : Job → Table → Type 0
IsStale job t = (r : Row) → In r t → has_token job r ≡ false

pub update_where-none :
    (p : Row → Bool) (f : Row → Row) (t : Table)
    → ((r : Row) → In r t → p r ≡ false)
    → (update_where p f t ≡ t) × (count_where p t ≡ 0)
unfolding update_where count_where
update_where-none p f [] h = (refl, refl)
update_where-none p f (r ∷ t) h =
    let (e, n) = update_where-none p f t (λ s m. h s (inr m)) in
    (rw (h r (inl refl), e) refl, rw (h r (inl refl), n) refl)

exec_update-none :
    (p : Row → Bool) (f : Row → Row) (t : Table)
    → IsUnique t
    → ((r : Row) → In r t → p r ≡ false)
    → exec_update p f t ≡ ok (0, t)
exec_update-none p f t u h =
    let (e, n) = update_where-none p f t h in
    let g = exec_update-ok_of_unique p f t (subst IsUnique (sym e) u) in rw (g, e, n) refl

settle_stale :
    (config : QueueConfig) (now : ℕ) (job : Job) (t : Table)
    → IsUnique t
    → IsStale job t
    → ((js : List (String × NewJob)) → mark_done_with_followups config now job js t ≡ ok (false, t))
      × ((error : String) (failure : Option JobFailure)
          → mark_failed_typed config now job error failure t ≡ ok t)
      × ((until_ms : ℕ) (reason : String) → mark_deferred config now job until_ms reason t ≡ ok t)
unfolding mark_done_with_followups mark_failed_typed mark_deferred
settle_stale config now job t u h = (
  (λ js. rw (exec_update-none _ _ t u h) refl),
  (λ error failure. rw (exec_update-none _ _ t u h) refl),
  (λ until_ms reason. rw (exec_update-none _ _ t u h) refl),
)

-- A row whose attempts have passed those of the token is not the token's.
has_token-attempts :
    (job : Job) (r : Row) → (r.id ≡ job.id → job.attempts < r.attempts) → has_token job r ≡ false
unfolding has_token
has_token-attempts job r h = elim (Bool-cases (has_id job.id r)) [
  | inl e ↦ let past = h (has_id-eq job.id r e) in ground arith
  | inr e ↦ ground arith
]

abbrev pub claimed_again : ℕ → ℕ → Job → Table → Table
claimed_again now until job t = update_where (has_id job.id) (claim_row now until) t

IsStale-claimed_again :
    (now until : ℕ) (job : Job) (t : Table)
    → ((r : Row) → In r t → r.id ≡ job.id → job.attempts ≤ r.attempts)
    → IsStale job (claimed_again now until job t)
unfolding claim_row
IsStale-claimed_again now until job t h s m =
    let (r, n, e) = In-update_where (has_id job.id) (claim_row now until) s t m in
    elim (Bool-cases (has_id job.id r)) [
      | inl y ↦
          rw (e, y) (has_token-attempts job (claim_row now until r) (λ q. omega (arith, h r n q)))
      | inr y ↦ rw (e, y) (has_token-attempts job r (λ q. cc (has_id-of_eq job.id r q)))
    ]

-- A worker whose row has been claimed by another one since can settle nothing: once the row with
-- the job's id, whose attempts have not fallen below those of the job, is claimed again, the
-- active keys being unique then, marking the job done reports that nothing was committed, and
-- marking it done, failed or deferred, with any follow-ups, error or wake-up time, leaves the
-- whole table as it is.
pub settle-claimed_again :
    (config : QueueConfig) (now claimed_at until : ℕ) (job : Job) (t : Table)
    → IsUnique (claimed_again claimed_at until job t)
    → ((r : Row) → In r t → r.id ≡ job.id → job.attempts ≤ r.attempts)
    → let t' = claimed_again claimed_at until job t in
      ((js : List (String × NewJob))
        → mark_done_with_followups config now job js t' ≡ ok (false, t'))
      × ((error : String) (failure : Option JobFailure)
          → mark_failed_typed config now job error failure t' ≡ ok t')
      × ((until_ms : ℕ) (reason : String) → mark_deferred config now job until_ms reason t' ≡ ok t')
settle-claimed_again config now claimed_at until job t u h =
    settle_stale config now job (claimed_again claimed_at until job t) u
      (IsStale-claimed_again claimed_at until job t h)
