-- ===== src/Queue/Deferral.antt =====
-- A claim followed by `mark_deferred` of memory/queue/store_settle.rs.
use tinycortex.Queue.Requeue.{IdsUnique, IdsUnique-eq}
use tinycortex.Queue.Config.{QueueConfig}
use tinycortex.Queue.Index.{
  has_id-of_eq, In-update_where, has_id-eq, IsSub, IsUnique, exec_update_keeps,
}
use tinycortex.Queue.Settle.{has_token, defer_row, mark_deferred}
use tinycortex.Queue.Store.{row_to_job, claim_row}
use tinycortex.Base.{
  ◌+◌, ◌%◌, ◌<◌, ◌≡◌, u32_mod, ok, refl, Result, arith, err, ℕ, true, String, In, Bool-cases, inl,
  ap, inr, ◌≤◌, ◌∙◌, if◌then◌else◌, none, some, subst, sym,
}
use tinycortex.Queue.Table.{Row, Table, update_where, has_id, is_active, index_entry}
use tinycortex.Queue.Types.{Job, parse_kind, ParseError, JobKind, failed, ready}

-- What `row_to_job` keeps of the claim token.
abbrev pub TokenOf : Row → Job → Type 0
TokenOf r job =
    (job.id ≡ r.id)
    × (job.attempts ≡ r.attempts % u32_mod)
    × (job.started_at_ms ≡ r.started_at_ms)
    × (job.max_attempts ≡ r.max_attempts % u32_mod)

pub row_to_job-TokenOf : (r : Row) (job : Job) → row_to_job r ≡ ok job → TokenOf r job
unfolding row_to_job
row_to_job-TokenOf r job h = go (parse_kind r.kind) refl
  where
    go : (k : Result ParseError JobKind) → parse_kind r.kind ≡ k → TokenOf r job
    go (ok k) e = ground arith
    go (err x) e = ground arith

claim_row-id : (now until : ℕ) (r : Row) → (claim_row now until r).id ≡ r.id
unfolding claim_row
claim_row-id now until r = refl

claim_row-active : (now until : ℕ) (r : Row) → is_active (claim_row now until r).status ≡ true
unfolding claim_row is_active
claim_row-active now until r = refl

claimed-has_token :
    (now until : ℕ) (r : Row) (job : Job)
    → row_to_job (claim_row now until r) ≡ ok job
    → r.attempts + 1 < u32_mod
    → has_token job (claim_row now until r) ≡ true
unfolding has_token claim_row
claimed-has_token now until r job h b =
    let (i, a, s, x) = row_to_job-TokenOf (claim_row now until r) job h in
    ground (arith, has_id-of_eq job.id (claim_row now until r))

-- After the claim of a row, the row with its id is the claimed one.
pub In-claimed :
    (now until : ℕ) (r : Row) (t : Table)
    → IdsUnique t
    → In r t
    → (s : Row) → In s (update_where (has_id r.id) (claim_row now until) t)
    → s.id ≡ r.id
    → s ≡ claim_row now until r
In-claimed now until r t v m s n h =
    let (y, k, e) = In-update_where (has_id r.id) (claim_row now until) s t n in
    elim (Bool-cases (has_id r.id y)) [
      | inl q ↦ rw (e, q) (ap (claim_row now until) (IdsUnique-eq y r t v k m (has_id-eq r.id y q)))
      | inr q ↦ let s≡y : s ≡ y = rw (e, q) refl in cc (ap (has_id r.id) s≡y, has_id-of_eq r.id s h)
    ]

has_token-id : (job : Job) (r : Row) → has_token job r ≡ true → r.id ≡ job.id
unfolding has_token
has_token-id job r h = has_id-eq job.id r (ground arith)

defer_row-IsSub :
    (config : QueueConfig) (now until_ms : ℕ) (reason : String) (job : Job) (r : Row)
    → is_active r.status ≡ true
    → IsSub (index_entry (defer_row config now job until_ms reason r)) (index_entry r)
unfolding defer_row index_entry
defer_row-IsSub config now until_ms reason job r h = ground arith

-- What a deferral makes of the row that was claimed.
abbrev pub IsDeferred : QueueConfig → ℕ → ℕ → Row → Row → Type 0
IsDeferred config now until_ms r s =
    (s.attempts ≡ r.attempts)
    × (s.available_at_ms ≡ until_ms)
    × (s.started_at_ms ≡ none)
    × (s.locked_until_ms ≡ none)
    × (r.created_at_ms + config.max_defer_age_ms ≤ now
        → (s.status ≡ failed) × (s.failure_class ≡ some "unrecoverable"))
    × (now < r.created_at_ms + config.max_defer_age_ms
        → (s.status ≡ ready) × (s.completed_at_ms ≡ none))

defer_row-IsDeferred :
    (config : QueueConfig) (claimed_at until now until_ms : ℕ) (reason : String) (r : Row)
    (job : Job)
    → job.attempts ≡ r.attempts + 1
    → IsDeferred config now until_ms r
        (defer_row config now job until_ms reason (claim_row claimed_at until r))
unfolding defer_row claim_row
defer_row-IsDeferred config claimed_at until now until_ms reason r job h =
    (ground arith, refl, refl, refl, (λ b. ground arith), (λ b. ground arith))

-- Claiming a row and deferring it burns no attempt: on a table with unique ids and unique active
-- keys, if the row has fewer than 2^32 - 1 attempts, the deferral commits and keeps the active keys
-- unique, and the row then has the attempts that it had before the claim, its wake-up time and no
-- lease; it is ready, unless it was created at least the maximal deferral age ago, when it is failed
-- as unrecoverable.
pub defer-claim :
    (config : QueueConfig) (claimed_at until now until_ms : ℕ) (reason : String) (r : Row)
    (t : Table) (job : Job)
    → IsUnique (update_where (has_id r.id) (claim_row claimed_at until) t)
    → IdsUnique t
    → In r t
    → row_to_job (claim_row claimed_at until r) ≡ ok job
    → r.attempts + 1 < u32_mod
    → let claimed = update_where (has_id r.id) (claim_row claimed_at until) t in
      (t' : Table) × (mark_deferred config now job until_ms reason claimed ≡ ok t')
      × IsUnique t'
      × ((s : Row) → In s t' → s.id ≡ r.id → IsDeferred config now until_ms r s)
unfolding mark_deferred
defer-claim config claimed_at until now until_ms reason r t job u v m h b =
    let claimed = update_where (has_id r.id) (claim_row claimed_at until) t in
    let change = defer_row config now job until_ms reason in
    let (i, a, _, _) = row_to_job-TokenOf (claim_row claimed_at until r) job h in
    let is_claimed = λ (s : Row) (n : In s claimed) (q : has_token job s ≡ true).
      In-claimed claimed_at until r t v m s n
        (has_token-id job s q ∙ i ∙ claim_row-id claimed_at until r) in
    let (e, w) = exec_update_keeps (has_token job) change claimed u (λ s n q.
      defer_row-IsSub config now until_ms reason job s
        (rw (is_claimed s n q) (claim_row-active claimed_at until r))) in
    (
      update_where (has_token job) change claimed,
      rw e refl,
      w,
      λ s n q. after s (In-update_where (has_token job) change s claimed n) q,
    )
  where
    attempts : job.attempts ≡ r.attempts + 1
    attempts =
        unfold claim_row in
        omega (arith, (row_to_job-TokenOf (claim_row claimed_at until r) job h).1)

    after :
        (s : Row)
        → (x : Row) × In x (update_where (has_id r.id) (claim_row claimed_at until) t)
          × (s ≡ (if has_token job x then defer_row config now job until_ms reason x else x))
        → s.id ≡ r.id
        → IsDeferred config now until_ms r s
    after s (x, n, e) q = elim (Bool-cases (has_token job x)) [
      | inl held ↦
          let x≡r = In-claimed claimed_at until r t v m x n (
            has_token-id job x held
            ∙ (row_to_job-TokenOf _ job h).0
            ∙ claim_row-id claimed_at until r) in
          let s≡d : s ≡ defer_row config now job until_ms reason x = rw (e, held) refl in
          subst (IsDeferred config now until_ms r)
            (sym (s≡d ∙ ap (defer_row config now job until_ms reason) x≡r))
            (defer_row-IsDeferred config claimed_at until now until_ms reason r job attempts)
      | inr lost ↦
          let s≡x : s ≡ x = rw (e, lost) refl in
          let x≡r =
            In-claimed claimed_at until r t v m x n (sym (ap (λ (y : Row). y.id) s≡x) ∙ q) in
          cc (ap (has_token job) x≡r, claimed-has_token claimed_at until r job h b)
    ]
