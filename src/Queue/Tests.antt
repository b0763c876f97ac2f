-- ===== src/Queue/Tests.antt =====
-- The theorems on memory/queue, run on small tables of jobs.
mod Runs
mod Handling
use tinycortex.Queue.Lease.{settle-claimed_again, claimed_again}
use tinycortex.Queue.Config.{default_config}
use tinycortex.Queue.Settle.{mark_done_with_followups, mark_failed_typed, mark_deferred}
use tinycortex.Queue.Claim.{NoneDue, IsBest, claim_next_lem}
use tinycortex.Queue.Requeue.Guarantee.{requeue_failed_where_covers}
use tinycortex.Queue.Store.{is_status, claim_next, row_to_job, claim_row}
use tinycortex.Queue.Requeue.Safety.{requeue_failed_where_lem}
use tinycortex.Queue.Recovery.{
  triage, candidates, is_failed, requeued_row, cancelled_row, requeue_failed_where,
}
use tinycortex.Queue.Requeue.{IdsUnique, mark}
use tinycortex.Queue.Enqueue.{IsFresh}
use tinycortex.Queue.Index.{IsUnique}
use tinycortex.Queue.Table.{
  Row, Table, keys_unique, entry_free, holds, is_key, index_entry, is_active, has_id, update_where,
}
use tinycortex.Queue.Types.{
  JobStatus, failed, ready, Job, JobKind, running, NewJob, JobFailure, extract_chunk,
}
use tinycortex.Base.{
  ◌>>=◌, ◌≡◌, ◌&&◌, ◌∷◌, [], String, Option, ℕ, none, some, same, refl, false, arith, same_iff,
  Bool, true, not, any, inl, inr, ◌≤◌, ◌∙◌, ◌⊎◌, if◌then◌else◌, ap, sym, ok, In, saturating_add,
  All, List,
}

abbrev pub job_row : String → String → Option String → JobStatus → ℕ → Row
job_row id kind key status created_at = record {
  id = id;
  kind = kind;
  payload_json = "{}";
  dedupe_key = key;
  status = status;
  attempts = 1;
  max_attempts = 5;
  available_at_ms = created_at;
  locked_until_ms = none;
  last_error = none;
  created_at_ms = created_at;
  started_at_ms = some created_at;
  completed_at_ms = none;
  failure_reason = none;
  failure_class = none;
}

-- Two failed jobs share a key, which no live job holds; a third one's key is held by a live job.
abbrev pub parked : Table
parked =
    job_row "a" "seal" (some "seal:t:0") failed 1
    ∷ job_row "b" "seal" (some "seal:t:0") failed 2
    ∷ job_row "c" "extract_chunk" (some "extract:c1") failed 3
    ∷ job_row "d" "extract_chunk" (some "extract:c1") running 4
    ∷ job_row "e" "extract_chunk" none failed 5
    ∷ job_row "f" "append_buffer" none ready 6
    ∷ []

pub parked-IsUnique : IsUnique parked
unfolding keys_unique entry_free holds is_key index_entry is_active same
parked-IsUnique = refl

-- Unique ids as a test.
unfoldable pub distinct : Table → Bool
unfolding has_id
distinct [] = true
distinct (r ∷ t) = not (any (has_id r.id) t) && distinct t

pub absent-IsFresh : (id : String) (t : Table) → any (has_id id) t ≡ false → IsFresh id t
unfolding has_id
absent-IsFresh id [] h s m q = elim m [ ]
absent-IsFresh id (r ∷ t) h s (inl e) q =
    ground (arith, (same_iff r.id id).1 (ap (λ x. x.id) (sym e) ∙ q))
absent-IsFresh id (r ∷ t) h s (inr m) q = absent-IsFresh id t (ground arith) s m q

pub distinct-IdsUnique : (t : Table) → distinct t ≡ true → IdsUnique t
unfolding distinct
distinct-IdsUnique [] h = tt
distinct-IdsUnique (r ∷ t) h = (
  (λ y m q. absent-IsFresh r.id t (ground arith) y m (sym q)),
  distinct-IdsUnique t (ground arith),
)

pub parked-IdsUnique : IdsUnique parked
parked-IdsUnique = distinct-IdsUnique parked (unfold distinct has_id same in refl)

requeue_failed_where_lem_example :
    let split = triage (λ k. holds k parked) [] (candidates is_failed parked) in
    let t' =
      mark (requeued_row 9) split.to_requeue (mark (cancelled_row 9) split.to_cancel parked) in
    (n : ℕ) × (requeue_failed_where is_failed 9 parked ≡ ok (n, t')) × IsUnique t'
requeue_failed_where_lem_example =
    requeue_failed_where_lem is_failed 9 parked parked-IsUnique parked-IdsUnique

failed_inactive : (s : Row) → is_failed s ≡ true → index_entry s ≡ none
unfolding is_failed is_status index_entry is_active
failed_inactive s h = go s.status h
  where
    go :
        (x : JobStatus)
        → is_status x failed ≡ true
        → (if is_active x then s.dedupe_key else none) ≡ none
    go failed h = refl
    go _ h = ground arith

requeue_failed_where_covers_example :
    (n : ℕ) × (t' : Table) × (requeue_failed_where is_failed 9 parked ≡ ok (n, t'))
    × ((r : Row) → In r parked → is_failed r ≡ false → In r t')
    × ((r : Row)
        → In r parked
        → is_failed r ≡ true
        → r.dedupe_key ≡ none
        → In (requeued_row 9 r) t')
    × ((r : Row) (k : String)
        → In r parked
        → is_failed r ≡ true
        → r.dedupe_key ≡ some k
        → holds k t' ≡ true)
requeue_failed_where_covers_example =
    requeue_failed_where_covers is_failed 9 parked parked-IsUnique parked-IdsUnique failed_inactive

claim_next_lem_example :
    (NoneDue 10 parked × (claim_next 10 300000 parked ≡ ok (ok none, parked)))
    ⊎ ((r : Row) × IsBest 10 parked r
        × (claim_next 10 300000 parked
            ≡ ok (
              (row_to_job (claim_row 10 (saturating_add 10 300000) r) >>= λ j. ok (some j)),
              update_where (has_id r.id) (claim_row 10 (saturating_add 10 300000)) parked,
            ))
        × IsUnique (update_where (has_id r.id) (claim_row 10 (saturating_add 10 300000)) parked))
claim_next_lem_example = claim_next_lem 10 300000 parked parked-IsUnique parked-IdsUnique

-- The job that a worker claimed as "d", at its first attempt.
abbrev pub leased : Job
leased = record {
  id = "d";
  kind = JobKind.extract_chunk;
  payload_json = "{}";
  dedupe_key = some "extract:c1";
  status = running;
  attempts = 1;
  max_attempts = 5;
  available_at_ms = 4;
  locked_until_ms = some 20;
  last_error = none;
  failure_reason = none;
  failure_class = none;
  created_at_ms = 4;
  started_at_ms = some 4;
  completed_at_ms = none;
}

one_attempt :
    (t : Table) → All (λ r. r.attempts ≡ 1) t → (r : Row) → In r t → leased.attempts ≤ r.attempts
one_attempt [] h r m = elim m [ ]
one_attempt (s ∷ t) h r (inl e) = rw (ap (λ x. x.attempts) e ∙ h.0) (omega arith)
one_attempt (s ∷ t) h r (inr m) = one_attempt t h.1 r m

settle-claimed_again_example :
    let t' = claimed_again 30 40 leased parked in
    ((js : List (String × NewJob))
      → mark_done_with_followups default_config 50 leased js t' ≡ ok (false, t'))
    × ((error : String) (failure : Option JobFailure)
        → mark_failed_typed default_config 50 leased error failure t' ≡ ok t')
    × ((until_ms : ℕ) (reason : String)
        → mark_deferred default_config 50 leased until_ms reason t' ≡ ok t')
settle-claimed_again_example =
    settle-claimed_again default_config 50 30 40 leased parked
      (unfold claim_row update_where has_id keys_unique entry_free holds is_key index_entry
          is_active same in
        refl)
      (λ r m e. one_attempt parked (refl, (refl, (refl, (refl, (refl, (refl, tt)))))) r m)
