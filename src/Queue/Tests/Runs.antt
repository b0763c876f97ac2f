-- ===== src/Queue/Tests/Runs.antt =====
-- The theorems on one job of memory/queue, run on the table of `Queue.Tests`.
use tinycortex.Queue.Wire.{parse_lem}
use tinycortex.Queue.Backoff.{backoff_ms_lem}
use tinycortex.Queue.Gate.{try_acquire, gate_conserves, Reach, new, next, here, take, Gate}
use tinycortex.Queue.Deferral.{defer-claim, IsDeferred}
use tinycortex.Queue.Store.{row_to_job, claim_row, enqueue_conn, new_row, backoff_ms}
use tinycortex.Queue.Failure.{IsSettled, mark_failed_typed_lem}
use tinycortex.Queue.Commit.{mark_done_with_followups_lem}
use tinycortex.Queue.Index.{IsUnique}
use tinycortex.Queue.Config.{default_config}
use tinycortex.Queue.Settle.{
  mark_done_with_followups, has_token, done_row, same_instant, mark_failed_typed, mark_deferred,
}
use tinycortex.Queue.Table.{
  has_id, Table, Row, holds, is_active, update_where, keys_unique, entry_free, is_key, index_entry,
}
use tinycortex.Queue.Tests.{
  parked, absent-IsFresh, leased, parked-IsUnique, parked-IdsUnique, job_row,
}
use tinycortex.Queue.Enqueue.{FreshIds, IsFresh, IsEnqueued, enqueue_conn_lem}
use tinycortex.Queue.Types.{
  NewJob, JobKind, transient, ready, Job, parse_kind, flush_stale, kind_str, parse_status,
  cancelled, status_str,
}
use tinycortex.Base.{
  ◌+◌, ◌-◌, ◌*◌, ◌^◌, ◌≤◌, ◌≡◌, ◌≢◌, ◌↔◌, ◌∷◌, ◌++◌, [], some, none, String, In, inl, subst, sym,
  same, refl, inr, Bool, ok, false, true, arith, max, min,
}

abbrev next_job : NewJob
next_job = record {
  kind = JobKind.append_buffer;
  payload_json = "{}";
  dedupe_key = some "append:source:s:leaf:c1";
  available_at_ms = none;
  max_attempts = none;
}

fresh_id : FreshIds (("g", next_job) ∷ []) parked
fresh_id = (λ i m. one i m, ((λ y m. elim m [ ]), tt))
  where
    one : (i : String) → In i ("g" ∷ []) → IsFresh i parked
    one i (inl e) =
        subst (λ j. IsFresh j parked) (sym e)
          (absent-IsFresh "g" parked (unfold has_id same in refl))
    one i (inr m) = elim m [ ]

mark_done_with_followups_lem_example :
    (b : Bool) × (t' : Table) × (mark_done_with_followups default_config 50 leased
        (("g", next_job) ∷ [])
        parked
      ≡ ok (b, t'))
    × IsUnique t'
    × (b ≡ false → (t' ≡ parked) × ((r : Row) → In r parked → has_token leased r ≡ false))
    × (b ≡ true
        → ((r : Row) × In r parked × (has_token leased r ≡ true))
          × ((r : Row) → In r parked → has_token leased r ≡ true → In (done_row 50 r) t')
          × ((r : Row) → In r parked → has_token leased r ≡ false → In r t')
          × ((j : String × NewJob) (k : String)
              → In j (("g", next_job) ∷ [])
              → j.1.dedupe_key ≡ some k
              → holds k t' ≡ true))
mark_done_with_followups_lem_example =
    mark_done_with_followups_lem default_config 50 leased (("g", next_job) ∷ []) parked
      parked-IsUnique parked-IdsUnique fresh_id

active_token : (r : Row) → In r parked → has_token leased r ≡ true → is_active r.status ≡ true
unfolding has_token has_id same_instant same is_active
active_token r (inl e) = rw e (λ h. ground arith)
active_token r (inr (inl e)) = rw e (λ h. ground arith)
active_token r (inr (inr (inl e))) = rw e (λ h. ground arith)
active_token r (inr (inr (inr (inl e)))) = rw e (λ h. refl)
active_token r (inr (inr (inr (inr (inl e))))) = rw e (λ h. ground arith)
active_token r (inr (inr (inr (inr (inr (inl e)))))) = rw e (λ h. refl)
active_token r (inr (inr (inr (inr (inr (inr m)))))) = elim m [ ]

mark_failed_typed_lem_example :
    (t' : Table) × (mark_failed_typed default_config 50 leased "boom"
        (some (transient "network"))
        parked
      ≡ ok t')
    × IsUnique t'
    × ((r : Row)
        → In r parked
        → (s : Row) × In s t'
          × (has_token leased r ≡ false → s ≡ r)
          × (has_token leased r ≡ true
              → IsSettled default_config 50 leased "boom" (some (transient "network")) r s))
mark_failed_typed_lem_example =
    mark_failed_typed_lem default_config 50 leased "boom" (some (transient "network")) parked
      parked-IsUnique (omega arith) (omega arith) active_token

abbrev waiting : Row
waiting = job_row "f" "append_buffer" none ready 6

claimed_job : (job : Job) × (row_to_job (claim_row 30 40 waiting) ≡ ok job)
unfolding row_to_job claim_row parse_kind same
claimed_job = (_, refl)

defer-claim_example :
    let claimed = update_where (has_id waiting.id) (claim_row 30 40) parked in
    (t' : Table) × (mark_deferred default_config 50 claimed_job.0 90 "later" claimed ≡ ok t')
    × IsUnique t'
    × ((s : Row) → In s t' → s.id ≡ waiting.id → IsDeferred default_config 50 90 waiting s)
defer-claim_example =
    defer-claim default_config 30 40 50 90 "later" waiting parked claimed_job.0
      (unfold claim_row update_where has_id keys_unique entry_free holds is_key index_entry
          is_active same in
        refl)
      parked-IdsUnique (inr (inr (inr (inr (inr (inl refl)))))) claimed_job.1 (omega arith)

enqueue_conn_lem_example :
    (entry_free next_job.dedupe_key parked ≡ false
      → enqueue_conn "g" 50 next_job 5 parked ≡ (none, parked))
    × (entry_free next_job.dedupe_key parked ≡ true
        → enqueue_conn "g" 50 next_job 5 parked
          ≡ (some "g", parked ++ (new_row "g" 50 next_job 5 ∷ [])))
    × IsEnqueued next_job parked (enqueue_conn "g" 50 next_job 5 parked).1
enqueue_conn_lem_example =
    enqueue_conn_lem "g" 50 next_job 5 parked parked-IsUnique parked-IdsUnique
      (fresh_id.0 "g" (inl refl))

abbrev busy : Gate
busy = record { available = 1; held = 2 }

gate_conserves_example :
    (busy.available + busy.held ≡ max 3 1)
    × (try_acquire busy.available ≡ none → busy.held ≡ max 3 1)
    × (busy.held ≡ 0 → try_acquire busy.available ≢ none)
gate_conserves_example = gate_conserves 3 busy two_taken
  where
    two_taken : Reach (record { available = new 3; held = 0 }) busy
    two_taken =
        next (next here (take 2 (unfold new try_acquire in refl)))
          (take 1 (unfold try_acquire in refl))

backoff_ms_lem_example :
    (60000 ≤ backoff_ms 4 60000 3600000)
    × (backoff_ms 4 60000 3600000 ≤ 3600000)
    × (backoff_ms 4 60000 3600000 ≤ backoff_ms (4 + 1) 60000 3600000)
    × (backoff_ms 1 60000 3600000 ≡ 60000)
    × (4 ≤ 21 → backoff_ms 4 60000 3600000 ≡ min (60000 * 2 ^ (4 - 1)) 3600000)
backoff_ms_lem_example = backoff_ms_lem 4 60000 3600000 (omega arith) (omega arith)

parse_lem_example :
    ((parse_kind "flush_stale" ≡ ok flush_stale) ↔ ("flush_stale" ≡ kind_str flush_stale))
    × ((parse_status "flush_stale" ≡ ok cancelled) ↔ ("flush_stale" ≡ status_str cancelled))
parse_lem_example = parse_lem "flush_stale" flush_stale cancelled
