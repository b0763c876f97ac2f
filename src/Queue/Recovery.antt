-- ===== src/Queue/Recovery.antt =====
-- memory/queue/store_settle.rs, the repairs of many rows at once: stale locks, the release at
-- shutdown, and the requeue of failed jobs.
use Prim.Native.Nat.{Ordering}
use Prim.Native.String.{compare}
use tinycortex.Base.{
  ℕ, suc, ◌+◌, ◌-◌, String, Bool, true, false, ◌&&◌, ◌||◌, not, Option, none, some, List, [], ◌∷◌,
  map, same, Result, ok, ◌>>=◌, if◌then◌else◌, ltb, ◌==◌, any, keep,
}
use mathlib.Core.Option
use tinycortex.Queue.Types.{ready, running, failed, cancelled}
use tinycortex.Queue.Table.{Row, Table, DbError, exec_update, has_id, holds}
use tinycortex.Queue.Store.{is_status, is_class}

lock_expired : ℕ → Option ℕ → Bool
lock_expired now none = false
lock_expired now (some until) = ltb until now

unfoldable pub is_stale : ℕ → Row → Bool
unfolding is_status lock_expired
is_stale now r = is_status r.status running && lock_expired now r.locked_until_ms

unfoldable pub recovered_row : Row → Row
recovered_row r = record r {
  status = ready;
  last_error = some (Option.get_or r.last_error "recovered_from_stale_lock");
}

unfoldable pub recover_stale_locks : ℕ → Table → Result DbError (ℕ × Table)
unfolding is_stale recovered_row exec_update
recover_stale_locks now = exec_update (is_stale now) recovered_row

unfoldable pub is_running : Row → Bool
unfolding is_status
is_running r = is_status r.status running

-- `attempts - 1` on ℕ stops at 0, as the CASE does.
unfoldable pub released_row : Row → Row
released_row r = record r {
  status = ready;
  attempts = r.attempts - 1;
  locked_until_ms = none;
  started_at_ms = none;
}

unfoldable pub release_running_locks : Table → Result DbError (ℕ × Table)
unfolding is_running released_row exec_update
release_running_locks = exec_update is_running released_row

unfoldable pub is_failed : Row → Bool
unfolding is_status
is_failed r = is_status r.status failed

unfoldable pub is_transient_failed : Row → Bool
unfolding is_failed is_class
is_transient_failed r = is_failed r && not (is_class "unrecoverable" r.failure_class)

-- ORDER BY COALESCE(completed_at_ms, created_at_ms) DESC, created_at_ms DESC, id DESC.
settled_at : Row → ℕ
settled_at r = Option.get_or r.completed_at_ms r.created_at_ms

id_after : String → String → Bool
id_after a b = elim (compare a b) [ Ordering.gt ↦ true | _ ↦ false ]

unfoldable pub is_newer : Row → Row → Bool
unfolding settled_at id_after
is_newer a b =
    ltb (settled_at b) (settled_at a)
    || (settled_at a == settled_at b
        && (ltb b.created_at_ms a.created_at_ms
            || (a.created_at_ms == b.created_at_ms && id_after a.id b.id)))

unfoldable pub insert_newest : Row → List Row → List Row
unfolding is_newer
insert_newest r [] = r ∷ []
insert_newest r (s ∷ rest) =
    let later = s ∷ insert_newest r rest in if is_newer s r then later else r ∷ s ∷ rest

unfoldable pub newest_first : List Row → List Row
unfolding insert_newest
newest_first [] = []
newest_first (r ∷ t) = insert_newest r (newest_first t)

abbrev pub Candidate : Type 0
Candidate = String × Option String

unfoldable pub candidates : (Row → Bool) → Table → List Candidate
unfolding newest_first
candidates predicate t = map (λ r. (r.id, r.dedupe_key)) (newest_first (keep predicate t))

pub record Triage : Type 0 where
  pub to_requeue : List String
  pub to_cancel : List String
  pub skipped_active : ℕ

-- The loop over the candidates. `active` is the set of the keys of live rows, `claimed` that of
-- the keys met so far. A branch is bound before the test, so that one recursive call is made.
unfoldable pub triage : (String → Bool) → List String → List Candidate → Triage
triage active claimed [] = record { to_requeue = []; to_cancel = []; skipped_active = 0 }
triage active claimed ((id, none) ∷ cs) =
    let r = triage active claimed cs in record r { to_requeue = id ∷ r.to_requeue }
triage active claimed ((id, some key) ∷ cs) =
    let same_keys = triage active claimed cs in
    let new_key = triage active (key ∷ claimed) cs in
    if active key
    then record same_keys { skipped_active = suc same_keys.skipped_active }
    else if any (same key) claimed
    then record same_keys { to_cancel = id ∷ same_keys.to_cancel }
    else record new_key { to_requeue = id ∷ new_key.to_requeue }

unfoldable pub cancelled_row : ℕ → Row → Row
cancelled_row now r = record r {
  status = cancelled;
  locked_until_ms = none;
  completed_at_ms = some now;
  last_error = some "superseded by a newer job with the same dedupe_key";
}

unfoldable pub requeued_row : ℕ → Row → Row
requeued_row now r = record r {
  status = ready;
  attempts = 0;
  available_at_ms = now;
  locked_until_ms = none;
  started_at_ms = none;
  completed_at_ms = none;
  last_error = none;
  failure_reason = none;
  failure_class = none;
}

-- One UPDATE by id for each of a list of ids; the counts add up.
unfoldable pub update_each : (Row → Row) → List String → Table → Result DbError (ℕ × Table)
unfolding has_id exec_update
update_each f [] t = ok (0, t)
update_each f (id ∷ ids) t = do
  first ← exec_update (has_id id) f t
  rest ← update_each f ids first.1
  ok (first.0 + rest.0, rest.1)

unfoldable pub requeue_failed_where : (Row → Bool) → ℕ → Table → Result DbError (ℕ × Table)
unfolding candidates triage holds cancelled_row requeued_row update_each
requeue_failed_where predicate now t = do
  let split = triage (λ k. holds k t) [] (candidates predicate t)
  cancels ← update_each (cancelled_row now) split.to_cancel t
  update_each (requeued_row now) split.to_requeue cancels.1

unfoldable pub requeue_failed : ℕ → Table → Result DbError (ℕ × Table)
unfolding is_failed requeue_failed_where
requeue_failed = requeue_failed_where is_failed

unfoldable pub requeue_transient_failed : ℕ → Table → Result DbError (ℕ × Table)
unfolding is_transient_failed requeue_failed_where
requeue_transient_failed = requeue_failed_where is_transient_failed
