-- ===== src/Queue/Table.antt =====
-- The table `mem_tree_jobs` of memory/chunks/schema.rs, and the SQL statements that memory/queue
-- runs on it as functions on the list of its rows, in insertion order. The partial unique index
-- `idx_mem_tree_jobs_dedupe_active` is checked by every INSERT and UPDATE.
use tinycortex.Base.{
  ℕ, suc, String, Bool, true, false, not, ◌&&◌, ◌||◌, Option, none, some, List, [], ◌∷◌, ◌++◌, same,
  Result, ok, err, if◌then◌else◌, any,
}
use tinycortex.Queue.Types.{JobStatus, ready, running}

-- The columns. `status` holds the state itself; its wire text is `status_str`.
pub record Row : Type 0 where
  pub id : String
  pub kind : String
  pub payload_json : String
  pub dedupe_key : Option String
  pub status : JobStatus
  pub attempts : ℕ
  pub max_attempts : ℕ
  pub available_at_ms : ℕ
  pub locked_until_ms : Option ℕ
  pub last_error : Option String
  pub created_at_ms : ℕ
  pub started_at_ms : Option ℕ
  pub completed_at_ms : Option ℕ
  pub failure_reason : Option String
  pub failure_class : Option String

abbrev pub Table : Type 0
Table = List Row

pub data DbError : Type 0 where
  unique_violation : DbError

-- `status IN ('ready', 'running')`.
unfoldable pub is_active : JobStatus → Bool
is_active ready = true
is_active running = true
is_active _ = false

-- What the partial index holds of a row.
unfoldable pub index_entry : Row → Option String
unfolding is_active
index_entry r = if is_active r.status then r.dedupe_key else none

unfoldable pub is_key : String → Option String → Bool
is_key k none = false
is_key k (some j) = same j k

-- Whether a key is in the index.
unfoldable pub holds : String → Table → Bool
unfolding is_key
holds k [] = false
holds k (r ∷ t) = is_key k (index_entry r) || holds k t

unfoldable pub entry_free : Option String → Table → Bool
unfolding holds
entry_free none t = true
entry_free (some k) t = not (holds k t)

unfoldable pub keys_unique : Table → Bool
unfolding entry_free
keys_unique [] = true
keys_unique (r ∷ t) = entry_free (index_entry r) t && keys_unique t

-- `UPDATE … SET f WHERE p`, without the check of the index.
unfoldable pub update_where : (Row → Bool) → (Row → Row) → Table → Table
update_where p f [] = []
update_where p f (r ∷ t) = (if p r then f r else r) ∷ update_where p f t

unfoldable pub count_where : (Row → Bool) → Table → ℕ
count_where p [] = 0
count_where p (r ∷ t) = let n = count_where p t in if p r then suc n else n

-- An UPDATE with its count of rows; on a conflict the statement has no effect.
unfoldable pub exec_update : (Row → Bool) → (Row → Row) → Table → Result DbError (ℕ × Table)
unfolding update_where count_where keys_unique
exec_update p f t =
    let t' = update_where p f t in
    if keys_unique t' then ok (count_where p t, t') else err unique_violation

unfoldable pub has_id : String → Row → Bool
has_id i r = same r.id i

-- `INSERT OR IGNORE`: a row whose id or active key is taken is dropped.
unfoldable pub insert_or_ignore : Row → Table → ℕ × Table
unfolding keys_unique has_id holds
insert_or_ignore r t =
    if any (has_id r.id) t || not (entry_free (index_entry r) t) then (0, t) else (1, t ++ (r ∷ []))
