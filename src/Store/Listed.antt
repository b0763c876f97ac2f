-- ===== src/Store/Listed.antt =====
-- What the listings of memory/store/kv.rs return after any sequence of writes.
use mathlib.Core.List.{Perm}
use mathlib.Core.List.Perm
use tinycortex.Base.{
  ◌≡◌, ◌||◌, ◌∷◌, ◌++◌, if◌then◌else◌, [], Bool, List, All, keep, true, false, ℕ, refl, some, Text,
  err, ok, same_text, not, none,
}
use tinycortex.Store.Rows.{Row, upsert, delete_row}
use tinycortex.Store.Kv.{
  Outside, KvStore, no_rows, sanitize_namespace, stored_name, same_pair, set_global, set_namespace,
  delete_global, delete_namespace, secret_key,
}
use tinycortex.Store.Map.{
  Command, run_command, run_all, write_reply, put_global, put_scoped, drop_global, drop_scoped,
}
use tinycortex.Store.Refinement.{RoundTrips}
use tinycortex.Store.Listing.{
  MemoryKvRecord, by_newest, records_namespace, records_global, records_for_scope,
}
use tinycortex.Store.Newest.{Newest, All-keep, by_newest-Newest, by_newest-Perm}
use tinycortex.Store.Records.{Parses, Records, read_rows-total, read_rows-Records, newest-Records}

module _ {Json : Type 0} (o : Outside Json) where
  All-upsert :
      {K : Type 0} (same_key : K → K → Bool) (k : K) (v : Json) (now : ℕ) (rs : List (Row K))
      → RoundTrips o
      → All (Parses o) rs
      → All (Parses o) (upsert same_key k (o.to_string (o.sanitize_json v)) now rs)
  unfolding upsert
  All-upsert same_key k v now [] round h = ((o.sanitize_json v, round v), tt)
  All-upsert same_key k v now (r ∷ rs) round h =
      go (same_key k r.key) (All-upsert same_key k v now rs round h.1)
    where
      raw : Text
      raw = o.to_string (o.sanitize_json v)

      go :
          (b : Bool)
          → All (Parses o) (upsert same_key k raw now rs)
          → All (Parses o) (
              if b
              then record r { value_json = raw; updated_at = now } ∷ rs
              else r ∷ upsert same_key k raw now rs)
      go true k = ((o.sanitize_json v, round v), h.1)
      go false k = (h.0, k)

  abbrev Readable : KvStore → Type 0
  Readable s = All (Parses o) s.kv_global × All (Parses o) s.kv_namespace

  write-Readable :
      (s s' : KvStore) (b : Bool)
      → Readable s
      → Readable s'
      → Readable (write_reply o s (if b then err secret_key else ok s')).1
  unfolding write_reply
  write-Readable s s' true h k = h
  write-Readable s s' false h k = k

  command-Readable :
      RoundTrips o → (c : Command Json) (s : KvStore) → Readable s → Readable (run_command o c s).1
  unfolding run_command set_global set_namespace delete_global delete_namespace delete_row
  command-Readable round (put_global k v now) s h =
      write-Readable s
        (record s {
          kv_global =
              upsert same_text (stored_name o k) (o.to_string (o.sanitize_json v)) now s.kv_global;
        })
        (o.has_likely_secret k) h
        (All-upsert same_text (stored_name o k) v now s.kv_global round h.0, h.1)
  command-Readable round (put_scoped n k v now) s h =
      let place : Text × Text = (sanitize_namespace o (stored_name o n), stored_name o k) in
      write-Readable s
        (record s {
          kv_namespace =
              upsert same_pair place (o.to_string (o.sanitize_json v)) now s.kv_namespace;
        })
        (o.has_likely_secret n || o.has_likely_secret k) h
        (h.0, All-upsert same_pair place v now s.kv_namespace round h.1)
  command-Readable round (drop_global k) s h =
      (All-keep (Parses o) (λ r. not (same_text k r.key)) s.kv_global h.0, h.1)
  command-Readable round (drop_scoped n k) s h = (
    h.0,
    All-keep (Parses o) (λ r. not (same_pair (sanitize_namespace o n, k) r.key)) s.kv_namespace h.1,
  )

  all-Readable :
      RoundTrips o
      → (cs : List (Command Json)) (s : KvStore) → Readable s
      → Readable (run_all o cs s).1
  unfolding run_all
  all-Readable round [] s h = h
  all-Readable round (c ∷ cs) s h =
      all-Readable round cs (run_command o c s).1 (command-Readable round c s h)

  -- The rows of one namespace.
  abbrev pub in_namespace : Text → KvStore → List (Row (Text × Text))
  in_namespace namespace s =
      keep (λ r. same_text (sanitize_namespace o namespace) r.key.0) s.kv_namespace

  -- After any sequence of writes and deletes on empty tables, the listing of a scope does not fail on
  -- a stored value: it is an ordering of one record for each row of the namespace and one for each
  -- global row, each with the row's namespace, if any, key, parsed value and instant, and no record
  -- is older than a later one. The stored values are taken to parse back.
  pub records_for_scope-Newest :
      RoundTrips o
      → (cs : List (Command Json)) (namespace : Text)
      → let (replies, s) = run_all o cs no_rows in
        (rs : List (MemoryKvRecord Json)) × (records_for_scope o namespace s ≡ ok rs)
        × Newest (λ r. r.updated_at) rs
        × ((own : List (MemoryKvRecord Json)) × (others : List (MemoryKvRecord Json)) × Records o
              (λ p. some p.0)
              (λ p. p.1)
              own
              (in_namespace namespace s)
            × Records o (λ k. none) (λ k. k) others s.kv_global
            × Perm rs (own ++ others))
  unfolding records_for_scope records_namespace records_global
  records_for_scope-Newest round cs namespace = (
    by_newest (λ r. r.updated_at) (sorted own.0 ++ sorted others.0),
    (rw
        (
          read_rows-Records o (λ p. some p.0) (λ p. p.1) (sorted own.0) _
              (newest-Records o (λ p. some p.0) (λ p. p.1) own.0 visible own.1),
          read_rows-Records o (λ k. none) (λ k. k) (sorted others.0) _
              (newest-Records o (λ k. none) (λ k. k) others.0 s.kv_global others.1),
        )
        refl),
    by_newest-Newest (λ r. r.updated_at) (sorted own.0 ++ sorted others.0),
    (
      own.0,
      others.0,
      own.1,
      others.1,
      Perm.trans (by_newest-Perm (λ r. r.updated_at) (sorted own.0 ++ sorted others.0)) (
          Perm.append (by_newest-Perm (λ r. r.updated_at) own.0)
            (by_newest-Perm (λ r. r.updated_at) others.0)),
    ),
  )
    where
      s : KvStore
      s = (run_all o cs no_rows).1

      readable : Readable s
      readable = all-Readable round cs no_rows (tt, tt)

      visible : List (Row (Text × Text))
      visible = in_namespace namespace s

      sorted : List (MemoryKvRecord Json) → List (MemoryKvRecord Json)
      sorted xs = by_newest (λ r. r.updated_at) xs

      own : (xs : List (MemoryKvRecord Json)) × Records o (λ p. some p.0) (λ p. p.1) xs visible
      own =
          read_rows-total o (λ p. some p.0) (λ p. p.1) visible
            (All-keep (Parses o) (λ r. same_text (sanitize_namespace o namespace) r.key.0)
              s.kv_namespace readable.1)

      others : (xs : List (MemoryKvRecord Json)) × Records o (λ k. none) (λ k. k) xs s.kv_global
      others = read_rows-total o (λ k. none) (λ k. k) s.kv_global readable.0
