-- ===== src/Store/Refinement.antt =====
-- The key-value store of memory/store/kv.rs implements its two maps.
use tinycortex.Base.{
  ◌≡◌, ◌∙◌, ◌&&◌, if◌then◌else◌, same_text, same_text_refl, same_text_eq, Bool, true, refl, false,
  arith, some, List, Option, ok, ℕ, none, ltb, Result, err, Text, ap, ◌||◌, ◌∷◌, [], is_ok,
}
use tinycortex.Store.Rows.{
  Row, upsert, find_value, delete_row, Decides, is_some, find_value-upsert, find_value-delete,
  delete_row-count,
}
use tinycortex.Store.Kv.{
  Outside, KvStore, KvError, no_rows, stored_name, sanitize_namespace, set_global, get_global,
  set_namespace, get_namespace, delete_global, delete_namespace, same_pair, parse_found,
  corrupt_json, secret_key,
}
use tinycortex.Store.Map.{
  Command, Maps, run_command, run_all, no_entries, command_meaning, meaning, write_reply,
  put_global, refused, stored, put_scoped, drop_global, removed, drop_scoped,
}

pub same_text-Decides : Decides same_text
same_text-Decides = (same_text_refl, same_text_eq)

both : (a b : Bool) → a && b ≡ true → (a ≡ true) × (b ≡ true)
both true b h = (refl, h)
both false b h = ground (arith, h)

same_pair-Decides : Decides same_pair
unfolding same_pair
same_pair-Decides = (
  (λ p. rw (same_text_refl p.0, same_text_refl p.1) refl),
  λ p q h.
      let (a, b) = both (same_text p.0 q.0) (same_text p.1 q.1) h in
      rw (same_text_eq p.0 q.0 a, same_text_eq p.1 q.1 b) refl,
)

module _ {Json : Type 0} (o : Outside Json) where
  -- What serde_json documents of the values that are stored.
  abbrev pub RoundTrips : Type 0
  RoundTrips = (v : Json) → o.from_str (o.to_string (o.sanitize_json v)) ≡ some (o.sanitize_json v)

  module _ {K : Type 0} (same_key : K → K → Bool) where
    -- The rows of a table are those of a map.
    abbrev Holds : List (Row K) → (K → Option Json) → Type 0
    Holds rs f = (k : K) → parse_found o (find_value same_key k rs) ≡ ok (f k)

    Holds-upsert :
        RoundTrips
        → Decides same_key
        → (rs : List (Row K)) (f : K → Option Json) (k : K) (v : Json) (now : ℕ) → Holds rs f
        → Holds
            (upsert same_key k (o.to_string (o.sanitize_json v)) now rs)
            (λ j. if same_key j k then some (o.sanitize_json v) else f j)
    unfolding parse_found
    Holds-upsert round d rs f k v now h j =
        rw (find_value-upsert same_key d j k (o.to_string (o.sanitize_json v)) now rs)
          (go (same_key j k))
      where
        go :
            (b : Bool)
            → parse_found o
                (if b then some (o.to_string (o.sanitize_json v)) else find_value same_key j rs)
              ≡ ok (if b then some (o.sanitize_json v) else f j)
        go true = rw (round v) refl
        go false = h j

    Holds-delete :
        Decides same_key
        → (rs : List (Row K)) (f : K → Option Json) (k : K) → Holds rs f
        → Holds (delete_row same_key k rs).1 (λ j. if same_key j k then none else f j)
    unfolding parse_found
    Holds-delete d rs f k h j = rw (find_value-delete same_key d j k rs) (go (same_key j k))
      where
        go :
            (b : Bool)
            → parse_found o (if b then none else find_value same_key j rs)
              ≡ ok (if b then none else f j)
        go true = refl
        go false = h j

    Holds-count :
        (rs : List (Row K)) (f : K → Option Json) (k : K)
        → Holds rs f
        → ltb 0 (delete_row same_key k rs).0 ≡ is_some (f k)
    unfolding parse_found
    Holds-count rs f k h = delete_row-count same_key k rs ∙ go (find_value same_key k rs) (h k)
      where
        payload : Result KvError (Option Json) → Option Json
        payload (ok v) = v
        payload (err e) = none

        go : (found : Option Text) → parse_found o found ≡ ok (f k) → is_some found ≡ is_some (f k)
        go none e = ap (λ r. is_some (payload r)) e
        go (some raw) e = parsed (o.from_str raw) e
          where
            parsed :
                (p : Option Json)
                → (elim p [ none ↦ err corrupt_json | some v ↦ ok (some v) ]) ≡ ok (f k)
                → true ≡ is_some (f k)
            parsed none e = ground (arith, ap is_ok e)
            parsed (some v) e = ap (λ r. is_some (payload r)) e

  abbrev pub Refines : KvStore → Maps Json → Type 0
  Refines s m = Holds same_text s.kv_global m.globals × Holds same_pair s.kv_namespace m.scoped

  abbrev Agrees : {R : Type 0} → R × KvStore → R × Maps Json → Type 0
  Agrees a b = (a.0 ≡ b.0) × Refines a.1 b.1

  -- One command: the reply is the one of the maps, and the store still implements them.
  command-Refines :
      RoundTrips
      → (c : Command Json) (s : KvStore) (m : Maps Json) → Refines s m
      → Agrees (run_command o c s) (command_meaning o c m)
  unfolding run_command command_meaning set_global set_namespace delete_global delete_namespace
      write_reply
  command-Refines round (put_global k v now) s m h = go (o.has_likely_secret k)
    where
      next : KvStore
      next = record s {
        kv_global =
            upsert same_text (stored_name o k) (o.to_string (o.sanitize_json v)) now s.kv_global;
      }

      target : Maps Json
      target = record m {
        globals =
            λ j. if same_text j (stored_name o k) then some (o.sanitize_json v) else m.globals j;
      }

      go :
          (b : Bool)
          → Agrees
              (write_reply o s (if b then err secret_key else ok next))
              (if b then (refused, m) else (stored, target))
      go true = (refl, h)
      go false = (
        refl,
        (
          Holds-upsert same_text round same_text-Decides s.kv_global m.globals (stored_name o k) v
              now h.0,
          h.1,
        ),
      )
  command-Refines round (put_scoped n k v now) s m h =
      go (o.has_likely_secret n || o.has_likely_secret k)
    where
      place : Text × Text
      place = (sanitize_namespace o (stored_name o n), stored_name o k)

      next : KvStore
      next = record s {
        kv_namespace = upsert same_pair place (o.to_string (o.sanitize_json v)) now s.kv_namespace;
      }

      target : Maps Json
      target = record m {
        scoped = λ j. if same_pair j place then some (o.sanitize_json v) else m.scoped j;
      }

      go :
          (b : Bool)
          → Agrees
              (write_reply o s (if b then err secret_key else ok next))
              (if b then (refused, m) else (stored, target))
      go true = (refl, h)
      go false = (
        refl,
        (
          h.0,
          Holds-upsert same_pair round same_pair-Decides s.kv_namespace m.scoped place v now h.1,
        ),
      )
  command-Refines round (drop_global k) s m h = (
    ap removed (Holds-count same_text s.kv_global m.globals k h.0),
    (Holds-delete same_text same_text-Decides s.kv_global m.globals k h.0, h.1),
  )
  command-Refines round (drop_scoped n k) s m h = (
    ap removed (Holds-count same_pair s.kv_namespace m.scoped (sanitize_namespace o n, k) h.1),
    (
      h.0,
      Holds-delete same_pair same_pair-Decides s.kv_namespace m.scoped (sanitize_namespace o n, k)
          h.1,
    ),
  )

  all_refine :
      RoundTrips
      → (cs : List (Command Json)) (s : KvStore) (m : Maps Json) → Refines s m
      → Agrees (run_all o cs s) (meaning o cs m)
  unfolding run_all meaning
  all_refine round [] s m h = (refl, h)
  all_refine round (c ∷ cs) s m h =
      let (e, h') = command-Refines round c s m h in
      let (es, last) = all_refine round cs (run_command o c s).1 (command_meaning o c m).1 h' in
      (rw (e, es) refl, last)

  -- From empty tables, every sequence of writes and deletes gives the replies of two maps, and then
  -- every read of the store is the read of the maps: a value is stored scrubbed, under the redacted
  -- key and namespace, a name like a secret is refused and changes nothing, and a delete reports
  -- whether the entry was there. The stored values are taken to parse back.
  pub run_all-meaning :
      RoundTrips
      → (cs : List (Command Json))
      → ((run_all o cs no_rows).0 ≡ (meaning o cs (no_entries o)).0)
        × ((k : Text)
            → get_global o k (run_all o cs no_rows).1
              ≡ ok ((meaning o cs (no_entries o)).1.globals k))
        × ((n k : Text)
            → get_namespace o n k (run_all o cs no_rows).1
              ≡ ok ((meaning o cs (no_entries o)).1.scoped (sanitize_namespace o n, k)))
  unfolding get_global get_namespace parse_found
  run_all-meaning round cs =
      let (e, (g, n)) = all_refine round cs no_rows (no_entries o) ((λ k. refl), λ p. refl) in
      (e, g, λ ns k. n (sanitize_namespace o ns, k))
