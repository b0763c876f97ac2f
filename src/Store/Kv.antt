-- ===== src/Store/Kv.antt =====
-- memory/store/kv.rs: the global and the namespaced key-value store.
use tinycortex.Base.{
  ◌&&◌, ◌||◌, ◌==◌, if◌then◌else◌, [], Text, Option, Bool, List, same_text, ℕ, leb, trim, is_nil,
  map, Result, err, ok, none, some, ltb,
}
use tinycortex.Store.Rows.{Row, upsert, find_value, delete_row}

-- The functions of other crates: serde_json's printer and parser, and the scrubbers and the name of the
-- global namespace of the shared safety and contract crates.
pub record Outside (Json : Type 0) : Type 0 where
  pub to_string : Json → Text
  pub from_str : Text → Option Json
  pub sanitize_json : Json → Json
  pub has_likely_secret : Text → Bool
  pub has_likely_pii : Text → Bool
  pub redact_pii : Text → Text
  pub global_namespace : Text

-- A namespaced row's key is the pair of its namespace and its key.
pub record KvStore : Type 0 where
  pub kv_global : List (Row Text)
  pub kv_namespace : List (Row (Text × Text))

pub data KvError : Type 0 where
  secret_key corrupt_json : KvError

abbrev pub no_rows : KvStore
no_rows = record { kv_global = []; kv_namespace = [] }

unfoldable pub same_pair : Text × Text → Text × Text → Bool
same_pair (n, k) (m, j) = same_text n m && same_text k j

-- A character that a namespace keeps: an ASCII letter or digit, `-`, `_` or `/`.
unfoldable pub is_plain : ℕ → Bool
is_plain c =
    (leb 48 c && leb c 57)
    || ((leb 65 c && leb c 90) || ((leb 97 c && leb c 122) || (c == 45 || (c == 95 || c == 47))))

unfoldable pub replace_hostile : ℕ → ℕ
unfolding is_plain
replace_hostile c = if is_plain c then c else 95

module _ {Json : Type 0} (o : Outside Json) where
  unfoldable pub sanitize_namespace : Text → Text
  unfolding replace_hostile trim
  sanitize_namespace n =
      if is_nil (trim n) then o.global_namespace else map replace_hostile (trim n)

  -- The key or the namespace that a write stores.
  unfoldable pub stored_name : Text → Text
  stored_name k = if o.has_likely_pii k then o.redact_pii k else k

  unfoldable pub set_global : Text → Json → ℕ → KvStore → Result KvError KvStore
  unfolding stored_name upsert
  set_global key value now s =
      if o.has_likely_secret key
      then err secret_key
      else ok (record s {
        kv_global =
            upsert same_text (stored_name key) (o.to_string (o.sanitize_json value)) now
              s.kv_global;
      })

  -- A missing row is no value; a row that does not parse is an error.
  unfoldable pub parse_found : Option Text → Result KvError (Option Json)
  parse_found none = ok none
  parse_found (some raw) = elim (o.from_str raw) [ none ↦ err corrupt_json | some v ↦ ok (some v) ]

  unfoldable pub get_global : Text → KvStore → Result KvError (Option Json)
  unfolding parse_found find_value
  get_global key s = parse_found (find_value same_text key s.kv_global)

  unfoldable pub set_namespace : Text → Text → Json → ℕ → KvStore → Result KvError KvStore
  unfolding sanitize_namespace stored_name upsert
  set_namespace namespace key value now s =
      if o.has_likely_secret namespace || o.has_likely_secret key
      then err secret_key
      else ok (record s {
        kv_namespace =
            upsert same_pair (sanitize_namespace (stored_name namespace), stored_name key)
              (o.to_string (o.sanitize_json value)) now s.kv_namespace;
      })

  unfoldable pub get_namespace : Text → Text → KvStore → Result KvError (Option Json)
  unfolding sanitize_namespace parse_found find_value
  get_namespace namespace key s =
      parse_found (find_value same_pair (sanitize_namespace namespace, key) s.kv_namespace)

  unfoldable pub delete_global : Text → KvStore → Bool × KvStore
  unfolding delete_row
  delete_global key s =
      let (changed, rows) = delete_row same_text key s.kv_global in
      (ltb 0 changed, record s { kv_global = rows })

  unfoldable pub delete_namespace : Text → Text → KvStore → Bool × KvStore
  unfolding sanitize_namespace delete_row
  delete_namespace namespace key s =
      let (changed, rows) =
        delete_row same_pair (sanitize_namespace namespace, key) s.kv_namespace in
      (ltb 0 changed, record s { kv_namespace = rows })
