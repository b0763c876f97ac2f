-- ===== src/Store/Listing.antt =====
-- The listings of memory/store/kv.rs.
use tinycortex.Base.{
  ◌∷◌, ◌++◌, if◌then◌else◌, [], ◌>>=◌, Option, Text, ℕ, List, ltb, Result, ok, ok_or, some, keep,
  same_text, none,
}
use tinycortex.Store.Rows.{Row}
use tinycortex.Store.Kv.{Outside, KvStore, KvError, corrupt_json, sanitize_namespace}

-- A record of a listing: the namespace is that of the row, or none for a global one.
pub record MemoryKvRecord (Json : Type 0) : Type 0 where
  pub namespace : Option Text
  pub key : Text
  pub value : Json
  pub updated_at : ℕ

-- `ORDER BY updated_at DESC`, and `sort_by` on a listing: newest first, else in the order they had.
-- SQLite leaves the order of equal instants open.
module _ {A : Type 0} (instant : A → ℕ) where
  unfoldable pub insert_newest : A → List A → List A
  insert_newest x [] = x ∷ []
  insert_newest x (y ∷ ys) =
      let rest = insert_newest x ys in if ltb (instant x) (instant y) then y ∷ rest else x ∷ y ∷ ys

  unfoldable pub by_newest : List A → List A
  unfolding insert_newest
  by_newest [] = []
  by_newest (x ∷ xs) = insert_newest x (by_newest xs)

module _ {Json : Type 0} (o : Outside Json) where
  -- The loop over the rows: the first value that does not parse fails it.
  unfoldable pub read_rows :
      {K : Type 0}
      → (K → Option Text)
      → (K → Text)
      → List (Row K)
      → Result KvError (List (MemoryKvRecord Json))
  read_rows namespace_of key_of [] = ok []
  read_rows namespace_of key_of (r ∷ rs) = do
    value ← ok_or corrupt_json (o.from_str r.value_json)
    rest ← read_rows namespace_of key_of rs
    ok (
        record {
          namespace = namespace_of r.key;
          key = key_of r.key;
          value = value;
          updated_at = r.updated_at;
        }
        ∷ rest)

  unfoldable pub records_namespace : Text → KvStore → Result KvError (List (MemoryKvRecord Json))
  unfolding read_rows by_newest sanitize_namespace
  records_namespace namespace s =
      read_rows (λ p. some p.0) (λ p. p.1)
        (by_newest (λ r. r.updated_at)
          (keep (λ r. same_text (sanitize_namespace o namespace) r.key.0) s.kv_namespace))

  unfoldable pub records_global : KvStore → Result KvError (List (MemoryKvRecord Json))
  unfolding read_rows by_newest
  records_global s = read_rows (λ k. none) (λ k. k) (by_newest (λ r. r.updated_at) s.kv_global)

  unfoldable pub records_for_scope : Text → KvStore → Result KvError (List (MemoryKvRecord Json))
  unfolding records_namespace records_global by_newest
  records_for_scope namespace s = do
    own ← records_namespace namespace s
    others ← records_global s
    ok (by_newest (λ r. r.updated_at) (own ++ others))
