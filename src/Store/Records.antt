-- ===== src/Store/Records.antt =====
-- The records that a listing of memory/store/kv.rs makes of its rows.
use tinycortex.Base.{
  ◌≡◌, ◌∷◌, if◌then◌else◌, [], Bool, List, All, true, false, arith, refl, some, Text, ok, Option,
  ltb,
}
use tinycortex.Store.Rows.{Row}
use tinycortex.Store.Kv.{Outside}
use tinycortex.Store.Listing.{insert_newest, MemoryKvRecord, by_newest, read_rows}

module _ {Json : Type 0} (o : Outside Json) where
  -- The stored value of a row parses.
  abbrev pub Parses : {K : Type 0} → Row K → Type 0
  Parses r = (v : Json) × (o.from_str r.value_json ≡ some v)

  module _ {K : Type 0} (ns : K → Option Text) (key_of : K → Text) where
    -- The record of a row: its namespace and key, the value that its text parses to, and its instant.
    abbrev pub IsRecord : MemoryKvRecord Json → Row K → Type 0
    IsRecord x r =
        (x.namespace ≡ ns r.key)
        × (x.key ≡ key_of r.key)
        × (o.from_str r.value_json ≡ some x.value)
        × (x.updated_at ≡ r.updated_at)

    -- One record for each row, in the same order.
    abbrev pub Records : List (MemoryKvRecord Json) → List (Row K) → Type 0
    Records [] [] = Unit {0}
    Records (x ∷ xs) (r ∷ rs) = IsRecord x r × Records xs rs
    Records _ _ = ⊥

    pub read_rows-total :
        (rs : List (Row K)) → All Parses rs → (xs : List (MemoryKvRecord Json)) × Records xs rs
    read_rows-total [] h = ([], tt)
    read_rows-total (r ∷ rs) h =
        let (v, e) = h.0 in
        let (xs, k) = read_rows-total rs h.1 in
        (
          record { namespace = ns r.key; key = key_of r.key; value = v; updated_at = r.updated_at }
              ∷ xs,
          ((refl, refl, e, refl), k),
        )

    pub read_rows-Records :
        (xs : List (MemoryKvRecord Json)) (rs : List (Row K))
        → Records xs rs
        → read_rows o ns key_of rs ≡ ok xs
    unfolding read_rows
    read_rows-Records [] [] h = refl
    read_rows-Records [] (r ∷ rs) h = elim h [ ]
    read_rows-Records (x ∷ xs) [] h = elim h [ ]
    read_rows-Records (x ∷ xs) (r ∷ rs) h =
        let (a, b, c, d) = h.0 in rw (c, read_rows-Records xs rs h.1, a, b, d) refl

    insert-Records :
        (x : MemoryKvRecord Json) (r : Row K) (xs : List (MemoryKvRecord Json)) (rs : List (Row K))
        → IsRecord x r
        → Records xs rs
        → Records (insert_newest (λ y. y.updated_at) x xs) (insert_newest (λ y. y.updated_at) r rs)
    unfolding insert_newest
    insert-Records x r [] [] i h = (i, tt)
    insert-Records x r [] (s ∷ rs) i h = elim h [ ]
    insert-Records x r (y ∷ xs) [] i h = elim h [ ]
    insert-Records x r (y ∷ xs) (s ∷ rs) i h =
        go (ltb x.updated_at y.updated_at) (ltb r.updated_at s.updated_at) same_test
          (insert-Records x r xs rs i h.1)
      where
        same_test : ltb x.updated_at y.updated_at ≡ ltb r.updated_at s.updated_at
        same_test = let (a, b, c, d) = i in let (a', b', c', d') = h.0 in rw (d, d') refl

        go :
            (b c : Bool)
            → b ≡ c
            → Records
                (insert_newest (λ y. y.updated_at) x xs)
                (insert_newest (λ y. y.updated_at) r rs)
            → Records
                (if b then y ∷ insert_newest (λ y. y.updated_at) x xs else x ∷ y ∷ xs)
                (if c then s ∷ insert_newest (λ y. y.updated_at) r rs else r ∷ s ∷ rs)
        go true true e k = (h.0, k)
        go false false e k = (i, h)
        go true false e k = ground (arith, e)
        go false true e k = ground (arith, e)

    pub newest-Records :
        (xs : List (MemoryKvRecord Json)) (rs : List (Row K))
        → Records xs rs
        → Records (by_newest (λ y. y.updated_at) xs) (by_newest (λ y. y.updated_at) rs)
    unfolding by_newest
    newest-Records [] [] h = tt
    newest-Records [] (r ∷ rs) h = elim h [ ]
    newest-Records (x ∷ xs) [] h = elim h [ ]
    newest-Records (x ∷ xs) (r ∷ rs) h =
        insert-Records x r (by_newest (λ y. y.updated_at) xs) (by_newest (λ y. y.updated_at) rs) h.0
          (newest-Records xs rs h.1)
