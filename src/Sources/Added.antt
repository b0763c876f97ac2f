-- ===== src/Sources/Added.antt =====
-- Lookups after an addition in memory/sources/registry.rs.
use tinycortex.Base.{
  ◌≡◌, ◌∙◌, ◌⊎◌, ◌||◌, ◌∷◌, ◌++◌, if◌then◌else◌, [], Text, Bool, same_text, List, any, true, find,
  some, arith, refl, false, ap, ok, bind-ok, err, inl, inr, same_text_refl, sym,
}
use tinycortex.Sources.Entry.{MemorySourceEntry, validate_entry, already_exists}
use tinycortex.Sources.Registry.{
  Toml, ConfigFile, read_table, list_sources, get_source, write_all, add, table,
}
use tinycortex.Sources.Written.{RoundTrips, write_all-Holds}

abbrev has_text : Text → MemorySourceEntry → Bool
has_text id s = same_text s.id id

find-any :
    (id : Text) (ss : List MemorySourceEntry)
    → any (λ s. same_text s.id id) ss ≡ true
    → (s : MemorySourceEntry) × (find (λ s. same_text s.id id) ss ≡ some s)
find-any id [] h = ground (arith, h)
find-any id (s ∷ ss) h = go (same_text s.id id) h (find-any id ss)
  where
    go :
        (b : Bool)
        → b || any (λ x. same_text x.id id) ss ≡ true
        → (any (λ x. same_text x.id id) ss ≡ true
            → (x : MemorySourceEntry) × (find (λ x. same_text x.id id) ss ≡ some x))
        → (x : MemorySourceEntry) × ((if b then some s else find (λ x. same_text x.id id) ss)
            ≡ some x)
    go true h ih = (s, refl)
    go false h ih = ih h

find-snoc_new :
    (id : Text) (ss : List MemorySourceEntry) (e : MemorySourceEntry)
    → any (λ s. same_text s.id id) ss ≡ false
    → same_text e.id id ≡ true
    → find (λ s. same_text s.id id) (ss ++ (e ∷ [])) ≡ some e
find-snoc_new id [] e h k = rw k refl
find-snoc_new id (s ∷ ss) e h k = go (same_text s.id id) h (find-snoc_new id ss e)
  where
    go :
        (b : Bool)
        → b || any (λ x. same_text x.id id) ss ≡ false
        → (any (λ x. same_text x.id id) ss ≡ false
            → same_text e.id id ≡ true
            → find (λ x. same_text x.id id) (ss ++ (e ∷ [])) ≡ some e)
        → (if b then some s else find (λ x. same_text x.id id) (ss ++ (e ∷ []))) ≡ some e
    go true h ih = ground (arith, h)
    go false h ih = ih h k

find-snoc_other :
    (id : Text) (ss : List MemorySourceEntry) (e : MemorySourceEntry)
    → same_text e.id id ≡ false
    → find (λ s. same_text s.id id) (ss ++ (e ∷ [])) ≡ find (λ s. same_text s.id id) ss
find-snoc_other id [] e k = rw k refl
find-snoc_other id (s ∷ ss) e k =
    ap (λ r. if same_text s.id id then some s else r) (find-snoc_other id ss e k)

module _ {Other Value : Type 0} (o : Toml Value) where
  get_source_lem :
      (id : Text) (f : ConfigFile Other Value) (ss : List MemorySourceEntry)
      → list_sources o f ≡ ok ss
      → get_source o id f ≡ ok (find (λ s. same_text s.id id) ss)
  unfolding get_source
  get_source_lem id f ss e = rw e refl

  write_all_lem :
      (ss ts : List MemorySourceEntry) (f : ConfigFile Other Value) (v : Value)
      → list_sources o f ≡ ok ss
      → o.encode ts ≡ some v
      → f.writable ≡ true
      → (f' : ConfigFile Other Value) × (write_all o ts f ≡ ok f')
  unfolding write_all list_sources
  write_all_lem ss ts f v e c w =
      let (t, a, e') = bind-ok (read_table f) _ ss e in
      (record f { content = table t.0 (some v) }, rw (a, c, w) refl)

  -- Adding a valid source to a file that is listed and may be written: if a source has the id, the
  -- call fails and nothing changes; else the source is read back under its id, and a read of any
  -- other id gives what it gave before. The toml crate is taken to encode the new list, and to
  -- read back what it writes.
  pub add-get_source :
      RoundTrips o
      → (e : MemorySourceEntry) (f : ConfigFile Other Value) (ss : List MemorySourceEntry)
        (v : Value)
      → list_sources o f ≡ ok ss
      → validate_entry e ≡ ok tt
      → f.writable ≡ true
      → o.encode (ss ++ (e ∷ [])) ≡ some v
      → ((add o e f ≡ err already_exists)
          × ((s : MemorySourceEntry) × (get_source o e.id f ≡ ok (some s))))
        ⊎ ((f' : ConfigFile Other Value) × (add o e f ≡ ok f')
            × (get_source o e.id f' ≡ ok (some e))
            × ((id : Text) → same_text e.id id ≡ false → get_source o id f' ≡ get_source o id f))
  unfolding add
  add-get_source round e f ss v l valid w c = go (any (λ s. same_text s.id e.id) ss) refl
    where
      go :
          (b : Bool)
          → any (λ s. same_text s.id e.id) ss ≡ b
          → ((add o e f ≡ err already_exists)
              × ((s : MemorySourceEntry) × (get_source o e.id f ≡ ok (some s))))
            ⊎ ((f' : ConfigFile Other Value) × (add o e f ≡ ok f')
                × (get_source o e.id f' ≡ ok (some e))
                × ((id : Text)
                    → same_text e.id id ≡ false
                    → get_source o id f' ≡ get_source o id f))
      go true d =
          let (s, k) = find-any e.id ss d in
          inl ((rw (valid, l, d) refl), (s, get_source_lem e.id f ss l ∙ ap ok k))
      go false d =
          let (f', k) = write_all_lem ss (ss ++ (e ∷ [])) f v l c w in
          let (l', q) = write_all-Holds o round (ss ++ (e ∷ [])) f f' k in
          inr (
            f',
            (rw (valid, l, d) k),
            get_source_lem e.id f' (ss ++ (e ∷ [])) l'
                ∙ ap ok (find-snoc_new e.id ss e d (same_text_refl e.id)),
            λ id n.
                get_source_lem id f' (ss ++ (e ∷ [])) l'
                ∙ ap ok (find-snoc_other id ss e n)
                ∙ sym (get_source_lem id f ss l),
          )
