-- ===== src/Sources/Written.antt =====
-- What the operations of memory/sources/registry.rs leave in the file.
use tinycortex.Base.{
  ◌≡◌, if◌then◌else◌, Option, none, List, some, ok, bind-ok, ok_or, ok_or-ok, err, Bool, true,
  subst, ap, refl, false, arith, is_ok, Result, sym,
}
use tinycortex.Sources.Entry.{
  MemorySourceEntry, SourceError, encode_failed, read_failed, write_failed,
}
use tinycortex.Sources.Registry.{
  Toml, Content, ConfigFile, read_table, decode_sources, list_sources, write_all, absent, broken,
  table,
}

-- The other keys of a file: none if there is no table.
abbrev pub others_of : {Other Value : Type 0} → Content Other Value → Option Other
others_of absent = none
others_of broken = none
others_of (table o v) = o

module _ {Value : Type 0} (o : Toml Value) where
  -- What the toml crate documents.
  abbrev pub RoundTrips : Type 0
  RoundTrips =
      (ss : List MemorySourceEntry) (v : Value) → o.encode ss ≡ some v → o.decode v ≡ some ss

module _ {Other Value : Type 0} (o : Toml Value) where
  -- The file holds these sources and these other keys.
  abbrev pub Holds : ConfigFile Other Value → List MemorySourceEntry → Option Other → Type 0
  Holds f ss k = (list_sources o f ≡ ok ss) × (others_of f.content ≡ k)

  pub write_all-Holds :
      RoundTrips o
      → (ss : List MemorySourceEntry) (f f' : ConfigFile Other Value) → write_all o ss f ≡ ok f'
      → Holds f' ss (others_of f.content)
  unfolding write_all list_sources read_table decode_sources
  write_all-Holds round ss f f' e =
      let (t, a, e') = bind-ok (read_table f) _ f' e in
      let (v, b, e'') = bind-ok (ok_or encode_failed (o.encode ss)) _ f' e' in
      written t v f.content a (ok_or-ok encode_failed (o.encode ss) v b) f.writable e''
    where
      others_in : Option Other → Result SourceError (Option Other × Option Value) → Option Other
      others_in d (ok t) = t.0
      others_in d (err m) = d

      kept :
          (t : Option Other × Option Value) (c : Content Other Value)
          → (elim c [
            | absent ↦ ok (none, none)
            | broken ↦ err read_failed
            | table others sources ↦ ok (others, sources)
          ])
            ≡ ok t
          → t.0 ≡ others_of c
      kept t absent a = sym (ap (others_in none) a)
      kept t broken a = ground (arith, ap is_ok a)
      kept t (table k v) a = sym (ap (others_in none) a)

      file_of :
          ConfigFile Other Value
          → Result SourceError (ConfigFile Other Value)
          → ConfigFile Other Value
      file_of d (ok g) = g
      file_of d (err m) = d

      written :
          (t : Option Other × Option Value) (v : Value) (c : Content Other Value)
          → (elim c [
            | absent ↦ ok (none, none)
            | broken ↦ err read_failed
            | table others sources ↦ ok (others, sources)
          ])
            ≡ ok t
          → o.encode ss ≡ some v
          → (w : Bool)
          → (if w then ok (record f { content = table t.0 (some v) }) else err write_failed) ≡ ok f'
          → Holds f' ss (others_of c)
      written t v c a b true e =
          subst (λ g. Holds g ss (others_of c)) (ap (file_of f) e)
            ((rw (round ss v b) refl), kept t c a)
      written t v c a b false e = ground (arith, ap is_ok e)
