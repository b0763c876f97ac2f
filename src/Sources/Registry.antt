-- ===== src/Sources/Registry.antt =====
-- memory/sources/registry.rs: the sources in a TOML file. Each operation runs under one lock, so that no
-- write comes between its reads.
use tinycortex.Base.{
  ◌>>=◌, ◌-◌, ◌&&◌, ◌∷◌, ◌++◌, if◌then◌else◌, [], List, Option, Bool, Result, ok, none, err, some,
  ok_or, keep, Text, find, same_text, any, ℕ, not, length, ltb, is_nil, min, u32_mod,
}
use tinycortex.Sources.Entry.{
  SourceKind, MemorySourceEntry, SourceError, same_kind, validate_entry, read_failed, encode_failed,
  write_failed, already_exists,
}
use tinycortex.Sources.Patch.{MemorySourcePatch}
use tinycortex.Sources.Edits.{
  Target, is_connection, upsert_composio_entry, upsert_targets, patch_first, all_in,
}

-- The toml crate's conversions of a list of sources.
pub record Toml (Value : Type 0) : Type 0 where
  pub encode : List MemorySourceEntry → Option Value
  pub decode : Value → Option (List MemorySourceEntry)

-- The file: it is not there, it does not parse, or it is a table of other keys and of the sources.
pub data Content (Other Value : Type 0) : Type 0 where
  absent broken : Content Other Value
  table : Option Other → Option Value → Content Other Value

pub record ConfigFile (Other Value : Type 0) : Type 0 where
  pub content : Content Other Value
  pub writable : Bool

-- `read_table`: a missing file is an empty table.
unfoldable pub read_table :
    {Other Value : Type 0}
    → ConfigFile Other Value
    → Result SourceError (Option Other × Option Value)
read_table f = elim f.content [
  | absent ↦ ok (none, none)
  | broken ↦ err read_failed
  | table others sources ↦ ok (others, sources)
]

unfoldable pub decode_sources :
    {Value : Type 0} → Toml Value → Option Value → Result SourceError (List MemorySourceEntry)
decode_sources o none = ok []
decode_sources o (some v) = ok_or read_failed (o.decode v)

module _ {Other Value : Type 0} (o : Toml Value) where
  unfoldable pub list_sources : ConfigFile Other Value → Result SourceError (List MemorySourceEntry)
  unfolding read_table decode_sources
  list_sources f = do t ← read_table f; decode_sources o t.1

  unfoldable pub list_enabled_by_kind :
      SourceKind → ConfigFile Other Value → Result SourceError (List MemorySourceEntry)
  unfolding list_sources same_kind
  list_enabled_by_kind kind f = do
    sources ← list_sources f
    ok (keep (λ s. same_kind s.kind kind && s.enabled) sources)

  unfoldable pub get_source :
      Text → ConfigFile Other Value → Result SourceError (Option MemorySourceEntry)
  unfolding list_sources
  get_source id f = do sources ← list_sources f; ok (find (λ s. same_text s.id id) sources)

  -- The other keys are read again and kept. The write is atomic.
  unfoldable pub write_all :
      List MemorySourceEntry → ConfigFile Other Value → Result SourceError (ConfigFile Other Value)
  unfolding read_table
  write_all sources f = do
    t ← read_table f
    value ← ok_or encode_failed (o.encode sources)
    if f.writable then ok (record f { content = table t.0 (some value) }) else err write_failed

  unfoldable pub add :
      MemorySourceEntry → ConfigFile Other Value → Result SourceError (ConfigFile Other Value)
  unfolding validate_entry list_sources write_all
  add entry f = do
    _ ← validate_entry entry
    sources ← list_sources f
    if any (λ s. same_text s.id entry.id) sources
        then err already_exists
        else write_all (sources ++ (entry ∷ [])) f

  unfoldable pub update :
      Text
      → MemorySourcePatch
      → ConfigFile Other Value
      → Result SourceError (ConfigFile Other Value)
  unfolding list_sources patch_first write_all
  update id p f = do
    sources ← list_sources f
    patched ← patch_first id p sources
    write_all patched f

  -- Sources that a test picks are removed; without one nothing is written.
  unfoldable pub remove_where :
      (MemorySourceEntry → Bool)
      → ConfigFile Other Value
      → Result SourceError (ℕ × ConfigFile Other Value)
  unfolding list_sources write_all
  remove_where picks f = do
    sources ← list_sources f
    let left = keep (λ s. not (picks s)) sources
    let gone = length sources - length left
    if ltb 0 gone then write_all left f >>= (λ f'. ok (gone, f')) else ok (0, f)

  unfoldable pub remove :
      Text → ConfigFile Other Value → Result SourceError (Bool × ConfigFile Other Value)
  unfolding remove_where
  remove id f = do r ← remove_where (λ s. same_text s.id id) f; ok (ltb 0 r.0, r.1)

  unfoldable pub remove_composio_source_by_connection_id :
      Text → ConfigFile Other Value → Result SourceError (ℕ × ConfigFile Other Value)
  unfolding remove_where is_connection
  remove_composio_source_by_connection_id connection f = remove_where (is_connection connection) f

  unfoldable pub upsert_composio_source :
      Text
      → Text
      → Text
      → Text
      → ConfigFile Other Value
      → Result SourceError (ConfigFile Other Value)
  unfolding list_sources upsert_composio_entry write_all
  upsert_composio_source id toolkit connection label f = do
    sources ← list_sources f
    write_all (upsert_composio_entry id toolkit connection label sources) f

  unfoldable pub upsert_composio_sources_batch :
      List Target → ConfigFile Other Value → Result SourceError (ℕ × ConfigFile Other Value)
  unfolding list_sources upsert_targets write_all
  upsert_composio_sources_batch ts f = if is_nil ts then ok (0, f) else (do
    sources ← list_sources f
    f' ← write_all (upsert_targets ts sources) f
    ok (min (length ts) (u32_mod - 1), f'))

  unfoldable pub apply_all_in :
      ConfigFile Other Value → Result SourceError (List MemorySourceEntry × ConfigFile Other Value)
  unfolding list_sources all_in write_all
  apply_all_in f = do
    sources ← list_sources f
    f' ← write_all (all_in sources) f
    ok (all_in sources, f')
