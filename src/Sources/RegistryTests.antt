-- ===== src/Sources/RegistryTests.antt =====
-- The theorems on the registry, run where a value of the file is the list of sources itself.
use tinycortex.Base.{
  ◌≡◌, ◌⊎◌, ◌∷◌, ◌++◌, [], List, some, sym, ℕ, true, none, ok, trim, trim_start, is_whitespace,
  refl, err, Text, same_text, false, All,
}
use tinycortex.Sources.Entry.{
  MemorySourceEntry, validate_entry, validate_kind, require_field, already_exists, same_kind,
}
use tinycortex.Sources.Patch.{MemorySourcePatch, validate_for_kind, apply_to}
use tinycortex.Sources.Edits.{new_composio, is_connection, upsert_composio_entry, patch_first}
use tinycortex.Sources.Registry.{
  Toml, ConfigFile, list_sources, get_source, add, absent, table, read_table, decode_sources,
  write_all,
}
use tinycortex.Sources.Changed.{upsert_composio_entry_lem, patch_first_lem}
use tinycortex.Sources.Written.{RoundTrips}
use tinycortex.Sources.Steps.{Reach, Sound, Reach-Sound, goes, stays, adds}
use tinycortex.Sources.Added.{add-get_source}

abbrev lists : Toml (List MemorySourceEntry)
lists = record { encode = λ ss. some ss; decode = λ v. some v }

lists-RoundTrips : RoundTrips lists
lists-RoundTrips ss v e = sym e

-- Two mail sources: "a" of connection "1" and "b" of connection "2".
abbrev first_mail : MemorySourceEntry
first_mail = record (new_composio (97 ∷ []) (109 ∷ []) (49 ∷ []) (120 ∷ [])) { max_items = some 7 }

abbrev second_mail : MemorySourceEntry
second_mail = new_composio (98 ∷ []) (109 ∷ []) (50 ∷ []) (121 ∷ [])

abbrev Config : Type 0
Config = ConfigFile ℕ (List MemorySourceEntry)

abbrev empty_config : Config
empty_config = record { content = absent; writable = true }

abbrev one_source : Config
one_source = record { content = table none (some (first_mail ∷ [])); writable = true }

adds_first : add lists first_mail empty_config ≡ ok one_source
unfolding add validate_entry validate_kind require_field trim trim_start is_whitespace list_sources
    read_table decode_sources write_all
adds_first = refl

reached : Reach lists empty_config one_source
reached =
    goes empty_config empty_config one_source (stays empty_config)
      (adds empty_config one_source first_mail adds_first)

empty-Sound : Sound lists none empty_config
unfolding list_sources read_table decode_sources
empty-Sound = ([], (refl, refl), tt)

Reach-Sound_example : Sound lists none one_source
Reach-Sound_example =
    Reach-Sound lists lists-RoundTrips none empty_config one_source reached empty-Sound

lists_one : list_sources lists one_source ≡ ok (first_mail ∷ [])
unfolding list_sources read_table decode_sources
lists_one = refl

second_valid : validate_entry second_mail ≡ ok tt
unfolding validate_entry validate_kind require_field trim trim_start is_whitespace
second_valid = refl

add-get_source_example :
    ((add lists second_mail one_source ≡ err already_exists)
      × ((s : MemorySourceEntry) × (get_source lists second_mail.id one_source ≡ ok (some s))))
    ⊎ ((f' : Config) × (add lists second_mail one_source ≡ ok f')
        × (get_source lists second_mail.id f' ≡ ok (some second_mail))
        × ((id : Text)
            → same_text second_mail.id id ≡ false
            → get_source lists id f' ≡ get_source lists id one_source))
add-get_source_example =
    add-get_source lists lists-RoundTrips second_mail one_source (first_mail ∷ [])
      (first_mail ∷ second_mail ∷ []) lists_one second_valid refl refl

upsert_composio_entry_lem_example :
    ((before : List MemorySourceEntry) × (s : MemorySourceEntry) × (after : List MemorySourceEntry)
      × ((first_mail ∷ []) ≡ before ++ (s ∷ after))
      × (is_connection (49 ∷ []) s ≡ true)
      × All (λ b. is_connection (49 ∷ []) b ≡ false) before
      × (upsert_composio_entry (99 ∷ []) (109 ∷ []) (49 ∷ []) (122 ∷ []) (first_mail ∷ [])
          ≡ before ++ (record s { label = 122 ∷ [] } ∷ after)))
    ⊎ (All (λ b. is_connection (49 ∷ []) b ≡ false) (first_mail ∷ [])
        × (upsert_composio_entry (99 ∷ []) (109 ∷ []) (49 ∷ []) (122 ∷ []) (first_mail ∷ [])
            ≡ (first_mail ∷ []) ++ (new_composio (99 ∷ []) (109 ∷ []) (49 ∷ []) (122 ∷ []) ∷ [])))
upsert_composio_entry_lem_example =
    upsert_composio_entry_lem (99 ∷ []) (109 ∷ []) (49 ∷ []) (122 ∷ []) (first_mail ∷ [])

abbrev rename : MemorySourcePatch
rename = record {
  label = some (122 ∷ []);
  enabled = some false;
  toolkit = none;
  connection_id = none;
  path = none;
  glob = none;
  url = none;
  branch = none;
  paths = none;
  query = none;
  since_days = none;
  max_items = some none;
  selector = none;
  max_tokens_per_sync = none;
  max_cost_per_sync_usd = none;
  sync_depth_days = none;
  max_commits = none;
  max_issues = none;
  max_prs = none;
}

renames : patch_first (97 ∷ []) rename (first_mail ∷ []) ≡ ok (apply_to rename first_mail ∷ [])
unfolding patch_first validate_for_kind same_kind apply_to validate_entry validate_kind
    require_field trim trim_start is_whitespace same_text
renames = refl

patch_first_lem_example :
    (before : List MemorySourceEntry) × (s : MemorySourceEntry) × (after : List MemorySourceEntry)
    × ((first_mail ∷ []) ≡ before ++ (s ∷ after))
    × (s.id ≡ 97 ∷ [])
    × All (λ b. same_text b.id (97 ∷ []) ≡ false) before
    × ((apply_to rename first_mail ∷ []) ≡ before ++ (apply_to rename s ∷ after))
    × (validate_for_kind rename s.kind ≡ ok tt)
    × (validate_entry (apply_to rename s) ≡ ok tt)
    × ((apply_to rename s).id ≡ s.id)
    × ((apply_to rename s).kind ≡ s.kind)
patch_first_lem_example =
    patch_first_lem (97 ∷ []) rename (first_mail ∷ []) (apply_to rename first_mail ∷ []) renames
