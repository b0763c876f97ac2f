-- ===== src/Sources/Edits.antt =====
-- memory/sources/registry.rs: the changes of a list of sources.
use tinycortex.Base.{
  ◌&&◌, ◌∷◌, if◌then◌else◌, [], ◌>>=◌, Text, Option, ℕ, same_text, some, Bool, none, false, true,
  List, Result, err, ok,
}
use tinycortex.Sources.Entry.{
  MemorySourceEntry, SourceError, same_kind, validate_entry, not_found, composio,
}
use tinycortex.Sources.Patch.{MemorySourcePatch, validate_for_kind, apply_to}

-- The slugs that have caps of their own: gmail, slack, notion, linear, clickup and github.
abbrev gmail : Text
gmail = 103 ∷ 109 ∷ 97 ∷ 105 ∷ 108 ∷ []

abbrev slack : Text
slack = 115 ∷ 108 ∷ 97 ∷ 99 ∷ 107 ∷ []

abbrev notion : Text
notion = 110 ∷ 111 ∷ 116 ∷ 105 ∷ 111 ∷ 110 ∷ []

abbrev linear : Text
linear = 108 ∷ 105 ∷ 110 ∷ 101 ∷ 97 ∷ 114 ∷ []

abbrev clickup : Text
clickup = 99 ∷ 108 ∷ 105 ∷ 99 ∷ 107 ∷ 117 ∷ 112 ∷ []

abbrev github : Text
github = 103 ∷ 105 ∷ 116 ∷ 104 ∷ 117 ∷ 98 ∷ []

unfoldable pub memory_sync_defaults_for_toolkit : Text → Option ℕ × Option ℕ
memory_sync_defaults_for_toolkit t =
    if same_text t gmail
    then (some 100, some 30)
    else if same_text t slack
    then (some 50, some 14)
    else if same_text t notion
    then (some 30, some 30)
    else if same_text t linear
    then (some 50, some 30)
    else if same_text t clickup
    then (some 50, some 30)
    else if same_text t github
    then (some 50, some 30)
    else (some 30, some 14)

abbrev same_option : Text → Option Text → Bool
same_option t none = false
same_option t (some u) = same_text u t

unfoldable pub is_connection : Text → MemorySourceEntry → Bool
unfolding same_kind
is_connection connection s = same_kind s.kind composio && same_option connection s.connection_id

abbrev pub new_composio : Text → Text → Text → Text → MemorySourceEntry
new_composio id toolkit connection label = record {
  id = id;
  kind = composio;
  label = label;
  enabled = true;
  toolkit = some toolkit;
  connection_id = some connection;
  path = none;
  glob = none;
  url = none;
  branch = none;
  paths = [];
  max_commits = none;
  max_issues = none;
  max_prs = none;
  query = none;
  since_days = none;
  max_items = (memory_sync_defaults_for_toolkit toolkit).0;
  selector = none;
  max_tokens_per_sync = none;
  max_cost_per_sync_usd = none;
  sync_depth_days = (memory_sync_defaults_for_toolkit toolkit).1;
}

-- The first source of the connection gets the label, or a new source is pushed under the given id.
unfoldable pub upsert_composio_entry :
    Text → Text → Text → Text → List MemorySourceEntry → List MemorySourceEntry
unfolding is_connection
upsert_composio_entry id toolkit connection label [] = new_composio id toolkit connection label ∷ []
upsert_composio_entry id toolkit connection label (s ∷ ss) =
    let rest = upsert_composio_entry id toolkit connection label ss in
    if is_connection connection s then record s { label = label } ∷ ss else s ∷ rest

-- One target of a batch: the id that it takes if it is new, and `ComposioUpsertTarget`.
abbrev pub Target : Type 0
Target = Text × (Text × (Text × Text))

unfoldable pub upsert_targets : List Target → List MemorySourceEntry → List MemorySourceEntry
unfolding upsert_composio_entry
upsert_targets [] ss = ss
upsert_targets ((id, (toolkit, (connection, label))) ∷ ts) ss =
    upsert_targets ts (upsert_composio_entry id toolkit connection label ss)

-- The patch of the first source with the id, checked before and after.
unfoldable pub patch_first :
    Text → MemorySourcePatch → List MemorySourceEntry → Result SourceError (List MemorySourceEntry)
unfolding validate_for_kind apply_to validate_entry
patch_first id p [] = err not_found
patch_first id p (s ∷ ss) =
    let rest = patch_first id p ss in
    if same_text s.id id
    then (do
      _ ← validate_for_kind p s.kind
      _ ← validate_entry (apply_to p s)
      ok (apply_to p s ∷ ss))
    else (do ss' ← rest; ok (s ∷ ss'))

unfoldable pub all_in : List MemorySourceEntry → List MemorySourceEntry
all_in [] = []
all_in (s ∷ ss) =
    record s {
      enabled = true;
      max_items = none;
      since_days = none;
      sync_depth_days = none;
      max_commits = none;
      max_issues = none;
      max_prs = none;
      max_tokens_per_sync = none;
      max_cost_per_sync_usd = none;
    }
    ∷ all_in ss
