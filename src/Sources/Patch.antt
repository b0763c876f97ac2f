-- ===== src/Sources/Patch.antt =====
-- memory/sources/types.rs, a partial update of a source.
use tinycortex.Base.{
  ◌&&◌, ◌||◌, if◌then◌else◌, Option, Text, Bool, List, ℕ, none, false, some, true, Result, not, err,
  ok,
}
use tinycortex.Sources.Entry.{
  SourceKind, MemorySourceEntry, SourceError, same_kind, composio, not_applicable, folder,
  github_repo, twitter_query, web_page, rss_feed,
}

pub record MemorySourcePatch : Type 0 where
  pub label : Option Text
  pub enabled : Option Bool
  pub toolkit : Option (Option Text)
  pub connection_id : Option (Option Text)
  pub path : Option (Option Text)
  pub glob : Option (Option Text)
  pub url : Option (Option Text)
  pub branch : Option (Option Text)
  pub paths : Option (List Text)
  pub query : Option (Option Text)
  pub since_days : Option (Option ℕ)
  pub max_items : Option (Option ℕ)
  pub selector : Option (Option Text)
  pub max_tokens_per_sync : Option (Option ℕ)
  pub max_cost_per_sync_usd : Option (Option ℕ)
  pub sync_depth_days : Option (Option ℕ)
  pub max_commits : Option (Option ℕ)
  pub max_issues : Option (Option ℕ)
  pub max_prs : Option (Option ℕ)

abbrev is_given {ℓ} : {A : Type ℓ} → Option A → Bool
is_given none = false
is_given (some a) = true

-- `Some(Some(_))`: a value, and not a field that is cleared.
abbrev is_value {ℓ} : {A : Type ℓ} → Option (Option A) → Bool
is_value (some (some a)) = true
is_value _ = false

unfoldable pub validate_for_kind : MemorySourcePatch → SourceKind → Result SourceError (Unit {0})
unfolding same_kind
validate_for_kind p k =
    if (is_given p.toolkit || is_given p.connection_id) && not (same_kind k composio)
    then err not_applicable
    else if (is_given p.path || is_given p.glob) && not (same_kind k folder)
    then err not_applicable
    else if (is_given p.branch
          || (is_given p.paths
              || (is_given p.max_commits || (is_given p.max_issues || is_given p.max_prs))))
        && not (same_kind k github_repo)
    then err not_applicable
    else if is_given p.query && not (same_kind k twitter_query)
    then err not_applicable
    else if is_value p.since_days && not (same_kind k twitter_query)
    then err not_applicable
    else if is_given p.selector && not (same_kind k web_page)
    then err not_applicable
    else if is_value p.max_items && not (same_kind k rss_feed || same_kind k composio)
    then err not_applicable
    else if is_given p.url
        && (not (same_kind k github_repo)
            && (not (same_kind k rss_feed) && not (same_kind k web_page)))
    then err not_applicable
    else ok tt

-- A field that is given replaces the one that is there.
abbrev given_or {ℓ} : {A : Type ℓ} → A → Option A → A
given_or a none = a
given_or a (some b) = b

unfoldable pub apply_to : MemorySourcePatch → MemorySourceEntry → MemorySourceEntry
apply_to p e = record e {
  label = given_or e.label p.label;
  enabled = given_or e.enabled p.enabled;
  toolkit = given_or e.toolkit p.toolkit;
  connection_id = given_or e.connection_id p.connection_id;
  path = given_or e.path p.path;
  glob = given_or e.glob p.glob;
  url = given_or e.url p.url;
  branch = given_or e.branch p.branch;
  paths = given_or e.paths p.paths;
  query = given_or e.query p.query;
  since_days = given_or e.since_days p.since_days;
  max_items = given_or e.max_items p.max_items;
  selector = given_or e.selector p.selector;
  max_tokens_per_sync = given_or e.max_tokens_per_sync p.max_tokens_per_sync;
  max_cost_per_sync_usd = given_or e.max_cost_per_sync_usd p.max_cost_per_sync_usd;
  sync_depth_days = given_or e.sync_depth_days p.sync_depth_days;
  max_commits = given_or e.max_commits p.max_commits;
  max_issues = given_or e.max_issues p.max_issues;
  max_prs = given_or e.max_prs p.max_prs;
}
