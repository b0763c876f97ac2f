-- ===== src/Sources/Entry.antt =====
-- memory/sources/types.rs and validation.rs: a configured source and when it is valid. A cost is the
-- 64 bits of its f64, which are only copied.
use tinycortex.Base.{
  ◌&&◌, ◌||◌, ◌==◌, if◌then◌else◌, ◌>>=◌, Bool, true, false, Text, Option, List, ℕ, ltb, leb,
  Result, none, err, some, is_nil, ok, trim, any,
}

pub data SourceKind : Type 0 where
  composio conversation folder github_repo twitter_query rss_feed web_page : SourceKind

unfoldable pub same_kind : SourceKind → SourceKind → Bool
same_kind composio composio = true
same_kind conversation conversation = true
same_kind folder folder = true
same_kind github_repo github_repo = true
same_kind twitter_query twitter_query = true
same_kind rss_feed rss_feed = true
same_kind web_page web_page = true
same_kind _ _ = false

pub record MemorySourceEntry : Type 0 where
  pub id : Text
  pub kind : SourceKind
  pub label : Text
  pub enabled : Bool
  pub toolkit : Option Text
  pub connection_id : Option Text
  pub path : Option Text
  pub glob : Option Text
  pub url : Option Text
  pub branch : Option Text
  pub paths : List Text
  pub max_commits : Option ℕ
  pub max_issues : Option ℕ
  pub max_prs : Option ℕ
  pub query : Option Text
  pub since_days : Option ℕ
  pub max_items : Option ℕ
  pub selector : Option Text
  pub max_tokens_per_sync : Option ℕ
  pub max_cost_per_sync_usd : Option ℕ
  pub sync_depth_days : Option ℕ

pub data SourceError : Type 0 where
  invalid already_exists not_found not_applicable : SourceError
  read_failed encode_failed write_failed : SourceError

-- `char::is_control`: the general category Cc.
abbrev pub is_control : ℕ → Bool
is_control c = ltb c 32 || (leb 127 c && leb c 159)

unfoldable pub require_field : Option Text → Result SourceError (Unit {0})
require_field none = err invalid
require_field (some v) = if is_nil v then err invalid else ok tt

unfoldable pub validate_kind : MemorySourceEntry → SourceKind → Result SourceError (Unit {0})
unfolding require_field
validate_kind e composio = do _ ← require_field e.toolkit; require_field e.connection_id
validate_kind e conversation = ok tt
validate_kind e folder = require_field e.path
validate_kind e github_repo = require_field e.url
validate_kind e twitter_query = require_field e.query
validate_kind e rss_feed = require_field e.url
validate_kind e web_page = require_field e.url

unfoldable pub validate_entry : MemorySourceEntry → Result SourceError (Unit {0})
unfolding validate_kind trim
validate_entry e =
    if is_nil (trim e.id)
    then err invalid
    else if any (λ c. c == 58) e.id || any is_control e.id
    then err invalid
    else if is_nil e.label
    then err invalid
    else validate_kind e e.kind
