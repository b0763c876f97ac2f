-- ===== src/Queue/Config.antt =====
-- `QueueConfig` of memory/config/policy.rs. The durations are `i64` in the source; `validate`
-- refuses the negative ones, so they are natural numbers here.
use tinycortex.Base.{ℕ, Bool, ◌&&◌, ltb, leb}

pub record QueueConfig : Type 0 where
  pub lock_duration_ms : ℕ
  pub retry_base_ms : ℕ
  pub retry_cap_ms : ℕ
  pub max_attempts : ℕ
  pub llm_permits : ℕ
  pub max_defer_age_ms : ℕ

abbrev pub default_config : QueueConfig
default_config = record {
  lock_duration_ms = 300000;
  retry_base_ms = 60000;
  retry_cap_ms = 3600000;
  max_attempts = 5;
  llm_permits = 1;
  max_defer_age_ms = 604800000;
}

unfoldable pub validate : QueueConfig → Bool
validate c =
    (ltb 0 c.lock_duration_ms && (ltb 0 c.retry_base_ms && leb c.retry_base_ms c.retry_cap_ms))
    && (ltb 0 c.max_attempts && (ltb 0 c.llm_permits && ltb 0 c.max_defer_age_ms))
