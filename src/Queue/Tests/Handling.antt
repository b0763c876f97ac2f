-- ===== src/Queue/Tests/Handling.antt =====
-- The theorems on memory/queue/handlers.rs and worker.rs, run with small hosts.
use tinycortex.Queue.Worker.Permits.{run_once-permits}
use tinycortex.Queue.Config.{default_config}
use tinycortex.Queue.Poison.{plan_job-Malformed}
use tinycortex.Queue.Recovery.{is_transient_failed}
use tinycortex.Queue.Table.{Row}
use tinycortex.Queue.Settle.{fails_fast, failed_row}
use tinycortex.Queue.Tests.{leased, job_row, parked}
use tinycortex.Tree.Buffer.{TreeConfig}
use tinycortex.Queue.Types.{ready}
use tinycortex.Queue.Payloads.{SealPayload}
use tinycortex.Queue.Handlers.{Json, Serde, QueueDelegates, covered, AnyError, plan_job}
use tinycortex.Base.{◌≡◌, ◌∷◌, [], ok, err, none, some, false, true, ℕ, refl}
use tinycortex.Queue.Worker.{World, Env, run_once_with_gate, typed_failure}

-- A parser that answers one payload, and one that refuses every text.
abbrev reads : {P : Type 0} → P → Json P
reads p = record { to_string = λ q. ok "{}"; from_str = λ s. ok p }

abbrev refuses : {P : Type 0} → Json P
refuses = record { to_string = λ q. ok "{}"; from_str = λ s. err "EOF" }

abbrev seal_payload : SealPayload
seal_payload = record { tree_id = "t"; level = 0; force_now_ms = none }

abbrev serde : Serde
serde = record {
  extract = refuses;
  append = refuses;
  seal = reads seal_payload;
  flush = refuses;
  reembed = refuses;
  document = refuses;
}

abbrev host : QueueDelegates
host = record {
  extract_chunk = λ c. ok none;
  append_node = λ n t. ok none;
  seal_level = λ p. ok (some p);
  list_stale_buffers = λ n. ok [];
  seal_document = λ p. ok tt;
  reembed_batch = λ s. ok covered;
  active_signature = "v1";
  has_uncovered_reembed_work = λ s. ok false;
}

plan_job-Malformed_example :
    (e : AnyError) × (plan_job serde host true 50 leased ≡ (err e, true))
    × (fails_fast (typed_failure e) ≡ true)
    × ((settled_at : ℕ) (r : Row)
        → is_transient_failed (failed_row settled_at e.message (typed_failure e) r) ≡ false)
plan_job-Malformed_example = plan_job-Malformed serde host true 50 leased "EOF" refl

abbrev tree_config : TreeConfig
tree_config = record { input_token_budget = 100; summary_fanout = 4 }

abbrev surroundings : Env
surroundings = record {
  claim_now = 30;
  plan_now = 31;
  defer_now = 32;
  settle_now = 33;
  follow_up_id = λ n. "g";
  reseal_id = "h";
  buffers = [];
}

-- A job that takes a permit is ready.
abbrev world : World
world = record {
  table = job_row "s" "seal" (some "seal:t:0") ready 1 ∷ parked;
  backfill = false;
  permits = 1;
}

run_once-permits_example :
    (run_once_with_gate default_config tree_config serde host surroundings world).1.permits
    ≡ world.permits
run_once-permits_example = run_once-permits default_config tree_config serde host surroundings world
