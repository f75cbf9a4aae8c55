-- ===== src/Metrics.antt =====
-- orchestrator/metrics.py: the counters of a node and of the fleet, and the events that move them.
pub mod Percentile
pub mod NearestRank
pub mod Report
pub mod Cumulative
mod Tests
use mathlib.Core.Option
use fleet_lm.Base.{
  ℕ, ◌+◌, ◌-◌, ◌*◌, max, round_div, ◌==◌, String, Option, none, some, List, [], ◌∷◌, ◌++◌, ltb,
  if◌then◌else◌, length, drop, Dict, lookup, insert, erase, modify,
}

-- LATENCY_SAMPLES
abbrev pub latency_samples : ℕ
latency_samples = 10_000

pub record NodeMetrics : Type 0 where
  pub node_id : ℕ
  pub gpu_name : String
  pub joined_at : ℕ
  pub first_ready_at : Option ℕ
  pub units_completed : ℕ
  pub units_failed : ℕ
  pub prompt_tokens : ℕ
  pub completion_tokens : ℕ
  pub generation_seconds : ℕ
  pub sessions_completed : ℕ
  pub sessions_failed : ℕ

-- `join_to_ready_sec`
pub join_to_ready : NodeMetrics → Option ℕ
join_to_ready node = Option.map (λ ready. ready - node.joined_at) node.first_ready_at

-- `tokens_per_second` and `units_per_hour`, in tenths.
tokens_per_second : NodeMetrics → ℕ
tokens_per_second node =
    if node.generation_seconds == 0
    then 0
    else round_div (node.completion_tokens * 10_000_000) node.generation_seconds

units_per_hour : ℕ → NodeMetrics → ℕ
units_per_hour now node =
    let age = now - node.joined_at in
    if age == 0 then 0 else round_div (node.units_completed * 36_000_000_000) age

-- `NodeMetrics.snapshot`, with its durations before rounding.
pub record NodeSnapshot : Type 0 where
  pub node_id : ℕ
  pub gpu : String
  pub uptime : ℕ
  pub join_to_ready_sec : Option ℕ
  pub units_completed : ℕ
  pub units_failed : ℕ
  pub sessions_completed : ℕ
  pub sessions_failed : ℕ
  pub prompt_tokens : ℕ
  pub completion_tokens : ℕ
  pub generation_sec : ℕ
  pub tokens_per_sec : ℕ
  pub units_per_hour : ℕ

unfoldable pub node_snapshot : ℕ → NodeMetrics → NodeSnapshot
unfolding join_to_ready tokens_per_second units_per_hour
node_snapshot now node = record {
  node_id = node.node_id;
  gpu = node.gpu_name;
  uptime = now - node.joined_at;
  join_to_ready_sec = join_to_ready node;
  units_completed = node.units_completed;
  units_failed = node.units_failed;
  sessions_completed = node.sessions_completed;
  sessions_failed = node.sessions_failed;
  prompt_tokens = node.prompt_tokens;
  completion_tokens = node.completion_tokens;
  generation_sec = node.generation_seconds;
  tokens_per_sec = tokens_per_second node;
  units_per_hour = units_per_hour now node;
}

pub record FleetMetrics : Type 0 where
  pub started_at : ℕ
  pub nodes : Dict NodeMetrics
  pub departed : List NodeSnapshot
  pub batches_created : ℕ
  pub batches_completed : ℕ
  pub leases_reclaimed : ℕ
  pub unit_retries : ℕ
  pub queue_times : List ℕ
  pub service_times : List ℕ

unfoldable pub fresh_metrics : ℕ → FleetMetrics
fresh_metrics now = record {
  started_at = now;
  nodes = [];
  departed = [];
  batches_created = 0;
  batches_completed = 0;
  leases_reclaimed = 0;
  unit_retries = 0;
  queue_times = [];
  service_times = [];
}

-- `append` on a `deque(maxlen=LATENCY_SAMPLES)`: past the limit the oldest sample falls off.
unfoldable pub push_sample : ℕ → List ℕ → List ℕ
push_sample v samples =
    let all = samples ++ v ∷ [] in if ltb latency_samples (length all) then drop 1 all else all

unfoldable pub node_joined : ℕ → ℕ → String → FleetMetrics → FleetMetrics
node_joined now node_id gpu_name m = record m { nodes = insert node_id joined m.nodes }
  where
    joined : NodeMetrics
    joined = record {
      node_id = node_id;
      gpu_name = gpu_name;
      joined_at = now;
      first_ready_at = none;
      units_completed = 0;
      units_failed = 0;
      prompt_tokens = 0;
      completion_tokens = 0;
      generation_seconds = 0;
      sessions_completed = 0;
      sessions_failed = 0;
    }

-- The time of becoming ready is set once.
unfoldable pub mark_from : Option ℕ → ℕ → NodeMetrics → NodeMetrics
mark_from none now node = record node { first_ready_at = some now }
mark_from (some time) now node = node

unfoldable pub mark_ready : ℕ → NodeMetrics → NodeMetrics
unfolding mark_from
mark_ready now node = mark_from node.first_ready_at now node

unfoldable pub node_ready : ℕ → ℕ → FleetMetrics → FleetMetrics
unfolding mark_ready
node_ready now node_id m = record m { nodes = modify node_id (mark_ready now) m.nodes }

unfoldable pub node_left : ℕ → ℕ → FleetMetrics → FleetMetrics
node_left now node_id m = elim (lookup node_id m.nodes) [
  | none ↦ m
  | some node ↦ record m {
    nodes = erase node_id m.nodes;
    departed = m.departed ++ node_snapshot now node ∷ [];
  }
]

unfoldable pub count_unit : ℕ → ℕ → ℕ → NodeMetrics → NodeMetrics
count_unit prompt completion seconds node = record node {
  units_completed = node.units_completed + 1;
  prompt_tokens = node.prompt_tokens + prompt;
  completion_tokens = node.completion_tokens + completion;
  generation_seconds = node.generation_seconds + max 0 seconds;
}

unfoldable pub unit_completed : ℕ → ℕ → ℕ → ℕ → ℕ → ℕ → ℕ → FleetMetrics → FleetMetrics
unfolding count_unit
unit_completed node_id prompt completion seconds queue_sec service_sec retries m = record m {
  queue_times = push_sample (max 0 queue_sec) m.queue_times;
  service_times = push_sample (max 0 service_sec) m.service_times;
  unit_retries = m.unit_retries + max 0 retries;
  nodes = modify node_id (count_unit prompt completion seconds) m.nodes;
}

unfoldable pub unit_failed : ℕ → FleetMetrics → FleetMetrics
unit_failed node_id m = record m {
  nodes = modify node_id (λ n. record n { units_failed = n.units_failed + 1 }) m.nodes;
}

unfoldable pub count_session : ℕ → ℕ → NodeMetrics → NodeMetrics
count_session prompt completion node = record node {
  sessions_completed = node.sessions_completed + 1;
  prompt_tokens = node.prompt_tokens + prompt;
  completion_tokens = node.completion_tokens + completion;
}

unfoldable pub session_completed : ℕ → ℕ → ℕ → FleetMetrics → FleetMetrics
unfolding count_session
session_completed node_id prompt completion m = record m {
  nodes = modify node_id (count_session prompt completion) m.nodes;
}

unfoldable pub session_failed : ℕ → FleetMetrics → FleetMetrics
session_failed node_id m = record m {
  nodes = modify node_id (λ n. record n { sessions_failed = n.sessions_failed + 1 }) m.nodes;
}

unfoldable pub leases_returned : ℕ → FleetMetrics → FleetMetrics
leases_returned count m = record m { leases_reclaimed = m.leases_reclaimed + count }

unfoldable pub batch_created : FleetMetrics → FleetMetrics
batch_created m = record m { batches_created = m.batches_created + 1 }

unfoldable pub batch_completed : FleetMetrics → FleetMetrics
batch_completed m = record m { batches_completed = m.batches_completed + 1 }
