-- ===== src/Metrics/Report.antt =====
-- orchestrator/metrics.py: `latency_summary` and `FleetMetrics.snapshot`. Latencies are reported in
-- milliseconds, the other durations and the rates in tenths, but for those that say otherwise.
use fleet_lm.Base.{
  ℕ, ◌+◌, ◌-◌, ◌*◌, ◌/◌, max, Option, none, some, List, [], ◌∷◌, ◌++◌, map, ◌==◌, if◌then◌else◌,
  length, drop, nth, values, round_div, sort_by,
}
use mathlib.Core.Option
use fleet_lm.Metrics.{FleetMetrics, NodeSnapshot, node_snapshot}
use fleet_lm.Metrics.Percentile.{percentile}

-- `_r`
milliseconds : Option ℕ → Option ℕ
milliseconds v = Option.map (λ time. round_div time 1000) v

-- `max(values) if values else None`
unfoldable pub highest : List ℕ → Option ℕ
highest [] = none
highest (v ∷ vs) = let rest = highest vs in elim rest [ none ↦ some v | some w ↦ some (max v w) ]

pub record Distribution : Type 0 where
  pub count : ℕ
  pub p50 : Option ℕ
  pub p90 : Option ℕ
  pub p99 : Option ℕ
  pub highest : Option ℕ

unfoldable pub dist : List ℕ → Distribution
unfolding milliseconds
dist samples = record {
  count = length samples;
  p50 = milliseconds (percentile samples 50);
  p90 = milliseconds (percentile samples 90);
  p99 = milliseconds (percentile samples 99);
  highest = milliseconds (highest samples);
}

pub record Latency : Type 0 where
  pub queue : Distribution
  pub service : Distribution

unfoldable pub latency_summary : FleetMetrics → Latency
latency_summary m = record { queue = dist m.queue_times; service = dist m.service_times }

-- `sum(n[...] for n in everyone)`
unfoldable pub sum_by {ℓ} : {A : Type ℓ} → (A → ℕ) → List A → ℕ
sum_by amount [] = 0
sum_by amount (x ∷ xs) = amount x + sum_by amount xs

unfoldable pub tenths : ℕ → ℕ
tenths time = round_div time 100_000

-- `join_to_ready_sec`, for the nodes that have been ready.
unfoldable pub ready_times : List NodeSnapshot → List ℕ
ready_times [] = []
ready_times (n ∷ ns) =
    let rest = ready_times ns in
    elim n.join_to_ready_sec [ none ↦ rest | some time ↦ tenths time ∷ rest ]

-- `sorted(l)[len(l) // 2]`, of a list that is not empty.
unfoldable pub middle : List ℕ → Option ℕ
middle times = nth (length times / 2) (sort_by (λ t. t) times)

-- `everyone`: the nodes that are there, and those that have left.
unfoldable pub everyone : ℕ → FleetMetrics → List NodeSnapshot
everyone now m = map (node_snapshot now) (values m.nodes) ++ m.departed

-- The rate of success is in ten-thousandths, the rate by the wall clock in hundredths.
pub record FleetSnapshot : Type 0 where
  pub fleet_uptime_sec : ℕ
  pub nodes_live : ℕ
  pub nodes_departed : ℕ
  pub batches_created : ℕ
  pub batches_completed : ℕ
  pub leases_reclaimed : ℕ
  pub unit_retries : ℕ
  pub unit_latency_sec : Latency
  pub units_completed : ℕ
  pub units_failed : ℕ
  pub unit_success_rate : Option ℕ
  pub prompt_tokens : ℕ
  pub completion_tokens : ℕ
  pub total_tokens : ℕ
  pub tokens_per_sec_generating : ℕ
  pub tokens_per_sec_wallclock : ℕ
  pub median_join_to_ready_sec : Option ℕ
  pub nodes : List NodeSnapshot
  pub departed : List NodeSnapshot

unfoldable pub fleet_snapshot : ℕ → FleetMetrics → FleetSnapshot
fleet_snapshot now m =
    let all = everyone now m in
    let completion = sum_by (λ n. n.completion_tokens) all in
    let prompt = sum_by (λ n. n.prompt_tokens) all in
    let units = sum_by (λ n. n.units_completed) all in
    let failures = sum_by (λ n. n.units_failed) all in
    let generation = sum_by (λ n. tenths n.generation_sec) all in
    let elapsed = max 1 (now - m.started_at) in
    record {
      fleet_uptime_sec = tenths elapsed;
      nodes_live = length (values m.nodes);
      nodes_departed = length m.departed;
      batches_created = m.batches_created;
      batches_completed = m.batches_completed;
      leases_reclaimed = m.leases_reclaimed;
      unit_retries = m.unit_retries;
      unit_latency_sec = latency_summary m;
      units_completed = units;
      units_failed = failures;
      unit_success_rate =
          if units + failures == 0
          then none
          else some (round_div (units * 10_000) (units + failures));
      prompt_tokens = prompt;
      completion_tokens = completion;
      total_tokens = prompt + completion;
      tokens_per_sec_generating =
          if generation == 0 then 0 else round_div (completion * 100) generation;
      tokens_per_sec_wallclock = round_div (completion * 100_000_000) elapsed;
      median_join_to_ready_sec = middle (ready_times all);
      nodes = map (node_snapshot now) (values m.nodes);
      departed = drop (length m.departed - 20) m.departed;
    }
