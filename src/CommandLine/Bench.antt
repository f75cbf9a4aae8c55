-- ===== src/CommandLine/Bench.antt =====
-- node_agent/cli.py: `cmd_bench` and `bench_record`. Times are microseconds; what is printed of a
-- record is left out.
use fleet_lm.Base.{
  ℕ, ◌-◌, ◌*◌, ◌/◌, String, Option, none, some, List, [], ◌∷◌, ◌++◌, map, ltb, ◌==◌, if◌then◌else◌,
  length, nth, sort_by, round_div,
}
use fleet_lm.Batch.Data.{is_in_progress}
use fleet_lm.Engine.{Attempt, raises, gives}
use fleet_lm.CommandLine.Submit.{
  Poll, answered, dropped, garbled, interrupted, Submitted, created, rejected,
}

-- One replicate: the answer to its submission, its polls, and the time it takes.
pub record Replicate : Type 0 where
  pub submitted : Attempt Submitted
  pub polls : List Poll
  pub took : ℕ

-- How a replicate ends: any failure ends the command, and one that is no HTTP error leaves it as an
-- exception.
pub data Ran : Type 0 where
  timed : (time : ℕ) → Ran
  submit_failed : (code : ℕ) → Ran
  unreachable : Ran
  stopped : Ran
  crashed : Ran
  waiting : Ran

-- The loop for a batch in progress.
unfoldable pub wait_polls : ℕ → List Poll → Ran
wait_polls time [] = waiting
wait_polls time (answered status ∷ polls) =
    let rest = wait_polls time polls in if is_in_progress status.status then rest else timed time
wait_polls time (dropped ∷ polls) = unreachable
wait_polls time (garbled ∷ polls) = crashed
wait_polls time (interrupted ∷ polls) = stopped

unfoldable pub run_submitted : Attempt Submitted → List Poll → ℕ → Ran
run_submitted (raises message) polls time = unreachable
run_submitted (gives (rejected code)) polls time = submit_failed code
run_submitted (gives (created status)) polls time =
    if is_in_progress status.status then wait_polls time polls else timed time

-- The times of all replicates, or how the first that fails ends.
pub data AllRan : Type 0 where
  all_timed : (runs : List ℕ) → AllRan
  ended : Ran → AllRan

add_run : Ran → AllRan → AllRan
add_run (timed time) (all_timed runs) = all_timed (time ∷ runs)
add_run (timed time) (ended r) = ended r
add_run r rest = ended r

unfoldable pub run_replicates : List Replicate → AllRan
unfolding add_run
run_replicates [] = all_timed []
run_replicates (r ∷ rs) = add_run (run_submitted r.submitted r.polls r.took) (run_replicates rs)

-- What the benchmark reads of `/metrics`.
pub record NodeReport : Type 0 where
  pub gpu : Option String
  pub units_completed : Option ℕ
  pub units_per_hour : Option ℕ
  pub tokens_per_sec : Option ℕ
  pub join_to_ready_sec : Option ℕ

pub record FleetReport : Type 0 where
  pub nodes_live : ℕ
  pub nodes : List NodeReport
  pub unit_retries : ℕ
  pub leases_reclaimed : ℕ
  pub units_failed : ℕ

pub data Caveat : Type 0 where
  single_node few_replicates lifetime_latency : Caveat
  wide_spread : (tenths : ℕ) → Caveat

-- Seconds are hundredths here, and the spread tenths of a percent.
pub record BenchRecord : Type 0 where
  pub nodes : List NodeReport
  pub runs_sec : List ℕ
  pub median_sec : ℕ
  pub fastest_sec : ℕ
  pub slowest_sec : ℕ
  pub spread_pct : ℕ
  pub units_per_sec : ℕ
  pub retries : ℕ
  pub leases_reclaimed : ℕ
  pub units_failed : ℕ
  pub does_not_establish : List Caveat

value_or_zero : Option ℕ → ℕ
value_or_zero none = 0
value_or_zero (some n) = n

unfoldable pub ordered_runs : List ℕ → List ℕ
ordered_runs runs = sort_by (λ r. r) runs

-- `ordered[len(ordered) // 2]`, `ordered[0]` and `ordered[-1]`, or 0 without runs.
unfoldable pub median_of : List ℕ → ℕ
unfolding value_or_zero
median_of ordered = value_or_zero (nth (length ordered / 2) ordered)

unfoldable pub lowest_of : List ℕ → ℕ
unfolding value_or_zero
lowest_of ordered = value_or_zero (nth 0 ordered)

unfoldable pub highest_of : List ℕ → ℕ
unfolding value_or_zero
highest_of ordered = value_or_zero (nth (length ordered - 1) ordered)

unfoldable pub spread_of : ℕ → ℕ → ℕ → ℕ
spread_of lo median hi = if median == 0 then 0 else round_div (1000 * (hi - lo)) median

unfoldable pub caveats_of : List NodeReport → List ℕ → ℕ → List Caveat
caveats_of nodes runs spread =
    (if ltb (length nodes) 2 then single_node ∷ [] else [])
    ++ (if ltb (length runs) 3 then few_replicates ∷ [] else [])
    ++ (if ltb 100 spread then wide_spread spread ∷ [] else [])
    ++ lifetime_latency ∷ []

hundredths : ℕ → ℕ
hundredths time = round_div time 10_000

unfoldable pub bench_record : ℕ → List ℕ → FleetReport → FleetReport → BenchRecord
unfolding hundredths
bench_record requests runs before after =
    let ordered = ordered_runs runs in
    let median = median_of ordered in
    let lo = lowest_of ordered in
    let hi = highest_of ordered in
    let spread = spread_of lo median hi in
    record {
      nodes = after.nodes;
      runs_sec = map hundredths runs;
      median_sec = hundredths median;
      fastest_sec = hundredths lo;
      slowest_sec = hundredths hi;
      spread_pct = spread;
      units_per_sec = if median == 0 then 0 else round_div (requests * 100_000_000) median;
      retries = after.unit_retries - before.unit_retries;
      leases_reclaimed = after.leases_reclaimed - before.leases_reclaimed;
      units_failed = after.units_failed - before.units_failed;
      does_not_establish = caveats_of after.nodes runs spread;
    }

-- How the command ends.
pub data Outcome : Type 0 where
  no_node_connected : Outcome
  failed_run : Ran → Outcome
  no_metrics : Outcome
  measured : BenchRecord → Outcome

measure : ℕ → FleetReport → AllRan → Attempt FleetReport → Outcome
measure requests before (ended r) after = failed_run r
measure requests before (all_timed runs) (raises message) = no_metrics
measure requests before (all_timed runs) (gives after) =
    measured (bench_record requests runs before after)

unfoldable pub cmd_bench : ℕ → Attempt FleetReport → List Replicate → Attempt FleetReport → Outcome
unfolding measure
cmd_bench requests (raises message) replicates after = no_metrics
cmd_bench requests (gives before) replicates after =
    if before.nodes_live == 0
    then no_node_connected
    else measure requests before (run_replicates replicates) after

-- The exit code; a command that still waits has none, and neither has one that raises.
unfoldable pub exit_code : Outcome → Option ℕ
exit_code no_node_connected = some 1
exit_code no_metrics = some 1
exit_code (failed_run waiting) = none
exit_code (failed_run crashed) = none
exit_code (failed_run stopped) = some 130
exit_code (failed_run _) = some 1
exit_code (measured bench) = some 0
