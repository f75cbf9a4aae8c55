-- ===== src/Metrics/Tests.antt =====
-- The totals of the fleet at a concrete run, and a look at its latencies.
use fleet_lm.Base.{arith, ℕ, some, ◌≡◌, refl, List, [], ◌∷◌, lookup, sort_by}
use fleet_lm.Metrics.{FleetMetrics, fresh_metrics}
use fleet_lm.Metrics.Percentile.{percentile}
use fleet_lm.Metrics.NearestRank.{IsNearest, percentile-IsNearest}
use fleet_lm.Metrics.Report.{highest, fleet_snapshot}
use fleet_lm.Metrics.Cumulative.{
  Event, joins, gets_ready, completes_unit, leaves, record_all, AllAllowed, IsBelow,
  record_all-IsBelow,
}

abbrev start : FleetMetrics
start = fresh_metrics 0

abbrev run : List (ℕ × Event)
run =
    (1, joins 7 "apple-silicon")
    ∷ (2, gets_ready 7)
    ∷ (3, completes_unit 7 3 1 4 5 6 0)
    ∷ (4, leaves 7)
    ∷ []

run_allowed : AllAllowed run start
unfolding fresh_metrics lookup
run_allowed = (refl, (tt, (tt, (tt, tt))))

record_all-IsBelow_example :
    IsBelow (fleet_snapshot 0 start) (fleet_snapshot 9 (record_all run start))
record_all-IsBelow_example = record_all-IsBelow run start 0 9 run_allowed

tail_latency : percentile (5 ∷ 1 ∷ 3 ∷ 9 ∷ []) 90 ≡ some 9
unfolding percentile sort_by
tail_latency = refl

highest_latency : highest (5 ∷ 1 ∷ 9 ∷ []) ≡ some 9
unfolding highest
highest_latency = refl

percentile-IsNearest_example :
    (v : ℕ) × (percentile (5 ∷ 1 ∷ 3 ∷ 9 ∷ []) 90 ≡ some v) × IsNearest 90 (5 ∷ 1 ∷ 3 ∷ 9 ∷ []) v
percentile-IsNearest_example =
    percentile-IsNearest 90 (5 ∷ 1 ∷ 3 ∷ 9 ∷ []) (omega arith) (omega arith) (λ e. cc)
