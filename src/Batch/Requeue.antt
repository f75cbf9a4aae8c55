-- ===== src/Batch/Requeue.antt =====
-- orchestrator/batch.py: `release_node` and `expire_leases`, which run one loop with two tests.
use mathlib.Core.Option
use fleet_lm.Base.{
  ℕ, Bool, false, ◌&&◌, Option, none, some, List, [], ◌∷◌, ◌++◌, ltb, ◌==◌, if◌then◌else◌, length,
  Dict, map_values,
}
use fleet_lm.Metrics.{leases_returned}
use fleet_lm.Batch.Data.{WorkUnit, BatchStore, is_leased, requeued}

-- The identifiers that the loop appends to the queue.
unfoldable pub reclaimed : (WorkUnit → Bool) → Dict WorkUnit → List ℕ
reclaimed test [] = []
reclaimed test ((k, u) ∷ d) = let rest = reclaimed test d in if test u then u.id ∷ rest else rest

-- What the loop leaves of a unit.
unfoldable pub reclaim : (WorkUnit → Bool) → WorkUnit → WorkUnit
reclaim test u = if test u then requeued u else u

unfoldable pub requeue_where : (WorkUnit → Bool) → BatchStore → ℕ × BatchStore
requeue_where test s =
    let back = reclaimed test s.units in
    let count = length back in
    (
      count,
      record s {
        units = map_values (reclaim test) s.units;
        pending = s.pending ++ back;
        metrics = if ltb 0 count then Option.map (leases_returned count) s.metrics else s.metrics;
      },
    )

-- `unit.node_id == node_id`
holds : ℕ → Option ℕ → Bool
holds node_id none = false
holds node_id (some n) = n == node_id

unfoldable pub held_by : ℕ → WorkUnit → Bool
unfolding holds
held_by node_id u = is_leased u.state && holds node_id u.node_id

unfoldable pub lease_over : ℕ → WorkUnit → Bool
lease_over now u = is_leased u.state && ltb u.lease_expires_at now

unfoldable pub release_node : ℕ → BatchStore → ℕ × BatchStore
release_node node_id = requeue_where (held_by node_id)

unfoldable pub expire_leases : ℕ → BatchStore → ℕ × BatchStore
expire_leases now = requeue_where (lease_over now)
