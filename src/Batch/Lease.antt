-- ===== src/Batch/Lease.antt =====
-- orchestrator/batch.py: `lease`.
use fleet_lm.Base.{
  ℕ, ◌+◌, String, Bool, true, false, not, ◌&&◌, Option, none, some, List, [], ◌∷◌, ◌++◌, leb,
  if◌then◌else◌, length, truthy, same_text, Dict, lookup, modify,
}
use fleet_lm.Config.{Settings, lease_end}
use fleet_lm.Batch.Data.{WorkUnit, Batch, BatchStore, UnitState, is_pending, is_cancelled}

-- The test `unit.model and node_model and unit.model != node_model`, negated.
unfoldable pub serves : Option String → Option String → Bool
serves node_model wanted =
    not (truthy wanted && truthy node_model && not (same_text wanted node_model))

-- What the loop does with one entry of the queue.
pub data Visit : Type 0 where
  drop skip : Visit
  take : WorkUnit → Visit

unfoldable pub batch_gone : ℕ → Dict Batch → Bool
batch_gone batch_id batches = elim (lookup batch_id batches) [
  | none ↦ true
  | some b ↦ is_cancelled b.state
]

module _ (settings : Settings) (now node_id : ℕ) (node_model : Option String) where
  unfoldable pub lease_unit : WorkUnit → WorkUnit
  lease_unit u = record u {
    state = UnitState.leased;
    node_id = some node_id;
    attempts = u.attempts + 1;
    leased_at = now;
    lease_expires_at = lease_end settings now;
  }

  unfoldable pub visit : Dict Batch → Option WorkUnit → Visit
  visit batches none = drop
  visit batches (some u) =
      if not (is_pending u.state)
      then drop
      else if batch_gone u.batch_id batches
      then drop
      else if not (serves node_model u.model)
      then skip
      else take u

  -- The loop over the queue, with the units leased so far, those still pending, and the store's
  -- units. It stops when `count` units are leased, and keeps the rest of the queue.
  unfoldable pub lease_loop :
      Dict Batch
      → ℕ
      → List ℕ
      → List WorkUnit
      → List ℕ
      → Dict WorkUnit
      → List WorkUnit × List ℕ × Dict WorkUnit
  lease_loop batches count [] leased still units = (leased, still, units)
  lease_loop batches count (uid ∷ queue) leased still units = elim (leb count (length leased)) [
    | true ↦ (leased, still ++ uid ∷ queue, units)
    | false ↦ elim (visit batches (lookup uid units)) [
      | drop ↦ lease_loop batches count queue leased still units
      | skip ↦ lease_loop batches count queue leased (still ++ uid ∷ []) units
      | take u ↦
          lease_loop batches count queue (leased ++ lease_unit u ∷ []) still
            (modify uid lease_unit units)
    ]
  ]

  unfoldable pub lease : ℕ → BatchStore → List WorkUnit × BatchStore
  lease count s =
      let (leased, still, units) = lease_loop s.batches count s.pending [] [] s.units in
      (leased, record s { pending = still; units = units })
