-- ===== src/Batch/Cancel.antt =====
-- orchestrator/batch.py: `cancel_batch`.
use fleet_lm.Base.{
  ℕ, Bool, true, false, not, none, some, List, [], ◌∷◌, ◌++◌, if◌then◌else◌, Dict, lookup, modify,
}
use fleet_lm.Batch.Data.{WorkUnit, BatchStore, UnitState, BatchState, is_open, is_in_progress}

unfoldable pub cancel_unit : WorkUnit → WorkUnit
cancel_unit u =
    if is_open u.state
    then record u { state = UnitState.failed; error = some "batch cancelled" }
    else u

unfoldable pub cancel_units : List ℕ → Dict WorkUnit → Dict WorkUnit
cancel_units [] units = units
cancel_units (uid ∷ uids) units = cancel_units uids (modify uid cancel_unit units)

unfoldable pub cancel_batch : ℕ → BatchStore → Bool × BatchStore
cancel_batch batch_id s = elim (lookup batch_id s.batches) [
  | none ↦ (false, s)
  | some b ↦ if not (is_in_progress b.state) then (false, s) else (
    true,
    record s {
      batches = modify batch_id (λ b. record b { state = BatchState.cancelled }) s.batches;
      units = cancel_units (b.unit_ids ++ b.canary_unit_ids) s.units;
    },
  )
]
