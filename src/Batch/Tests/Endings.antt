-- ===== src/Batch/Tests/Endings.antt =====
-- How units end, by failure or with a cancelled batch, at concrete histories.
use fleet_lm.Base.{
  leb, ◌⊎◌, ℕ, ◌+◌, true, false, none, some, ◌≡◌, refl, List, [], ◌∷◌, contains, lookup,
}
use fleet_lm.Config.{default_settings}
use fleet_lm.Batch.Data.{WorkUnit, Batch, BatchStore, UnitState, BatchState, is_open}
use fleet_lm.Batch.Spent.{Cancelled}
use fleet_lm.Batch.Spent.Calls.{failed_for_reason}
use fleet_lm.Batch.History.{
  Call, submits, leases, fails, cancels, run, AllAllowed, cancelled_silent,
}
use fleet_lm.Batch.Tests.{lib, ask, start, fresh_ids, open_batch, done_unit, program}

abbrev cancel_calls : List (ℕ × Call)
cancel_calls =
    (5, submits 1 (λ i. i + 10) none (ask "a color" ∷ ask "a fruit" ∷ []))
    ∷ (6, leases 7 none 1)
    ∷ (7, cancels 1)
    ∷ (8, fails 7 10 "stopped")
    ∷ []

cancel_allowed : AllAllowed lib default_settings cancel_calls start
cancel_allowed = ((λ e. cc, fresh_ids), (tt, (tt, (tt, tt))))

abbrev cancel_store : BatchStore
cancel_store = run lib default_settings cancel_calls start

abbrev cancelled_batch : Batch
cancelled_batch = record open_batch { state = BatchState.cancelled }

-- The unit that was leased when the batch was cancelled.
abbrev cancelled_unit : WorkUnit
cancelled_unit = record done_unit {
  state = UnitState.failed;
  lease_expires_at = 600_000_006;
  result_text = none;
  error = some "batch cancelled";
  prompt_tokens = 0;
  completion_tokens = 0;
  served_by = none;
}

store_has_cancelled :
    (lookup 1 cancel_store.batches ≡ some cancelled_batch)
    × (lookup 10 cancel_store.units ≡ some cancelled_unit)
unfolding program
store_has_cancelled = (refl, refl)

cancelled_silent_example : is_open cancelled_unit.state ≡ false
unfolding contains
cancelled_silent_example =
    cancelled_silent lib default_settings none none cancel_calls cancel_allowed 1 cancelled_batch 10
      cancelled_unit store_has_cancelled.0 refl refl store_has_cancelled.1

abbrev failing_calls : List (ℕ × Call)
failing_calls =
    (5, submits 1 (λ i. i + 10) none (ask "a color" ∷ []))
    ∷ (6, leases 7 none 1)
    ∷ (7, fails 7 10 "busy")
    ∷ (8, leases 7 none 1)
    ∷ (9, fails 7 10 "busy")
    ∷ (10, leases 7 none 1)
    ∷ (11, fails 7 10 "out of memory")
    ∷ []

-- The unit after three attempts.
abbrev failed_unit : WorkUnit
failed_unit = record done_unit {
  state = UnitState.failed;
  attempts = 3;
  leased_at = 10;
  lease_expires_at = 600_000_010;
  result_text = none;
  error = some "out of memory";
  prompt_tokens = 0;
  completion_tokens = 0;
  served_by = none;
}

abbrev failed_store : BatchStore
failed_store = run lib default_settings failing_calls start

failed_reached : lookup 10 failed_store.units ≡ some failed_unit
unfolding program
failed_reached = refl

failed_for_reason_example :
    (leb default_settings.max_unit_attempts failed_unit.attempts ≡ true)
    ⊎ Cancelled failed_unit.batch_id failed_store.batches
failed_for_reason_example =
    failed_for_reason lib default_settings none none failing_calls
      ((λ e. cc, fresh_ids), (tt, (tt, (tt, (tt, (tt, (tt, tt))))))) 10 failed_unit failed_reached
      refl
