-- ===== src/Batch/Tests.antt =====
-- The theorems about the store at concrete histories, and runs of its methods.
mod Endings
mod Answers
use fleet_lm.Base.{
  ℕ, ◌+◌, insert, modify, map_values, truthy, non_empty, same_text, or_else, insert_at, String,
  true, none, some, ◌≡◌, refl, List, [], ◌∷◌, contains, lookup, arith,
}
use fleet_lm.Config.{default_settings}
use fleet_lm.Verification.{Primitives}
use fleet_lm.Batch.Data.{
  WorkUnit, Batch, BatchStore, Request, Message, UnitState, BatchState, requeued, new_store,
  is_in_progress,
}
use fleet_lm.Batch.Submit.{
  create_batch, insert_units, register_all, place, spread, plant, request_units, canary_units,
}
use fleet_lm.Batch.Lease.{lease, lease_loop, visit, serves, batch_gone, lease_unit}
use fleet_lm.Batch.Report.{
  maybe_finish_batch, finish, open_unit, record_result, dead_letter, retry, NodeResult, any_open,
  complete, fail,
}
use fleet_lm.Batch.Requeue.{
  reclaimed, reclaim, requeue_where, held_by, lease_over, release_node, expire_leases,
}
use fleet_lm.Batch.Cancel.{cancel_unit, cancel_units, cancel_batch}
use fleet_lm.Batch.Machine.{Moves}
use fleet_lm.Batch.Valid.Defs.{Valid}
use fleet_lm.Batch.Valid.Submitting.{IsFresh}
use fleet_lm.Batch.History.{
  Call, submits, leases, completes, releases, step, run, AllAllowed, run-IsValid, step-Moves,
  run-closed, new_store-IsValid, pending_in_queue, in_progress_iff_open,
}

abbrev pub lib : Primitives
lib = record { digest = λ t. t; ratio = λ a b. 0 }

abbrev pub ask : String → Request
ask text = record {
  messages = (let m : Message = record { role = "user"; content = text } in m ∷ []);
  model = none;
  max_tokens = 256;
  temperature = 700_000;
}

abbrev pub answer : ℕ → NodeResult
answer k = record {
  unit_id = k;
  text = "red";
  prompt_tokens = 3;
  completion_tokens = 1;
  generation_sec = 4;
  served_by = some "llama3.2";
}

abbrev pub start : BatchStore
start = new_store none none

abbrev pub first_calls : List (ℕ × Call)
first_calls =
    (5, submits 1 (λ i. i + 10) none (ask "a color" ∷ ask "a fruit" ∷ []))
    ∷ (6, leases 7 none 1)
    ∷ (7, completes 7 (answer 10))
    ∷ (8, leases 7 none 1)
    ∷ (9, releases 7)
    ∷ []

unfoldable program : Unit {0}
unfolding step run new_store create_batch lease complete fail release_node expire_leases
    cancel_batch lookup insert modify map_values any_open contains insert_units register_all place
    spread plant request_units canary_units lease_loop visit serves batch_gone lease_unit truthy
    non_empty same_text or_else maybe_finish_batch finish open_unit record_result dead_letter retry
    reclaimed reclaim requeue_where held_by lease_over requeued cancel_unit cancel_units insert_at
program = tt

abbrev pub fresh_ids : IsFresh 1 (λ i. i + 10) start
unfolding program
fresh_ids = record { batch = refl; unit = λ i. refl; distinct = λ i j e. omega arith }

pub first_allowed : AllAllowed lib default_settings first_calls start
first_allowed = ((λ e. cc, fresh_ids), (tt, (tt, (tt, (tt, tt)))))

-- The unit that the node gave back is pending, in the queue again, after one attempt.
abbrev pub returned_unit : WorkUnit
returned_unit = record {
  id = 11;
  batch_id = 1;
  index = 1;
  messages = (let m : Message = record { role = "user"; content = "a fruit" } in m ∷ []);
  model = none;
  max_tokens = 256;
  temperature = 700_000;
  state = UnitState.pending;
  attempts = 1;
  node_id = none;
  lease_expires_at = 0;
  created_at = 5;
  leased_at = 8;
  result_text = none;
  error = none;
  prompt_tokens = 0;
  completion_tokens = 0;
  served_by = none;
}

abbrev pub reached : BatchStore
reached = run lib default_settings first_calls start

pub reached_returned : lookup 11 reached.units ≡ some returned_unit
unfolding program
reached_returned = refl

reached_queue : reached.pending ≡ 11 ∷ []
unfolding program
reached_queue = refl

pub reached-IsValid : Valid reached
reached-IsValid =
    run-IsValid lib default_settings first_calls start first_allowed (new_store-IsValid none none)

pending_in_queue_example : contains 11 reached.pending ≡ true
pending_in_queue_example =
    pending_in_queue lib default_settings none none first_calls first_allowed 11 returned_unit
      reached_returned refl

abbrev finished_calls : List (ℕ × Call)
finished_calls =
    (10, leases 7 none 4) ∷ (11, completes 7 (answer 11)) ∷ (12, completes 7 (answer 10)) ∷ []

later_allowed : AllAllowed lib default_settings finished_calls reached
later_allowed = (tt, (tt, (tt, tt)))

-- The batch while its second unit is outstanding.
abbrev pub open_batch : Batch
open_batch = record {
  id = 1;
  model = none;
  created_at = 5;
  state = BatchState.in_progress;
  unit_ids = 10 ∷ 11 ∷ [];
  completed_at = none;
  canary_unit_ids = [];
}

abbrev pub done_unit : WorkUnit
done_unit = record returned_unit {
  id = 10;
  index = 0;
  messages = (let m : Message = record { role = "user"; content = "a color" } in m ∷ []);
  state = UnitState.complete;
  node_id = some 7;
  leased_at = 6;
  result_text = some "red";
  prompt_tokens = 3;
  completion_tokens = 1;
  served_by = some "llama3.2";
}

pub reached_batch : lookup 1 reached.batches ≡ some open_batch
unfolding program
reached_batch = refl

pub reached_done : lookup 10 reached.units ≡ some done_unit
unfolding program
reached_done = refl

in_progress_iff_open_example :
    is_in_progress open_batch.state ≡ any_open open_batch.unit_ids reached.units
in_progress_iff_open_example =
    in_progress_iff_open lib default_settings none none first_calls first_allowed 1 open_batch
      reached_batch

-- A later report on the unit changes nothing.
run-closed_example :
    lookup 10 (run lib default_settings finished_calls reached).units ≡ some done_unit
run-closed_example =
    run-closed lib default_settings finished_calls reached 10 done_unit later_allowed
      reached-IsValid reached_done refl

step-Moves_example :
    (w : WorkUnit) × (lookup 11 (step lib default_settings (10, leases 8 none 2) reached).units
      ≡ some w)
    × Moves returned_unit w
step-Moves_example =
    step-Moves lib default_settings (10, leases 8 none 2) reached 11 returned_unit tt
      reached-IsValid reached_returned
