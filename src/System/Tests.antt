-- ===== src/System/Tests.antt =====
-- The theorem about the system, at a run of one unit from its submission to its result.
use fleet_lm.Base.{
  ◌+◌, String, ◌≢◌, ◌⊎◌, false, none, some, ◌≡◌, refl, [], ◌∷◌, lookup, arith, here, insert, modify,
  contains, insert_at, truthy, non_empty, same_text, or_else, or_text,
}
use fleet_lm.Config.{default_settings}
use fleet_lm.Verification.{Primitives}
use fleet_lm.Batch.Data.{
  WorkUnit, UnitState, Request, Message, Payload, payload, BatchStore, new_store,
}
use fleet_lm.Batch.Submit.{
  create_batch, insert_units, register_all, place, spread, plant, request_units, canary_units,
}
use fleet_lm.Batch.Lease.{lease, lease_loop, visit, serves, batch_gone, lease_unit}
use fleet_lm.Batch.Report.{maybe_finish_batch, finish, open_unit, record_result, any_open, complete}
use fleet_lm.Batch.History.{Call, submits, Allowed}
use fleet_lm.Batch.History
use fleet_lm.Engine.{BatchOutput}
use fleet_lm.Fleet.Registry.{new_registry, get_node}
use fleet_lm.NodeAgent.{
  NodeAgent, Sent, work_result, outputs, put, request_work, take_assignment, first_units,
  start_batch_from, start_batch, report_unit, report_units, messages_for, end_batch, finish_batch,
}
use fleet_lm.NodeAgent.Backlog.{is_assigned, starts, finishes}
use fleet_lm.NodeAgent.Backlog
use fleet_lm.NodeAgent.Delivered.{frame_of}
use fleet_lm.Server.App.{App, on_store}
use fleet_lm.Server.Messages.{work_request}
use fleet_lm.Server.Handle.{handled, handle, assign, capacity_of, model_of, result_of}
use fleet_lm.System.{
  World, set_agent, assignments, serve_node, gives, arrives, acts, sends, reports, Reaches, stays,
  goes,
}
use fleet_lm.System.Results.{opened}
use fleet_lm.Batch.Requested.{payload_of}
use fleet_lm.System.Answers.{requests_are_answered}

abbrev lib : Primitives
lib = record { digest = λ t. t; ratio = λ a b. 0 }

-- An engine that answers every question with the same word.
abbrev Makes : Payload → String → Type 0
Makes p t = t ≡ "red"

abbrev fresh : NodeAgent
fresh = record {
  model_id = "llama";
  batch_size = 2;
  is_loaded = false;
  active_sessions = 0;
  outbox = [];
  work_queue = [];
  running = [];
  work_in_progress = 0;
  work_request_inflight = false;
}

abbrev question : Request
question = record {
  messages = (let m : Message = record { role = "user"; content = "a color" } in m ∷ []);
  model = none;
  max_tokens = 256;
  temperature = 700_000;
}

abbrev asked : Payload
asked = record {
  unit_id = 10;
  messages = question.messages;
  max_tokens = 256;
  temperature = 700_000;
}

abbrev good : BatchOutput
good = record { text = "red"; prompt_tokens = 3; completion_tokens = 1; error = none }

-- The server around a store.
abbrev around : BatchStore → App
around s = record {
  registry = new_registry;
  session_manager = record { sessions = [] };
  batch_store = s;
  connections = [];
}

abbrev start : World
start = opened none none (λ n. fresh)

abbrev asks_one : Call
asks_one = submits 1 (λ i. i + 10) none (question ∷ [])

abbrev submitted : World
submitted = record start { store = History.step lib default_settings (5, asks_one) start.store }

abbrev leased : World
leased =
    serve_node 7 (handle lib default_settings 6 7 (work_request (some 1)) (around submitted.store))
      submitted

abbrev held : World
held = set_agent 7 (Backlog.step (is_assigned (asked ∷ [])) (leased.agents 7)) leased

abbrev started : World
started = set_agent 7 (Backlog.step starts (held.agents 7)) held

abbrev decoded : World
decoded =
    set_agent 7 (Backlog.step (finishes (outputs none (good ∷ []))) (started.agents 7)) started

abbrev result : Sent
result = work_result 10 "red" 3 1 "llama"

abbrev posted : World
posted = record decoded { sent = (7, result) ∷ decoded.sent }

abbrev reported : World
reported =
    serve_node 7
      (handle lib default_settings 8 7 (frame_of 0 4 "llama" result) (around posted.store)) posted

unfoldable program : Unit {0}
unfolding History.step create_batch insert_units register_all place spread plant request_units
    canary_units lease lease_loop visit serves batch_gone lease_unit handle assign capacity_of
    model_of handled on_store result_of assignments get_node new_registry complete
    maybe_finish_batch finish open_unit any_open record_result Backlog.step take_assignment
    start_batch start_batch_from first_units request_work put finish_batch messages_for report_units
    report_unit end_batch frame_of payload new_store lookup insert modify contains insert_at truthy
    non_empty same_text or_else or_text
program = tt

allowed : Allowed lib default_settings asks_one start.store
unfolding program
allowed = (λ e. cc, record { batch = refl; unit = λ i. refl; distinct = λ i j e. omega arith })

run : Reaches lib default_settings Makes submitted reported
unfolding program
run =
    goes
      (goes
        (goes
          (goes
            (goes (goes stays (gives 6 7 (some 1) (around submitted.store) refl))
              (arrives 7 (asked ∷ []) here))
            (acts 7 starts tt))
          (acts 7 (finishes (outputs none (good ∷ []))) (λ e. refl, tt)))
        (sends 7 result here))
      (reports 8 7 0 4 "llama" result (around posted.store) refl here refl)

abbrev done : WorkUnit
done = record {
  id = 10;
  batch_id = 1;
  index = 0;
  messages = question.messages;
  model = none;
  max_tokens = 256;
  temperature = 700_000;
  state = UnitState.complete;
  attempts = 1;
  node_id = some 7;
  lease_expires_at = 0;
  created_at = 5;
  leased_at = 6;
  result_text = some "red";
  error = none;
  prompt_tokens = 3;
  completion_tokens = 1;
  served_by = some "llama";
}

run_done : lookup 10 reported.store.units ≡ some done
unfolding program
run_done = refl

requests_are_answered_example :
    (u : WorkUnit) × (lookup 10 reported.store.units ≡ some u)
    × (u.batch_id ≡ 1)
    × (u.index ≡ 0)
    × ((u.state ≢ UnitState.complete)
        ⊎ ((t : String) × (u.result_text ≡ some t) × Makes (payload_of 10 question) t))
requests_are_answered_example =
    requests_are_answered Makes lib default_settings none none (λ n. fresh) start reported 5 1
      (λ i. i + 10) none (question ∷ [])
      (λ n. record { queue = refl; running = refl; outbox = refl }) stays allowed run 0 question
      refl
