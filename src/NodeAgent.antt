-- ===== src/NodeAgent.antt =====
-- node_agent/__main__.py: the batch work of `NodeAgent`. The engine is a parameter: what it makes
-- of a batch comes with the step. The outbox lists all that was put into it since the connection
-- opened; the sender's reads, and the seconds that a result reports, are left out.
pub mod Asking
pub mod Backlog
pub mod Connection
pub mod Reports
pub mod Hardware
pub mod Generation
pub mod Answer
pub mod Delivered
mod Tests
use fleet_lm.Base.{
  ℕ, zero, suc, ◌+◌, ◌-◌, String, Bool, true, false, not, ◌||◌, Option, List, [], ◌∷◌, ◌++◌, map,
  ◌==◌, if◌then◌else◌, length, drop, truthy, or_text, concat, show,
}
use fleet_lm.Batch.Data.{Payload}
use fleet_lm.Engine.{BatchItem, BatchOutput}
use fleet_lm.Server.Messages.{NodeMessage}

pub data Sent : Type 0 where
  model_loaded : Sent
  work_request : (capacity : ℕ) → Sent
  work_result :
      (unit_id : ℕ) (text : String) (prompt_tokens completion_tokens : ℕ) (model : String) → Sent
  work_failed : (unit_id : ℕ) (message : String) → Sent
  beat : (active_sessions : ℕ) → Sent
  load_error : (message : String) → Sent
  streams : (message : NodeMessage) → Sent

-- `running` is the batch that the work loop decodes, empty while it waits.
pub record NodeAgent : Type 0 where
  pub model_id : String
  pub batch_size : ℕ
  pub is_loaded : Bool
  pub active_sessions : ℕ
  pub outbox : List Sent
  pub work_queue : List Payload
  pub running : List Payload
  pub work_in_progress : ℕ
  pub work_request_inflight : Bool

unfoldable pub put : Sent → NodeAgent → NodeAgent
put m a = record a { outbox = a.outbox ++ m ∷ [] }

-- One round of `_heartbeat_loop`, as far as the load it reports.
unfoldable pub heartbeat : NodeAgent → NodeAgent
unfolding put
heartbeat a = put (beat (a.active_sessions + a.work_in_progress)) a

-- `_generate` begins, hands a message of its thread to the outbox, and ends.
unfoldable pub begin_generation : NodeAgent → NodeAgent
begin_generation a = record a { active_sessions = a.active_sessions + 1 }

unfoldable pub emit : NodeMessage → NodeAgent → NodeAgent
unfolding put
emit m a = put (streams m) a

unfoldable pub end_generation : NodeAgent → NodeAgent
end_generation a = record a { active_sessions = a.active_sessions - 1 }

unfoldable pub request_work : NodeAgent → NodeAgent
unfolding put
request_work a =
    let room = a.batch_size - length a.work_queue in
    if not a.is_loaded || a.work_request_inflight
    then a
    else if room == 0
    then a
    else put (work_request room) (record a { work_request_inflight = true })

-- `_load_model` once the engine has loaded; Connection has the failure to load, which shuts the
-- node down.
unfoldable pub load_model_when : Bool → NodeAgent → NodeAgent
load_model_when true a = put model_loaded a
load_model_when false a = request_work (put model_loaded (record a { is_loaded = true }))

unfoldable pub load_model : NodeAgent → NodeAgent
load_model a = load_model_when a.is_loaded a

unfoldable pub take_assignment : List Payload → NodeAgent → NodeAgent
take_assignment units a = record a {
  work_request_inflight = false;
  work_queue = a.work_queue ++ units;
}

-- Whether the work loop waits for its next batch.
abbrev pub is_idle : List Payload → Bool
is_idle [] = true
is_idle (u ∷ us) = false

-- The first `n` units of the queue.
unfoldable pub first_units : ℕ → List Payload → List Payload
first_units zero us = []
first_units (suc n) [] = []
first_units (suc n) (u ∷ us) = u ∷ first_units n us

-- The work loop takes one unit, and what else waits up to the batch size, and asks for more.
unfoldable pub start_batch_from : List Payload → NodeAgent → NodeAgent
start_batch_from [] a = a
start_batch_from (u ∷ us) a =
    let batch = u ∷ first_units (a.batch_size - 1) us in
    request_work (record a {
      running = batch;
      work_queue = drop (a.batch_size - 1) us;
      work_in_progress = a.work_in_progress + length batch;
    })

unfoldable pub start_batch : NodeAgent → NodeAgent
start_batch a = if is_idle a.running then start_batch_from a.work_queue a else a

-- The items that `_run_units` makes of the units.
unfoldable pub items_of : List Payload → List BatchItem
items_of [] = []
items_of (u ∷ us) =
    let item : BatchItem = record {
      messages = u.messages;
      max_tokens = u.max_tokens;
      temperature = u.temperature;
    } in
    item ∷ items_of us

-- What `engine.generate_batch` does: it raises, or returns outputs. `engine_model` is the engine's
-- `model_id`.
pub data Decoded : Type 0 where
  raised : (message : String) → Decoded
  outputs : (engine_model : Option String) (outs : List BatchOutput) → Decoded

unfoldable pub report_unit : String → Payload → BatchOutput → Sent
report_unit model u out =
    if truthy out.error
    then work_failed u.unit_id (or_text out.error "")
    else work_result u.unit_id out.text out.prompt_tokens out.completion_tokens model

-- `_report_units`
unfoldable pub report_units : String → List Payload → List BatchOutput → List Sent
report_units model (u ∷ us) (o ∷ os) = report_unit model u o ∷ report_units model us os
report_units model _ _ = []

unfoldable pub fail_units : String → List Payload → List Sent
fail_units message us = map (λ u. work_failed u.unit_id message) us

-- The message of the error that `_run_units` raises.
unfoldable pub wrong_count : ℕ → ℕ → String
wrong_count given units =
    concat (concat "engine returned " (concat (show given) " outputs for "))
      (concat (show units) " units")

-- `_run_units`, with its check of the number of outputs, and what the work loop sends.
unfoldable pub messages_for : String → List Payload → Decoded → List Sent
messages_for model us (raised message) = fail_units message us
messages_for model us (outputs engine_model outs) =
    if length outs == length us
    then report_units (or_text engine_model model) us outs
    else fail_units (wrong_count (length outs) (length us)) us

-- The `finally` clause of the work loop.
unfoldable pub end_batch : NodeAgent → NodeAgent
end_batch a =
    request_work
      (record a { running = []; work_in_progress = a.work_in_progress - length a.running })

unfoldable pub finish_batch : Decoded → NodeAgent → NodeAgent
finish_batch d a =
    if is_idle a.running
    then a
    else end_batch (record a { outbox = a.outbox ++ messages_for a.model_id a.running d })

unfoldable pub drain_work_queue : NodeAgent → NodeAgent
drain_work_queue a = record a { work_request_inflight = false; outbox = []; work_queue = [] }

-- The connection is lost: the backlog is dropped, and a batch under way ends without a report.
unfoldable pub lose_connection : NodeAgent → NodeAgent
lose_connection a = if is_idle a.running then drain_work_queue a else end_batch (drain_work_queue a)
