-- ===== src/Server/Handle.antt =====
-- orchestrator/api/nodes.py: `_handle`, which serves one message of a node that has registered. A
-- missing field that the code reads by `msg[...]` raises, and then nothing has changed.
use fleet_lm.Base.{
  ℕ, min, String, Bool, true, false, Option, none, some, List, [], ◌∷◌, map, ◌==◌, if◌then◌else◌,
}
use fleet_lm.Config.{Settings}
use fleet_lm.Metrics.{node_ready}
use fleet_lm.Verification.{Primitives}
use fleet_lm.Batch.Data.{payload}
use fleet_lm.Batch.Lease.{lease}
use fleet_lm.Batch.Report.{NodeResult}
use fleet_lm.Batch.Report
use fleet_lm.Fleet.Registry.{NodeRegistry, get_node, update_heartbeat, set_model_loaded}
use fleet_lm.Session.Inference
use fleet_lm.Session.Manager.{on_session}
use fleet_lm.Server.App.{App, on_metrics, on_store, on_registry, on_sessions}
use fleet_lm.Server.Messages.{
  NodeMessage, register, heartbeat, model_loaded, generate_chunk, generate_complete, generate_error,
  work_request, work_result, work_failed, error, unknown, WorkResultMessage, Reply, work_assignment,
}

-- MAX_LEASE_PER_REQUEST
abbrev pub max_lease_per_request : ℕ
max_lease_per_request = 64

-- `msg.get(field, default)`
abbrev pub field_or {ℓ} : {A : Type ℓ} → A → Option A → A
field_or default none = default
field_or default (some a) = a

pub record Handled : Type 0 where
  pub app : App
  pub replies : List Reply
  pub raised : Bool

unfoldable pub handled : App → Handled
handled app = record { app = app; replies = []; raised = false }

unfoldable pub raises : App → Handled
raises app = record { app = app; replies = []; raised = true }

-- `max(0, min(int(capacity), MAX_LEASE_PER_REQUEST))`; a negative capacity is 0 here.
unfoldable pub capacity_of : Option ℕ → ℕ
capacity_of capacity = min (field_or 1 capacity) max_lease_per_request

-- `node.model_id if node else None`
unfoldable pub model_of : ℕ → NodeRegistry → Option String
model_of node_id r = elim (get_node node_id r) [ none ↦ none | some n ↦ n.model_id ]

unfoldable pub result_of : ℕ → WorkResultMessage → NodeResult
result_of unit_id msg = record {
  unit_id = unit_id;
  text = field_or "" msg.text;
  prompt_tokens = field_or 0 msg.prompt_tokens;
  completion_tokens = field_or 0 msg.completion_tokens;
  generation_sec = field_or 0 msg.generation_sec;
  served_by = msg.model;
}

module _ (lib : Primitives) (settings : Settings) (now node_id : ℕ) where
  unfoldable pub assign : ℕ → App → Handled
  assign capacity app =
      let (units, store) =
        if capacity == 0
        then ([], app.batch_store)
        else lease settings now node_id (model_of node_id app.registry) capacity app.batch_store in
      record {
        app = record app { batch_store = store };
        replies = work_assignment (map payload units) ∷ [];
        raised = false;
      }

  unfoldable pub handle : NodeMessage → App → Handled
  unfolding handled raises
  handle (heartbeat cpu gpu sessions) app = handled (
      on_registry
        (update_heartbeat now node_id (field_or 0 cpu) (field_or 0 gpu) (field_or 0 sessions)) app)
  handle (model_loaded none) app = raises app
  handle (model_loaded (some model)) app =
      handled
        (on_metrics (node_ready now node_id) (on_registry (set_model_loaded node_id model) app))
  handle (generate_chunk session_id text) app =
      handled (on_sessions (on_session session_id (Inference.push_chunk (field_or "" text))) app)
  handle (generate_complete session_id finish_reason prompt completion) app = handled (
      on_sessions
        (on_session session_id (
          Inference.complete (field_or "stop" finish_reason) (field_or 0 prompt)
            (field_or 0 completion)))
        app)
  handle (generate_error session_id message) app = handled (
      on_sessions
        (on_session session_id (Inference.fail (field_or "node generation error" message))) app)
  handle (work_request capacity) app = assign (capacity_of capacity) app
  handle (work_result msg) app = elim msg.unit_id [
    | none ↦ raises app
    | some unit_id ↦
        handled (on_store (Report.complete lib now node_id (result_of unit_id msg)) app)
  ]
  handle (work_failed none message) app = raises app
  handle (work_failed (some unit_id) message) app = handled (
      on_store (Report.fail settings now node_id unit_id (field_or "node reported failure" message))
        app)
  handle (error message) app = handled app
  handle (register msg) app = handled app
  handle unknown app = handled app
