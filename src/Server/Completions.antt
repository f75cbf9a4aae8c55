-- ===== src/Server/Completions.antt =====
-- orchestrator/api/completions.py: an interactive request, from its dispatch to a node up to the
-- `finally` clause that forgets its session. The request holds the node's object, which `ws` names,
-- and its session's. The dispatch takes no time here: nothing else runs while the frame is sent.
use fleet_lm.Base.{
  ℕ, ◌+◌, ◌-◌, String, Bool, Option, none, some, List, [], ◌∷◌, if◌then◌else◌, truthy, or_text,
  or_else, concat,
}
use fleet_lm.Metrics.{session_completed, session_failed}
use fleet_lm.Batch.Data.{Message}
use fleet_lm.Fleet.Registry.{ConnectedNode, NodeRegistry, on_object, served_models}
use fleet_lm.Fleet.Router.{pick_node}
use fleet_lm.Session.Data.{InferenceSession, SessionState}
use fleet_lm.Session.Manager.{create}
use fleet_lm.Session.Manager
use fleet_lm.Session.Stream.{End, returned, Streamed}
use fleet_lm.Server.App.{App, on_metrics, on_registry, on_sessions}

pub record ChatCompletionRequest : Type 0 where
  pub model : Option String
  pub messages : List Message
  pub temperature : ℕ
  pub max_tokens : ℕ

pub data Refusal : Type 0 where
  not_served : (model : Option String) (served : List String) → Refusal
  no_node : Refusal
  unreachable : Refusal

-- How a dispatch ends: with an error answer, or with a session at a node's object.
pub data Dispatched : Type 0 where
  refuses : (status : ℕ) (why : Refusal) (app : App) → Dispatched
  starts : (session : InferenceSession) (ws : ℕ) (app : App) → Dispatched

no_capacity : Option String → List String → Refusal
no_capacity model [] = no_node
no_capacity model (m ∷ ms) = if truthy model then not_served model (m ∷ ms) else no_node

-- `node.active_sessions += 1`
unfoldable pub one_more : ConnectedNode → ConnectedNode
one_more n = record n { active_sessions = n.active_sessions + 1 }

-- `node.active_sessions = max(0, node.active_sessions - 1)`
unfoldable pub one_less : ConnectedNode → ConnectedNode
one_less n = record n { active_sessions = n.active_sessions - 1 }

-- `model=node.model_id or req.model`; a ready node has a model.
unfoldable pub new_session : ℕ → ChatCompletionRequest → ConnectedNode → InferenceSession
new_session session_id req n = record {
  id = session_id;
  model = or_text (or_else n.model_id req.model) "";
  node_id = some n.node_id;
  state = SessionState.pending;
  max_tokens = req.max_tokens;
  temperature = req.temperature;
  finish_reason = none;
  prompt_tokens = 0;
  completion_tokens = 0;
  events = [];
}

-- The session and the load of the node, once the request is given up or answered. The code lowers the
-- load by `max(0, n - 1)` here, and by `n - 1` where the dispatch fails: right after it was raised,
-- which is the same.
unfoldable pub forget : ℕ → ℕ → App → App
forget session_id ws app =
    on_sessions (Manager.remove session_id) (on_registry (on_object ws one_less) app)

-- The `finally` clause behind a stream, with what the stream's end counts.
unfoldable pub count_end : ℕ → End → InferenceSession → App → App
count_end node_id returned s app =
    on_metrics (session_completed node_id s.prompt_tokens s.completion_tokens) app
count_end node_id _ s app = on_metrics (session_failed node_id) app

unfoldable pub conclude : ℕ → ℕ → End → InferenceSession → App → App
conclude node_id ws e s app = forget s.id ws (count_end node_id e s app)

-- Sends the request to the node; `sent` tells whether the socket took it.
unfoldable pub dispatch : ℕ → ChatCompletionRequest → Bool → ConnectedNode → App → Dispatched
unfolding new_session
dispatch session_id req sent n app =
    let s = new_session session_id req n in
    let app' = on_registry (on_object n.ws one_more) (on_sessions (create s) app) in
    if sent then starts s n.ws app' else refuses 502 unreachable (forget session_id n.ws app')

-- What follows the router's choice.
unfoldable pub dispatch_to :
    ℕ → ChatCompletionRequest → Bool → Option ConnectedNode → App → Dispatched
unfolding no_capacity
dispatch_to session_id req sent none app =
    refuses 503 (no_capacity req.model (served_models app.registry)) app
dispatch_to session_id req sent (some n) app = dispatch session_id req sent n app

unfoldable pub chat_completions : ℕ → ChatCompletionRequest → Bool → App → Dispatched
chat_completions session_id req sent app =
    dispatch_to session_id req sent (pick_node req.model app.registry) app

-- The answer of a request that does not stream: `"".join(parts)`, and why the generation ended.
unfoldable pub joined_text : List String → String
joined_text [] = ""
joined_text (t ∷ ts) = concat t (joined_text ts)

pub record Completion : Type 0 where
  pub session_id : ℕ
  pub model : String
  pub content : String
  pub finish_reason : String
  pub prompt_tokens : ℕ
  pub completion_tokens : ℕ
  pub total_tokens : ℕ

unfoldable pub completion_of : InferenceSession → List String → Completion
completion_of s parts = record {
  session_id = s.id;
  model = s.model;
  content = joined_text parts;
  finish_reason = or_text s.finish_reason "stop";
  prompt_tokens = s.prompt_tokens;
  completion_tokens = s.completion_tokens;
  total_tokens = s.prompt_tokens + s.completion_tokens;
}

-- `none` is the 502 answer.
unfoldable pub answer_of : Streamed → Option Completion
answer_of out = elim out.end [
  | some returned ↦ some (completion_of out.session out.texts)
  | _ ↦ none
]

-- `list_models`
unfoldable pub list_models : String → NodeRegistry → List String
list_models default_model r = elim (served_models r) [ [] ↦ default_model ∷ [] | m ∷ ms ↦ m ∷ ms ]
