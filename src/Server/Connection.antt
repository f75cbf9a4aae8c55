-- ===== src/Server/Connection.antt =====
-- orchestrator/api/nodes.py: `node_websocket`, one frame at a time. The frame that the handler waits
-- for comes with the time at which it comes. `compare_digest` is hmac's.
use fleet_lm.Base.{
  ℕ, String, Bool, not, ◌&&◌, Option, none, some, List, [], ◌∷◌, if◌then◌else◌, non_empty, or_text,
  lookup, insert,
}
use fleet_lm.Config.{Settings}
use fleet_lm.Metrics.{node_joined, node_left}
use fleet_lm.Verification.{Primitives}
use fleet_lm.Batch.Requeue.{release_node}
use fleet_lm.Fleet.Registry.{ConnectedNode, registering, add}
use fleet_lm.Fleet.Registry
use fleet_lm.Session.Manager.{fail_sessions_for_node}
use fleet_lm.Server.App.{
  App, Connection, awaiting, joined, closed, on_metrics, on_store, on_registry, on_sessions,
}
use fleet_lm.Server.Messages.{
  NodeMessage, register, RegisterMessage, Frame, text, malformed, bytes, disconnect, Reply,
  serve_model, refused,
}
use fleet_lm.Server.Handle.{field_or, Handled, handle}

unfoldable pub set_connection : ℕ → Connection → App → App
set_connection ws c app = record app { connections = insert ws c app.connections }

-- The `finally` clause for a node that has registered.
unfoldable pub leave : ℕ → ℕ → App → App
leave now node_id app = on_metrics (node_left now node_id) (
    on_registry (Registry.remove node_id) (
      on_store (λ s. (release_node node_id s).1)
        (on_sessions (fail_sessions_for_node node_id) app)))

unfoldable pub new_node : ℕ → ℕ → ℕ → RegisterMessage → ConnectedNode
new_node now ws node_id msg = record {
  node_id = node_id;
  ws = ws;
  gpu_name = field_or "unknown" msg.gpu_name;
  gpu_vram_mb = field_or 0 msg.gpu_vram_mb;
  runtime = field_or "native" msg.runtime;
  model_id = msg.model_id;
  status = registering;
  last_heartbeat = now;
  cpu_usage = 0;
  gpu_usage = 0;
  active_sessions = 0;
}

module _ (compare_digest : String → String → Bool) (settings : Settings) where
  -- Whether the token of a registration is refused.
  unfoldable pub bad_token : RegisterMessage → Bool
  bad_token msg =
      non_empty settings.join_token
      && not (compare_digest (field_or "" msg.join_token) settings.join_token)

  unfoldable pub join : ℕ → ℕ → ℕ → RegisterMessage → App → App × List Reply
  join now ws node_id msg app = (
    set_connection ws (joined node_id) (
        on_metrics (node_joined now node_id (field_or "unknown" msg.gpu_name))
          (on_registry (add (new_node now ws node_id msg)) app)),
    serve_model (or_text msg.model_id settings.default_model) ∷ [],
  )

  -- What a first message that is not accepted leaves: the connection is closed, nothing else.
  unfoldable pub turn_away : ℕ → List Reply → App → App × List Reply
  turn_away ws replies app = (set_connection ws closed app, replies)

  -- `msg["node_id"]`, which raises when it is missing.
  unfoldable pub enter : ℕ → ℕ → RegisterMessage → Option ℕ → App → App × List Reply
  enter now ws msg none app = turn_away ws [] app
  enter now ws msg (some node_id) app = join now ws node_id msg app

  unfoldable pub first_message : ℕ → ℕ → NodeMessage → App → App × List Reply
  first_message now ws (register msg) app =
      if bad_token msg
      then turn_away ws (refused "invalid join token" ∷ []) app
      else enter now ws msg msg.node_id app
  first_message now ws _ app =
      turn_away ws (refused "First message must be type: register" ∷ []) app

  -- The first frame is read by `receive_text`, which raises on anything but a text.
  unfoldable pub first_frame : ℕ → ℕ → Frame → App → App × List Reply
  first_frame now ws (text msg) app = first_message now ws msg app
  first_frame now ws _ app = turn_away ws [] app

module _ (lib : Primitives) (settings : Settings) (now ws node_id : ℕ) where
  unfoldable pub end_connection : App → App
  end_connection app = set_connection ws closed (leave now node_id app)

  -- After a message: an exception leaves the loop.
  unfoldable pub after_message : Handled → App × List Reply
  after_message h = (if h.raised then end_connection h.app else h.app, h.replies)

  unfoldable pub next_frame : Frame → App → App × List Reply
  next_frame (text msg) app = after_message (handle lib settings now node_id msg app)
  next_frame malformed app = (end_connection app, [])
  next_frame bytes app = (app, [])
  next_frame disconnect app = (end_connection app, [])

module _ (compare_digest : String → String → Bool) (lib : Primitives) (settings : Settings) where
  unfoldable pub on_connection : ℕ → ℕ → Frame → Option Connection → App → App × List Reply
  on_connection now ws frame (some awaiting) app =
      first_frame compare_digest settings now ws frame app
  on_connection now ws frame (some (joined node_id)) app =
      next_frame lib settings now ws node_id frame app
  on_connection now ws frame _ app = (app, [])

  unfoldable pub receive : ℕ → ℕ → Frame → App → App × List Reply
  receive now ws frame app = on_connection now ws frame (lookup ws app.connections) app
