-- ===== src/Session/Closing.antt =====
-- How sessions end with their node.
use fleet_lm.Base.{ℕ, Bool, false, some, ◌≡◌, if◌then◌else◌, arith, lookup-map_values}
use fleet_lm.Session.Data.{InferenceSession, SessionState, error, is_closed, is_active}
use fleet_lm.Session.Inference.{put, fail}
use fleet_lm.Session.Manager.{
  SessionManager, get, served_by_node, fail_if_served, fail_sessions_for_node,
}

abbrev pub is_served_active : ℕ → InferenceSession → Bool
unfolding served_by_node
is_served_active node_id s = if served_by_node node_id s then is_active s.state else false

-- When a node is lost, each of its sessions that was active has failed and has an error at the end
-- of its queue, and every other session is as it was.
pub get-fail_sessions_for_node :
    (k node_id : ℕ) (s : InferenceSession) (m : SessionManager)
    → get k m ≡ some s
    → get k (fail_sessions_for_node node_id m)
      ≡ some (
          if is_served_active node_id s
          then put (error "serving node disconnected") (record s { state = SessionState.failed })
          else s)
unfolding get fail_sessions_for_node fail_if_served fail served_by_node is_closed is_active
get-fail_sessions_for_node k node_id s m h =
    ground (arith, lookup-map_values k (fail_if_served node_id) m.sessions)
