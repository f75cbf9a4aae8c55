-- ===== src/Session/Manager.antt =====
-- orchestrator/session.py: the manager of the sessions. The identifier that `uuid4` draws comes with
-- the session.
use fleet_lm.Base.{
  ℕ, Bool, false, Option, none, some, ◌==◌, if◌then◌else◌, count_if, Dict, lookup, insert, erase,
  modify, map_values, values,
}
use fleet_lm.Session.Data.{InferenceSession, is_active}
use fleet_lm.Session.Inference.{fail}

pub record SessionManager : Type 0 where
  pub sessions : Dict InferenceSession

unfoldable pub create : InferenceSession → SessionManager → SessionManager
create session m = record { sessions = insert session.id session m.sessions }

unfoldable pub get : ℕ → SessionManager → Option InferenceSession
get session_id m = lookup session_id m.sessions

-- `session = get(session_id); if session: ...`, on the object that the manager holds.
unfoldable pub on_session :
    Option ℕ → (InferenceSession → InferenceSession) → SessionManager → SessionManager
on_session none f m = m
on_session (some session_id) f m = record { sessions = modify session_id f m.sessions }

unfoldable pub remove : ℕ → SessionManager → SessionManager
remove session_id m = record { sessions = erase session_id m.sessions }

-- `session.node_id == node_id`
unfoldable pub served_by_node : ℕ → InferenceSession → Bool
served_by_node node_id s = elim s.node_id [ none ↦ false | some n ↦ n == node_id ]

unfoldable pub fail_if_served : ℕ → InferenceSession → InferenceSession
fail_if_served node_id s =
    if served_by_node node_id s then fail "serving node disconnected" s else s

unfoldable pub fail_sessions_for_node : ℕ → SessionManager → SessionManager
fail_sessions_for_node node_id m = record {
  sessions = map_values (fail_if_served node_id) m.sessions;
}

unfoldable pub active_count : SessionManager → ℕ
active_count m = count_if (λ s. is_active s.state) (values m.sessions)
