-- ===== src/Session/Data.antt =====
-- orchestrator/session.py: the data of a session.
use fleet_lm.Base.{ℕ, String, Bool, true, false, Option, List}

pub data SessionState : Type 0 where
  pending generating complete failed : SessionState

-- What stands in a session's queue.
pub data Event : Type 0 where
  chunk : String → Event
  done : Event
  error : String → Event

pub record InferenceSession : Type 0 where
  pub id : ℕ
  pub model : String
  pub node_id : Option ℕ
  pub state : SessionState
  pub max_tokens : ℕ
  pub temperature : ℕ
  pub finish_reason : Option String
  pub prompt_tokens : ℕ
  pub completion_tokens : ℕ
  pub events : List Event

-- `state in (COMPLETE, FAILED)`
unfoldable pub is_closed : SessionState → Bool
is_closed complete = true
is_closed failed = true
is_closed _ = false

-- `state in (PENDING, GENERATING)`
unfoldable pub is_active : SessionState → Bool
is_active pending = true
is_active generating = true
is_active _ = false
