-- ===== src/Session/Inference.antt =====
-- orchestrator/session.py: what the node's connection calls on a session.
use fleet_lm.Base.{ℕ, String, some, [], ◌∷◌, ◌++◌, if◌then◌else◌, non_empty}
use fleet_lm.Session.Data.{SessionState, InferenceSession, Event, chunk, done, error, is_closed}

unfoldable pub put : Event → InferenceSession → InferenceSession
put e s = record s { events = s.events ++ e ∷ [] }

unfoldable pub push_chunk : String → InferenceSession → InferenceSession
unfolding put
push_chunk text s = put (chunk text) (record s { state = SessionState.generating })

unfoldable pub complete : String → ℕ → ℕ → InferenceSession → InferenceSession
unfolding put
complete finish_reason prompt_tokens completion_tokens s = put done (record s {
  state = SessionState.complete;
  finish_reason = some (if non_empty finish_reason then finish_reason else "stop");
  prompt_tokens = prompt_tokens;
  completion_tokens = completion_tokens;
})

unfoldable pub fail : String → InferenceSession → InferenceSession
unfolding put
fail message s =
    if is_closed s.state then s else put (error message) (record s { state = SessionState.failed })
