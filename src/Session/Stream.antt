-- ===== src/Session/Stream.antt =====
-- orchestrator/session.py: `InferenceSession.stream`. One round is one pass of its loop: the calls
-- that reach the session since the pass before, up to the end of the wait for an event, and the
-- clock at the head of the loop. How long a wait lasts is in Waiting: until the queue holds an event,
-- or until the time-out of the wait.
use fleet_lm.Base.{
  ℕ, String, Option, none, some, List, [], ◌∷◌, ◌++◌, leb, if◌then◌else◌, non_empty,
}
use fleet_lm.Session.Data.{InferenceSession, Event, chunk, done, error}
use fleet_lm.Session.Inference.{push_chunk, complete, fail}

-- A call of the node's connection on the session.
pub data NodeCall : Type 0 where
  pushes : String → NodeCall
  completes : String → ℕ → ℕ → NodeCall
  fails : String → NodeCall

unfoldable pub apply : NodeCall → InferenceSession → InferenceSession
apply (pushes text) s = push_chunk text s
apply (completes finish_reason prompt completion) s = complete finish_reason prompt completion s
apply (fails message) s = fail message s

unfoldable pub apply_all : List NodeCall → InferenceSession → InferenceSession
apply_all [] s = s
apply_all (c ∷ cs) s = apply_all cs (apply c s)

pub record Round : Type 0 where
  pub now : ℕ
  pub calls : List NodeCall

-- The calls of the rounds, one after another.
unfoldable pub calls_in : List Round → List NodeCall
calls_in [] = []
calls_in (r ∷ rs) = r.calls ++ calls_in rs

-- How the generator ends: it returns, or `SessionFailure` leaves it.
pub data End : Type 0 where
  returned too_long no_output : End
  node_error : String → End

-- What one pass of the loop does.
pub data Pass : Type 0 where
  yields : String → Pass
  ends : End → Pass

-- `payload or "node reported an error"`
unfoldable pub reported : String → String
reported payload = if non_empty payload then payload else "node reported an error"

-- What the wait gives when the queue holds these events.
unfoldable pub take_from : List Event → InferenceSession → Pass × InferenceSession
take_from [] s = (ends no_output, fail "no output from node" s)
take_from (chunk text ∷ es) s = (yields text, record s { events = es })
take_from (done ∷ es) s = (ends returned, record s { events = es })
take_from (error payload ∷ es) s = (ends (node_error (reported payload)), record s { events = es })

unfoldable pub take_event : InferenceSession → Pass × InferenceSession
unfolding take_from
take_event s = take_from s.events s

unfoldable pub pass : ℕ → Round → InferenceSession → Pass × InferenceSession
pass deadline r s =
    let s' = apply_all r.calls s in
    if leb deadline r.now then (ends too_long, fail "generation timed out" s') else take_event s'

pub record Streamed : Type 0 where
  pub texts : List String
  pub end : Option End
  pub session : InferenceSession
  pub unused : List Round

-- The rest of the loop after a pass.
unfoldable pub resume : Pass → InferenceSession → List Round → Streamed → Streamed
resume (yields text) s rs rest = record rest { texts = text ∷ rest.texts }
resume (ends e) s rs rest = record { texts = []; end = some e; session = s; unused = rs }

unfoldable pub stream : ℕ → List Round → InferenceSession → Streamed
unfolding resume
stream deadline [] s = record { texts = []; end = none; session = s; unused = [] }
stream deadline (r ∷ rs) s =
    let (p, s') = pass deadline r s in resume p s' rs (stream deadline rs s')
