-- ===== src/Server/Requests.antt =====
-- orchestrator/api/completions.py inside the server: interactive requests between their dispatch and
-- their answer, while everything else reaches the server. A request waits for events of its session
-- in `session.stream`; each pass of that loop is a step of its own. The loop starts with the dispatch.
pub mod Called
pub mod Follows
pub mod Booked
pub mod Passes
pub mod Steps
use fleet_lm.Base.{
  ℕ, ◌+◌, ◌*◌, String, Bool, Option, none, some, List, [], ◌∷◌, ◌++◌, if◌then◌else◌, Dict, lookup,
  insert, erase, modify,
}
use fleet_lm.Config.{Settings, second}
use fleet_lm.Verification.{Primitives}
use fleet_lm.Session.Data.{InferenceSession}
use fleet_lm.Session.Manager.{get, on_session}
use fleet_lm.Session.Stream.{Pass, yields, ends, pass, Streamed}
use fleet_lm.Server.App.{App, on_sessions}
use fleet_lm.Server.Handle.{field_or}
use fleet_lm.Server.Completions.{
  ChatCompletionRequest, Dispatched, refuses, starts, forget, conclude, chat_completions,
}
use fleet_lm.Server.Serve.{Event, serve}

-- A request that waits for its session: the node's object and identifier, when its stream times out,
-- whether the answer is streamed, and the texts received so far.
pub record Flight : Type 0 where
  pub ws : ℕ
  pub node_id : ℕ
  pub deadline : ℕ
  pub streams : Bool
  pub texts : List String

pub record Answered : Type 0 where
  pub session_id : ℕ
  pub deadline : ℕ
  pub out : Streamed

pub record Service : Type 0 where
  pub app : App
  pub flights : Dict Flight
  pub answered : List Answered

-- A session that `chat_completions` starts names its node.
new_flight : ℕ → Bool → ℕ → InferenceSession → Flight
new_flight deadline streams ws s = record {
  ws = ws;
  node_id = field_or 0 s.node_id;
  deadline = deadline;
  streams = streams;
  texts = [];
}

-- The request holds its session under `session_id` while it waits.
unfoldable pub take_off : ℕ → ℕ → Bool → Dispatched → Service → Service
unfolding new_flight
take_off session_id deadline streams (refuses status why app) v = record v { app = app }
take_off session_id deadline streams (starts s ws app) v = record v {
  app = app;
  flights = insert session_id (new_flight deadline streams ws s) v.flights;
}

unfoldable pub receive_text : String → Flight → Flight
receive_text text f = record f { texts = f.texts ++ text ∷ [] }

-- What the request does after a pass: it goes on with the text, or answers and cleans up.
unfoldable pub after_pass : ℕ → Flight → Pass → InferenceSession → Service → Service
after_pass session_id f (yields text) s v = record v {
  app = on_sessions (on_session (some session_id) (λ _. s)) v.app;
  flights = modify session_id (receive_text text) v.flights;
}
after_pass session_id f (ends e) s v = record {
  app = conclude f.node_id f.ws e s v.app;
  flights = erase session_id v.flights;
  answered =
      v.answered
      ++ (record {
        session_id = session_id;
        deadline = f.deadline;
        out = record { texts = f.texts; end = some e; session = s; unused = [] };
      })
        ∷ [];
}

-- A pass at a time when the queue is as it is; with an empty queue, the wait has timed out.
unfoldable pub pass_at : ℕ → ℕ → InferenceSession → Pass × InferenceSession
pass_at deadline now s = pass deadline (record { now = now; calls = [] }) s

unfoldable pub take : ℕ → ℕ → Flight → Option InferenceSession → Service → Service
unfolding pass_at
take now session_id f none v = v
take now session_id f (some s) v =
    let (p, s') = pass_at f.deadline now s in after_pass session_id f p s' v

unfoldable pub take_next : ℕ → ℕ → Option Flight → Service → Service
take_next now session_id none v = v
take_next now session_id (some f) v = take now session_id f (get session_id v.app.session_manager) v

-- The client of a streaming answer goes away: the generator is closed at its wait, and its `finally`
-- clause runs. Nobody tells the handler of another request.
unfoldable pub drop_flight : ℕ → Option Flight → Service → Service
drop_flight session_id none v = v
drop_flight session_id (some f) v =
    if f.streams
    then record v { app = forget session_id f.ws v.app; flights = erase session_id v.flights }
    else v

pub data Arrival : Type 0 where
  reaches : (e : Event) → Arrival
  asks : (session_id : ℕ) (req : ChatCompletionRequest) (streams sent : Bool) → Arrival
  passes : (session_id : ℕ) → Arrival
  hangs_up : (session_id : ℕ) → Arrival

module _ (compare_digest : String → String → Bool) (lib : Primitives) (settings : Settings) where
  unfoldable pub arrive : ℕ × Arrival → Service → Service
  arrive (now, reaches e) v = record v { app = serve compare_digest lib settings (now, e) v.app }
  arrive (now, asks session_id req streams sent) v =
      take_off session_id (now + settings.generation_timeout_sec * second) streams
        (chat_completions session_id req sent v.app) v
  arrive (now, passes session_id) v = take_next now session_id (lookup session_id v.flights) v
  arrive (now, hangs_up session_id) v = drop_flight session_id (lookup session_id v.flights) v

  unfoldable pub arrive_all : List (ℕ × Arrival) → Service → Service
  arrive_all [] v = v
  arrive_all (a ∷ rest) v = arrive_all rest (arrive a v)
