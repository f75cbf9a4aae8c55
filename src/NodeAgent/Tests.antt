-- ===== src/NodeAgent/Tests.antt =====
-- The theorems about a node's agent at a concrete batch, and runs of it.
use fleet_lm.Base.{
  filter, contains, nth, map, ℕ, false, truthy, non_empty, none, some, lookup, ◌≡◌, refl, List, [],
  ◌∷◌, arith, or_text, length,
}
use fleet_lm.Batch.Data.{Payload}
use fleet_lm.Config.{default_settings}
use fleet_lm.Verification.{Primitives}
use fleet_lm.Engine.{BatchItem, BatchOutput, LastTokens, Stream, glue, generate_one}
use fleet_lm.Session.Data.{InferenceSession, SessionState}
use fleet_lm.Session.Inference
use fleet_lm.Session.Manager
use fleet_lm.Session.Stream.{
  Round, pushes, completes, apply, apply_all, pass, take_event, take_from, resume, returned, stream,
}
use fleet_lm.Server.App.{App, start_app}
use fleet_lm.NodeAgent.{
  NodeAgent, outputs, put, request_work, load_model, load_model_when, take_assignment, first_units,
  start_batch_from, start_batch, report_unit, report_units, fail_units, messages_for, end_batch,
  finish_batch,
}
use fleet_lm.NodeAgent.Asking.{asks, last_asked}
use fleet_lm.NodeAgent.Backlog.{
  Step, loads, is_assigned, is_nudged, starts, finishes, step, run, IsBounded, AllAllowed,
  run-IsBounded,
}
use fleet_lm.Server.Messages.{generate_chunk}
use fleet_lm.NodeAgent.Connection.{
  Late, emits_late, ends_late, lost, serves, connect, IsFresh, connect-IsFresh,
}
use fleet_lm.NodeAgent.Generation.{produce, ending_call, calls_of, handle_all, handle_all-produce}
use fleet_lm.Session.Stream.{calls_in}
use fleet_lm.NodeAgent.Answer.{stream-generate_one}
use fleet_lm.NodeAgent.Delivered.{frame_of, after_report, reports-delivered}
use fleet_lm.Batch.Data.{WorkUnit, UnitState, new_store}

abbrev fresh : NodeAgent
fresh = record {
  model_id = "llama";
  batch_size = 2;
  is_loaded = false;
  active_sessions = 0;
  outbox = [];
  work_queue = [];
  running = [];
  work_in_progress = 0;
  work_request_inflight = false;
}

abbrev unit : ℕ → Payload
unit k = record { unit_id = k; messages = []; max_tokens = 256; temperature = 700_000 }

abbrev good : BatchOutput
good = record { text = "red"; prompt_tokens = 3; completion_tokens = 1; error = none }

abbrev bad : BatchOutput
bad = record { text = ""; prompt_tokens = 0; completion_tokens = 0; error = some "too long" }

abbrev busy : List Step
busy =
    loads
    ∷ is_assigned (unit 1 ∷ unit 2 ∷ [])
    ∷ starts
    ∷ is_nudged
    ∷ is_assigned (unit 3 ∷ [])
    ∷ finishes (outputs none (good ∷ bad ∷ []))
    ∷ []

unfoldable program : Unit {0}
unfolding run step load_model load_model_when put request_work take_assignment start_batch
    start_batch_from first_units finish_batch end_batch messages_for report_units report_unit
    fail_units last_asked asks truthy non_empty or_text
program = tt

busy_allowed : AllAllowed busy fresh
unfolding program
busy_allowed = (tt, (omega arith, (tt, (tt, (omega arith, (tt, tt))))))

run-IsBounded_example : IsBounded (run busy fresh)
run-IsBounded_example =
    run-IsBounded busy fresh busy_allowed
      (record { backlog = omega arith; batch = omega arith; counted = refl })

holds_one : length (run busy fresh).work_queue ≡ 1
unfolding program
holds_one = refl

-- The third unit waits when the connection is lost.
-- A generation yields a piece after the connection is lost, and ends.
abbrev after_loss : List Late
after_loss = emits_late (generate_chunk (some 9) (some "red")) ∷ ends_late ∷ []

connect-IsFresh_example :
    IsFresh [] after_loss (connect (serves busy (lost none) [] after_loss) fresh)
connect-IsFresh_example =
    connect-IsFresh busy (lost none) [] after_loss fresh busy_allowed
      (record { backlog = omega arith; batch = omega arith; counted = refl })

abbrev question : BatchItem
question = record { messages = []; max_tokens = 8; temperature = 700_000 }

-- An engine that yields two pieces, and one that raises.
abbrev two_pieces : BatchItem → LastTokens → Stream
two_pieces item last = record {
  pieces = "re" ∷ "" ∷ "d" ∷ [];
  failure = none;
  last = record { prompt = 3; completion = 2 };
}

abbrev no_tokens : LastTokens
no_tokens = record { prompt = 0; completion = 0 }

abbrev session : InferenceSession
session = record {
  id = 9;
  model = "llama";
  node_id = some 7;
  state = SessionState.pending;
  max_tokens = 8;
  temperature = 700_000;
  finish_reason = none;
  prompt_tokens = 0;
  completion_tokens = 0;
  events = [];
}

abbrev lib : Primitives
lib = record { digest = λ t. t; ratio = λ a b. 0 }

abbrev app : App
app = record (start_app default_settings 0 none) {
  session_manager = record { sessions = (9, session) ∷ [] };
}

handle_all-produce_example :
    Manager.get 9
      (handle_all lib default_settings 5 7
        (produce 9 (two_pieces question no_tokens))
        app).session_manager
    ≡ some (apply_all (calls_of (two_pieces question no_tokens)) session)
unfolding Manager.get lookup
handle_all-produce_example =
    handle_all-produce lib default_settings 5 7 9 (two_pieces question no_tokens) app

-- The two chunks come in one round, the end in a later one.
abbrev rounds : List Round
rounds =
    record { now = 1; calls = pushes "re" ∷ pushes "d" ∷ [] }
    ∷ record { now = 2; calls = [] }
    ∷ record { now = 3; calls = completes "stop" 3 2 ∷ [] }
    ∷ []

rounds_are_calls : calls_in rounds ≡ calls_of (two_pieces question no_tokens)
unfolding calls_in calls_of filter ending_call non_empty
rounds_are_calls = refl

stream_returned : (stream 100 rounds session).end ≡ some returned
unfolding stream pass take_event take_from resume apply_all apply Inference.push_chunk
    Inference.complete Inference.put
stream_returned = refl

stream-generate_one_example :
    let out = (generate_one two_pieces question no_tokens).0 in
    (out.error ≡ none) × (glue (stream 100 rounds session).texts ≡ out.text)
stream-generate_one_example =
    stream-generate_one two_pieces question no_tokens 100 rounds session refl rounds_are_calls
      stream_returned

abbrev leased_unit : ℕ → WorkUnit
leased_unit k = record {
  id = k;
  batch_id = 1;
  index = k;
  messages = [];
  model = none;
  max_tokens = 256;
  temperature = 700_000;
  state = UnitState.leased;
  attempts = 1;
  node_id = some 7;
  lease_expires_at = 90;
  created_at = 1;
  leased_at = 2;
  result_text = none;
  error = none;
  prompt_tokens = 0;
  completion_tokens = 0;
  served_by = none;
}

abbrev leased_app : App
leased_app = record app {
  batch_store = record (new_store none none) {
    units = (1, leased_unit 1) ∷ (2, leased_unit 2) ∷ [];
  };
}

-- The second of two units, whose output is an error.
reports-delivered_example :
    let frames =
      map (frame_of 0 4 "llama") (report_units "llama" (unit 1 ∷ unit 2 ∷ []) (good ∷ bad ∷ [])) in
    lookup 2 (handle_all lib default_settings 5 7 frames leased_app).batch_store.units
    ≡ some (after_report default_settings 7 4 "llama" (unit 2) bad (leased_unit 2))
unfolding lookup contains nth
reports-delivered_example =
    reports-delivered lib default_settings 5 7 0 4 "llama" "llama" (unit 1 ∷ unit 2 ∷ [])
      (good ∷ bad ∷ []) leased_app 1 (unit 2) bad (leased_unit 2) (refl, (refl, tt)) refl refl refl
      refl
