-- ===== src/Server/Tests/Requests.antt =====
-- The theorems about interactive requests inside the server, at a concrete history.
use mathlib.Core.Option
use fleet_lm.Base.{
  map, non_empty, concat, ℕ, true, false, none, some, ◌≡◌, refl, List, [], ◌∷◌, lookup,
}
use fleet_lm.Batch.Machine.{is_some}
use fleet_lm.Session.Manager.{get, on_session, create}
use fleet_lm.Session.Manager
use fleet_lm.Session.Stream.{apply, apply_all, pass, take_event, take_from, returned, Streamed}
use fleet_lm.Session.Inference.{put, push_chunk, complete, fail}
use fleet_lm.Fleet.Router.{pick_node, pick_from, least_loaded}
use fleet_lm.Fleet.Registry.{get_ready_nodes, eligible, node_objects}
use fleet_lm.Server.Messages.{text, register, model_loaded, generate_chunk, generate_complete}
use fleet_lm.Server.Serve.{opens, receives}
use fleet_lm.Server.Completions.{
  dispatch, dispatch_to, chat_completions, forget, conclude, new_session, one_more, one_less,
  count_end, answer_of,
}
use fleet_lm.Server.Events.{
  read_events, stream_response, last_events, text_and_reason, read_events-stream_response,
}
use fleet_lm.Session.Data.{SessionState}
use fleet_lm.Server.Requests.{
  Service, Arrival, reaches, asks, passes, arrive, arrive_all, take_off, take_next, take,
  after_pass, pass_at, drop_flight, receive_text,
}
use fleet_lm.Server.Requests.Steps.{open_service, AllAllowed, sessions_in_flight}
use fleet_lm.Server.Tests.{lib, settings, joining, digest_test, chat, program}

-- A node joins; one request is answered, and another waits.
abbrev arrivals : List (ℕ × Arrival)
arrivals =
    (1, reaches (opens 1))
    ∷ (2, reaches (receives 1 (text (register joining))))
    ∷ (3, reaches (receives 1 (text (model_loaded (some "llama")))))
    ∷ (4, asks 5 chat false true)
    ∷ (5, asks 6 chat true true)
    ∷ (6, reaches (receives 1 (text (generate_chunk (some 5) (some "red")))))
    ∷ (7, passes 5)
    ∷ (8, reaches (receives 1 (text (generate_complete (some 5) none (some 3) (some 1)))))
    ∷ (9, passes 5)
    ∷ []

unfoldable requests : Unit {0}
unfolding program arrive_all arrive take_off take_next take after_pass pass_at drop_flight
    receive_text get create on_session Manager.remove chat_completions dispatch_to dispatch
    new_session one_more one_less forget conclude count_end apply apply_all pass take_event
    take_from put push_chunk complete fail pick_node pick_from least_loaded get_ready_nodes eligible
    node_objects
requests = tt

arrivals_allowed : AllAllowed digest_test lib settings arrivals (open_service settings 0 none)
unfolding requests
arrivals_allowed = (tt, (tt, (tt, (refl, (refl, (tt, (tt, (tt, (tt, tt)))))))))

abbrev evening : Service
evening = arrive_all digest_test lib settings arrivals (open_service settings 0 none)

-- One request waits, and the other has its answer.
one_waits : is_some (lookup 6 evening.flights) ≡ true
unfolding requests
one_waits = refl

one_answered :
    map (λ a. read_events (stream_response a.out)) evening.answered ≡ some ("red", "stop") ∷ []
unfolding requests stream_response read_events last_events non_empty concat
one_answered = refl

sessions_in_flight_example :
    is_some (get 6 evening.app.session_manager) ≡ is_some (lookup 6 evening.flights)
sessions_in_flight_example =
    sessions_in_flight digest_test lib settings 0 none arrivals arrivals_allowed 6

abbrev heard : Streamed
heard = record {
  texts = "re" ∷ "d" ∷ [];
  end = some returned;
  session = record {
    id = 5;
    model = "llama";
    node_id = some 7;
    state = SessionState.complete;
    max_tokens = 256;
    temperature = 700_000;
    finish_reason = some "length";
    prompt_tokens = 3;
    completion_tokens = 2;
    events = [];
  };
  unused = [];
}

heard_red : read_events (stream_response heard) ≡ some ("red", "length")
unfolding requests stream_response read_events last_events concat
heard_red = refl

read_events-stream_response_example :
    read_events (stream_response heard) ≡ Option.map text_and_reason (answer_of heard)
read_events-stream_response_example = read_events-stream_response heard
