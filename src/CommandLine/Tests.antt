-- ===== src/CommandLine/Tests.antt =====
-- The theorems about the command line at concrete inputs, and runs of it.
use fleet_lm.Base.{
  rstrip_slash, ends_with, show, show_digits, concat, ◌+◌, String, true, false, ◌⊎◌, none, some,
  ◌≡◌, ◌≢◌, ap, refl, List, [], ◌∷◌, arith, length, count_if, nth, non_empty, strip, same_text,
  if◌then◌else◌,
}
use fleet_lm.Config.{default_settings}
use fleet_lm.Batch.Data.{BatchState}
use fleet_lm.Batch.Status.{Counts}
use fleet_lm.Engine.{Attempt, raises, gives}
use fleet_lm.Server.App.{App, start_app}
use fleet_lm.Server.Batches.{BatchStatus, success, failure}
use fleet_lm.CommandLine.Requests.Posted.{post_items}
use fleet_lm.CommandLine.Urls.{UrlParts, ws_parts, ws_scheme, with_endpoint}
use fleet_lm.CommandLine.Requests.{
  Json, string, Defaults, read_line, add_reading, load_lines, load_requests,
}
use fleet_lm.CommandLine.Requests.Accepted.{is_blank_free, all_typed, load_requests-accepted}
use fleet_lm.CommandLine.Submit.{Poll, answered, dropped, poll_batch, finished, gave_up}
use fleet_lm.CommandLine.Polling.{
  drops_first, five_in_row, is_interrupted, first_end, poll_batch-survives,
}
use fleet_lm.CommandLine.Workload.{pool_prompt, bench_content}

abbrev pasted : UrlParts
pasted = record { scheme = "https"; netloc = "fleet.example.com"; path = "/a/" }

-- The address of a node's socket at that host.
joined_url :
    ws_parts pasted ≡ record { scheme = "wss"; netloc = "fleet.example.com"; path = "/a/nodes/ws" }
unfolding ws_parts ws_scheme same_text rstrip_slash with_endpoint ends_with concat non_empty
joined_url = refl

-- A parser that reads every text but "oops" as a JSON string.
abbrev json_loads : String → Attempt Json
unfolding same_text
json_loads text =
    if same_text (some text) (some "oops") then raises "Expecting value" else gives (string text)

abbrev defaults : Defaults
defaults = record { max_tokens = 256; temperature = 700_000 }

abbrev lines : List String
lines = "a color" ∷ "  " ∷ "oops" ∷ "a fruit" ∷ []

abbrev app : App
app = start_app default_settings 0 none

two_requests : length (load_requests json_loads defaults lines).0 ≡ 2
unfolding load_requests load_lines add_reading read_line strip non_empty same_text
two_requests = refl

some_requests : (load_requests json_loads defaults lines).0 ≢ []
some_requests e = omega (arith, two_requests, ap length e)

load_requests-accepted_example :
    let (items, problems) = load_requests json_loads defaults lines in
    let posted = post_items default_settings 5 1 (λ i. i + 10) none items app in
    ((all_typed items ≡ false)
      × (posted.answer ≡ failure 422 "validation_error")
      × (posted.app ≡ app))
    ⊎ ((all_typed items ≡ true)
        × (st : BatchStatus) × (c : Counts) × (posted.answer ≡ success 201 st)
        × (st.request_counts ≡ some c)
        × (c.total + length problems ≡ count_if is_blank_free lines))
load_requests-accepted_example =
    load_requests-accepted json_loads defaults lines default_settings 5 1 (λ i. i + 10) none app
      some_requests (omega (arith, two_requests))

-- The items of that file have their types.
lines_typed : all_typed (load_requests json_loads defaults lines).0 ≡ true
unfolding load_requests load_lines add_reading read_line strip non_empty same_text all_typed
lines_typed = refl

abbrev running : BatchStatus
running = record {
  id = 1;
  status = BatchState.in_progress;
  model = none;
  created_at = 5;
  completed_at = none;
  request_counts = none;
  usage = none;
}

abbrev ended : BatchStatus
ended = record running { status = BatchState.completed }

abbrev polls : List Poll
polls = dropped ∷ dropped ∷ answered running ∷ dropped ∷ answered ended ∷ []

poll_batch-survives_example :
    (poll_batch running polls ≢ gave_up)
    × ((st : BatchStatus)
        → is_interrupted polls ≡ false
        → first_end polls ≡ some st
        → poll_batch running polls ≡ finished st)
unfolding five_in_row drops_first
poll_batch-survives_example = poll_batch-survives running polls refl refl

second_prompt : bench_content 1 ≡ "What is the capital of Japan? (#1)"
unfolding bench_content pool_prompt nth concat show show_digits
second_prompt = refl
