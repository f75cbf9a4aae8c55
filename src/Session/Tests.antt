-- ===== src/Session/Tests.antt =====
-- The theorems about sessions at a concrete generation, and runs of a stream.
use fleet_lm.Base.{ℕ, ◌≤◌, arith, none, some, ◌≡◌, refl, List, [], ◌∷◌, non_empty}
use fleet_lm.Session.Data.{InferenceSession, SessionState, is_closed}
use fleet_lm.Session.Inference.{put, push_chunk, complete, fail}
use fleet_lm.Session.Stream.{
  Round, End, pushes, completes, returned, apply, apply_all, take_from, take_event, pass, resume,
  stream, reported,
}
use fleet_lm.Session.Delivery.{texts_of, pushed, pushed_in, accounted, stream-delivers}
use fleet_lm.Session.Waiting.{Arrivals, due, wait_for, resume_at, clocked, clocked_ends}

abbrev fresh : ℕ → InferenceSession
fresh id = record {
  id = id;
  model = "llama";
  node_id = some 7;
  state = SessionState.pending;
  max_tokens = 256;
  temperature = 700_000;
  finish_reason = none;
  prompt_tokens = 0;
  completion_tokens = 0;
  events = [];
}

-- Two chunks come before the first wait ends, a third with the end.
abbrev two_and_one : List Round
two_and_one =
    record { now = 1; calls = pushes "a" ∷ pushes "b" ∷ [] }
    ∷ record { now = 2; calls = [] }
    ∷ record { now = 3; calls = pushes "c" ∷ completes "" 5 3 ∷ [] }
    ∷ record { now = 4; calls = [] }
    ∷ record { now = 9; calls = pushes "d" ∷ [] }
    ∷ []

unfoldable program : Unit {0}
unfolding stream resume pass take_event take_from apply_all apply push_chunk complete fail put
    texts_of pushed pushed_in is_closed non_empty reported
program = tt

streams_three : (stream 100 two_and_one (fresh 1)).texts ≡ "a" ∷ "b" ∷ "c" ∷ []
unfolding program
streams_three = refl

returns_once : (stream 100 two_and_one (fresh 1)).end ≡ some returned
unfolding program
returns_once = refl

stream-delivers_example : accounted (stream 100 two_and_one (fresh 1)) ≡ "a" ∷ "b" ∷ "c" ∷ "d" ∷ []
unfolding texts_of pushed pushed_in
stream-delivers_example = stream-delivers 100 two_and_one (fresh 1)

-- Two chunks arrive, then nothing for longer than the node may be silent.
abbrev silent : Arrivals
silent = (3, pushes "a") ∷ (5, pushes "b") ∷ (40, pushes "c") ∷ []

clocked_ends_example :
    let out = clocked 100 20 4 1 silent (fresh 1) in (e : End) × (out.end ≡ some e) × (out.at ≤ 100)
clocked_ends_example = clocked_ends 100 20 4 1 silent (fresh 1) (omega arith)

ends_in_silence : (clocked 100 20 4 1 silent (fresh 1)).at ≡ 25
unfolding clocked due wait_for resume_at take_event take_from apply push_chunk put fail is_closed
ends_in_silence = refl
