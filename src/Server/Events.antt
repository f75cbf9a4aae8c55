-- ===== src/Server/Events.antt =====
-- orchestrator/api/completions.py: `_stream_response`, the events of a streaming answer.
use mathlib.Core.Option
use fleet_lm.Base.{String, Option, none, some, ◌≡◌, refl, List, [], ◌∷◌, ◌++◌, map, or_text, concat}
use fleet_lm.Session.Data.{InferenceSession}
use fleet_lm.Session.Stream.{End, returned, too_long, no_output, node_error, Streamed}
use fleet_lm.Server.Completions.{Completion, completion_of, answer_of, joined_text}

pub data SseEvent : Type 0 where
  role : SseEvent
  content : (text : String) → SseEvent
  finish : (reason : String) → SseEvent
  failure : (why : End) → SseEvent
  done : SseEvent

-- What follows the texts; a stream that has not ended has no more events yet.
unfoldable pub last_events : Option End → InferenceSession → List SseEvent
last_events none s = []
last_events (some returned) s = finish (or_text s.finish_reason "stop") ∷ done ∷ []
last_events (some why) s = failure why ∷ done ∷ []

unfoldable pub stream_response : Streamed → List SseEvent
stream_response out = role ∷ (map content out.texts ++ last_events out.end out.session)

-- What a client keeps of a streaming answer: the texts joined, and the reason of the finish.
unfoldable pub read_events : List SseEvent → Option (String × String)
read_events [] = none
read_events (role ∷ es) = read_events es
read_events (content text ∷ es) =
    Option.map (λ (r : String × String). (concat text r.0, r.1)) (read_events es)
read_events (finish reason ∷ es) = some ("", reason)
read_events (failure why ∷ es) = none
read_events (done ∷ es) = none

read_contents :
    (texts : List String) (es : List SseEvent) (reason : String)
    → read_events es ≡ some ("", reason)
    → read_events (map content texts ++ es) ≡ some (joined_text texts, reason)
unfolding read_events joined_text
read_contents [] es reason h = h
read_contents (t ∷ ts) es reason h = rw (read_contents ts es reason h) refl

read_none :
    (texts : List String) (es : List SseEvent)
    → read_events es ≡ none
    → read_events (map content texts ++ es) ≡ none
unfolding read_events
read_none [] es h = h
read_none (t ∷ ts) es h = rw (read_none ts es h) refl

abbrev pub text_and_reason : Completion → String × String
text_and_reason c = (c.content, c.finish_reason)

read_response :
    (texts : List String) (e : Option End) (s : InferenceSession)
    → read_events (map content texts ++ last_events e s)
      ≡ Option.map text_and_reason
          (elim e [ some returned ↦ some (completion_of s texts) | _ ↦ none ])
unfolding last_events completion_of read_events
read_response texts none s = read_none texts [] refl
read_response texts (some returned) s =
    read_contents texts (last_events (some returned) s) (or_text s.finish_reason "stop") refl
read_response texts (some too_long) s = read_none texts _ refl
read_response texts (some no_output) s = read_none texts _ refl
read_response texts (some (node_error message)) s = read_none texts _ refl

-- A request gets the same answer whether it streams or not: a client that reads the events has the
-- text and the reason of the completion where there is one, and has no answer where the generation
-- fails or has not ended.
pub read_events-stream_response :
    (out : Streamed)
    → read_events (stream_response out) ≡ Option.map text_and_reason (answer_of out)
unfolding read_events stream_response answer_of
read_events-stream_response out = read_response out.texts out.end out.session
