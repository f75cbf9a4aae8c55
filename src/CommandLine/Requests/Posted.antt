-- ===== src/CommandLine/Requests/Posted.antt =====
-- orchestrator/protocol.py: what pydantic makes of the items that the client sends, `BatchRequestItem`
-- and `BatchCreateRequest`, before orchestrator/api/batches.py sees them.
use fleet_lm.Base.{ℕ, String, Option, none, some, List, [], ◌∷◌}
use fleet_lm.Config.{Settings}
use fleet_lm.Batch.Data.{Request, Message}
use fleet_lm.Server.App.{App}
use fleet_lm.Server.Batches.{Created, failure, post_batch}
use fleet_lm.CommandLine.Requests.{Value, typed, Item}

unfoldable pub checked : Value (List Message) → Value ℕ → Value ℕ → Option Request
checked (typed messages) (typed max_tokens) (typed temperature) = some (record {
  messages = messages;
  model = none;
  max_tokens = max_tokens;
  temperature = temperature;
})
checked _ _ _ = none

-- An item whose fields all have their types; the client names no model in it.
unfoldable pub item_request : Item → Option Request
item_request i = checked i.messages i.max_tokens i.temperature

unfoldable pub add_request : Option Request → Option (List Request) → Option (List Request)
add_request (some r) (some rs) = some (r ∷ rs)
add_request _ _ = none

unfoldable pub create_requests : List Item → Option (List Request)
create_requests [] = some []
create_requests (i ∷ is) = add_request (item_request i) (create_requests is)

-- The body is checked as a whole, before the handler runs: where the check fails, it does not.
unfoldable pub post_items : Settings → ℕ → ℕ → (ℕ → ℕ) → Option String → List Item → App → Created
post_items settings now batch_id unit_id model items app = elim (create_requests items) [
  | none ↦ record { answer = failure 422 "validation_error"; told = []; app = app }
  | some requests ↦ post_batch settings now batch_id unit_id model requests app
]
