-- ===== src/CommandLine/Requests.antt =====
-- node_agent/cli.py: `_load_requests`. `json.loads` is a parameter; of an object, the fields that
-- the code looks at are kept.
pub mod Posted
pub mod Accepted
use fleet_lm.Base.{
  ℕ, suc, String, Bool, true, Option, none, some, List, [], ◌∷◌, if◌then◌else◌, non_empty, strip,
}
use fleet_lm.Batch.Data.{Message}
use fleet_lm.Engine.{Attempt, raises, gives}

-- A JSON value where the server wants one of this type: one that it takes, or another one, of which
-- only the truth value matters.
pub data Value (A : Type 0) : Type 0 where
  typed : A → Value A
  untyped : (truth : Bool) → Value A

pub record JsonObject : Type 0 where
  pub messages : Option (Value (List Message))
  pub prompt : Option (Value String)
  pub max_tokens : Option (Value ℕ)
  pub temperature : Option (Value ℕ)

-- A request as it is sent: nothing checks the types of its fields before the server does.
pub record Item : Type 0 where
  pub messages : Value (List Message)
  pub max_tokens : Value ℕ
  pub temperature : Value ℕ

pub data Json : Type 0 where
  object : JsonObject → Json
  string : String → Json
  other : Json

-- The options of the command that fill in for a field.
pub record Defaults : Type 0 where
  pub max_tokens : ℕ
  pub temperature : ℕ

pub data Problem : Type 0 where
  not_json : (line : ℕ) (message : String) → Problem
  no_prompt : (line : ℕ) → Problem

-- What a line holds.
pub data Reading : Type 0 where
  usable : Item → Reading
  unusable : Problem → Reading

user_says : String → List Message
user_says text = let m : Message = record { role = "user"; content = text } in m ∷ []

-- `obj.get(key, default)`
number_or : ℕ → Option (Value ℕ) → Value ℕ
number_or default none = typed default
number_or default (some v) = v

object_item : Defaults → JsonObject → Value (List Message) → Reading
unfolding number_or
object_item defaults o messages = usable (record {
  messages = messages;
  max_tokens = number_or defaults.max_tokens o.max_tokens;
  temperature = number_or defaults.temperature o.temperature;
})

-- The branch for `prompt`: its value becomes the content of a message, of whatever type it is.
read_prompt : Defaults → ℕ → JsonObject → Option (Value String) → Reading
unfolding object_item user_says
read_prompt defaults line o none = unusable (no_prompt line)
read_prompt defaults line o (some (typed text)) =
    if non_empty text
    then object_item defaults o (typed (user_says text))
    else unusable (no_prompt line)
read_prompt defaults line o (some (untyped truth)) =
    if truth then object_item defaults o (untyped true) else unusable (no_prompt line)

unfoldable pub read_object : Defaults → ℕ → JsonObject → Option (Value (List Message)) → Reading
unfolding object_item read_prompt
read_object defaults line o none = read_prompt defaults line o o.prompt
read_object defaults line o (some (typed [])) = read_prompt defaults line o o.prompt
read_object defaults line o (some (typed (m ∷ ms))) = object_item defaults o (typed (m ∷ ms))
read_object defaults line o (some (untyped truth)) =
    if truth then object_item defaults o (untyped true) else read_prompt defaults line o o.prompt

unfoldable pub read_line : Defaults → ℕ → Attempt Json → Reading
unfolding user_says
read_line defaults line (raises message) = unusable (not_json line message)
read_line defaults line (gives (object o)) = read_object defaults line o o.messages
read_line defaults line (gives (string text)) = usable (record {
  messages = typed (user_says text);
  max_tokens = typed defaults.max_tokens;
  temperature = typed defaults.temperature;
})
read_line defaults line (gives other) = unusable (no_prompt line)

unfoldable pub add_reading : Reading → List Item × List Problem → List Item × List Problem
add_reading (usable r) (requests, problems) = (r ∷ requests, problems)
add_reading (unusable p) (requests, problems) = (requests, p ∷ problems)

-- The lines from the number `line` on.
unfoldable pub load_lines :
    (String → Attempt Json) → Defaults → ℕ → List String → List Item × List Problem
load_lines json_loads defaults line [] = ([], [])
load_lines json_loads defaults line (raw ∷ raws) =
    let rest = load_lines json_loads defaults (suc line) raws in
    if non_empty (strip raw)
    then add_reading (read_line defaults line (json_loads (strip raw))) rest
    else rest

unfoldable pub load_requests :
    (String → Attempt Json) → Defaults → List String → List Item × List Problem
load_requests json_loads defaults lines = load_lines json_loads defaults 1 lines
