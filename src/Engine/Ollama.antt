-- ===== src/Engine/Ollama.antt =====
-- node_agent/engine.py: `OllamaEngine`. What the daemon answers over HTTP, and how a call to it
-- raises, are parameters.
use fleet_lm.Base.{
  rstrip_slash, has_slashes, or_else, ℕ, String, code, Bool, true, false, not, ◌&&◌, ◌||◌, Option,
  none, some, List, [], ◌∷◌, map, ◌==◌, if◌then◌else◌, truthy, or_text, non_empty, same_text,
  concat,
}
use fleet_lm.Batch.Data.{Message}
use fleet_lm.Engine.{
  BatchItem, BatchOutput, blank_output, Attempt, raises, gives, LastTokens, Stream,
}

abbrev pub default_host : String
default_host = "http://localhost:11434"

-- `__init__`: the host asked for, or that of the environment, or the default.
unfoldable pub host_of : Option String → Option String → String
host_of host env =
    let raw = or_text (or_else host env) default_host in
    rstrip_slash (if has_slashes raw then raw else concat "http://" raw)

name_or : Option String → String
name_or none = ""
name_or (some name) = name

-- `available_models`, from the names in the answer to `/api/tags`.
unfoldable pub available_models : Attempt (List (Option String)) → Attempt (List String)
unfolding name_or
available_models (raises message) = raises message
available_models (gives names) = gives (map name_or names)

-- `ollama_is_running`
unfoldable pub ollama_is_running : Attempt (List (Option String)) → Bool
ollama_is_running (raises message) = false
ollama_is_running (gives names) = true

-- `text in texts`
unfoldable pub among : String → List String → Bool
among t [] = false
among t (x ∷ xs) = same_text (some t) (some x) || among t xs

-- `":" in text`
unfoldable pub has_colon : String → Bool
has_colon String.[] = false
has_colon (String.◌∷◌ c s) = code c == 58 || has_colon s

-- `_resolve`
unfoldable pub resolve : String → List String → Option String
resolve model_id available =
    let latest = concat model_id ":latest" in
    if among model_id available
    then some model_id
    else if not (has_colon model_id) && among latest available
    then some latest
    else none

-- `load`: the model served, or the exception, for a model that is not pulled or a daemon that does
-- not answer.
pub data Load : Type 0 where
  serving : (name : String) → Load
  not_pulled : (model_id : String) (available : List String) → Load
  unreachable : (message : String) → Load

load_from : String → List String → Option String → Load
load_from model_id available none = not_pulled model_id available
load_from model_id available (some name) = serving name

unfoldable pub load : String → Attempt (List String) → Load
unfolding load_from
load model_id (raises message) = unreachable message
load model_id (gives available) = load_from model_id available (resolve model_id available)

pub record Payload : Type 0 where
  pub model : Option String
  pub messages : List Message
  pub stream : Bool
  pub temperature : ℕ
  pub num_predict : ℕ

-- `_payload`
unfoldable pub payload : Option String → BatchItem → Bool → Payload
payload model_id item stream = record {
  model = model_id;
  messages = item.messages;
  stream = stream;
  temperature = item.temperature;
  num_predict = item.max_tokens;
}

-- A JSON object that the daemon sends, with the defaults of the fields it leaves out.
pub record Body : Type 0 where
  pub error : Option String
  pub content : String
  pub done : Bool
  pub prompt_eval_count : ℕ
  pub eval_count : ℕ

pub data Line : Type 0 where
  blank : Line
  unreadable : (message : String) → Line
  chunk : (body : Body) → Line

complaint : Body → String
complaint b = concat "ollama: " (or_text b.error "")

unfoldable pub counts_in : Body → LastTokens → LastTokens
counts_in b last =
    if b.done then record { prompt = b.prompt_eval_count; completion = b.eval_count } else last

-- The stream that yields a piece first, unless it is empty.
unfoldable pub yield_first : String → Stream → Stream
yield_first piece st = if non_empty piece then record st { pieces = piece ∷ st.pieces } else st

-- The loop over the lines of a reply, with the exception that ends the reply.
unfoldable pub read_lines : List Line → Option String → LastTokens → Stream
unfolding complaint
read_lines [] failure last = record { pieces = []; failure = failure; last = last }
read_lines (blank ∷ lines) failure last = read_lines lines failure last
read_lines (unreadable message ∷ lines) failure last = record {
  pieces = [];
  failure = some message;
  last = last;
}
read_lines (chunk b ∷ lines) failure last =
    let rest = read_lines lines failure (counts_in b last) in
    if truthy b.error
    then record { pieces = []; failure = some (complaint b); last = last }
    else yield_first b.content rest

module _ (chat : Payload → List Line × Option String) (model_id : Option String) where
  -- `generate_stream`
  unfoldable pub generate_stream : BatchItem → LastTokens → Stream
  generate_stream item last =
      let (lines, failure) = chat (payload model_id item true) in read_lines lines failure last

module _ (post : Payload → Attempt Body) (model_id : Option String) where
  output_from : Attempt Body → BatchOutput
  unfolding complaint
  output_from (raises message) = record blank_output { error = some message }
  output_from (gives b) =
      if truthy b.error then record blank_output { error = some (complaint b) } else record {
        text = b.content;
        prompt_tokens = b.prompt_eval_count;
        completion_tokens = b.eval_count;
        error = none;
      }

  -- `_complete`
  unfoldable pub complete : BatchItem → BatchOutput
  unfolding output_from
  complete item = output_from (post (payload model_id item false))

  -- `generate_batch`: the pool's `map` keeps the order, and a pool of no workers is refused.
  unfoldable pub generate_batch : List BatchItem → Attempt (List BatchOutput)
  generate_batch [] = raises "max_workers must be greater than 0"
  generate_batch (item ∷ items) = gives (map complete (item ∷ items))
