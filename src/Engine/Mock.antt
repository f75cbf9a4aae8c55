-- ===== src/Engine/Mock.antt =====
-- node_agent/engine.py: `MockEngine`.
pub mod Echo
use fleet_lm.Base.{
  ℕ, zero, suc, max, String, Char, code, Option, none, some, List, [], ◌∷◌, map, length, ◌==◌,
  if◌then◌else◌, same_text, concat,
}
use fleet_lm.Batch.Data.{Message}
use fleet_lm.Engine.{BatchItem, LastTokens, Stream}
use fleet_lm.Engine.LlamaCpp.{count_words}

-- The content of the last message of a user.
unfoldable pub last_user_from : String → List Message → String
last_user_from found [] = found
last_user_from found (m ∷ ms) =
    last_user_from (if same_text (some m.role) (some "user") then m.content else found) ms

unfoldable pub last_user : List Message → String
last_user = last_user_from ""

-- `text.split(" ")`
unfoldable pub add_char : Char → List String → List String
add_char c [] = String.◌∷◌ c String.[] ∷ []
add_char c (w ∷ ws) = String.◌∷◌ c w ∷ ws

unfoldable pub split_spaces : String → List String
split_spaces String.[] = String.[] ∷ []
split_spaces (String.◌∷◌ c s) =
    let words = split_spaces s in if code c == 32 then String.[] ∷ words else add_char c words

-- `words[:n]`
unfoldable pub first_words : ℕ → List String → List String
first_words zero ws = []
first_words (suc n) [] = []
first_words (suc n) (w ∷ ws) = w ∷ first_words n ws

-- The pieces: each word but the first has a space in front.
unfoldable pub spaced : List String → List String
spaced [] = []
spaced (w ∷ ws) = w ∷ map (concat " ") ws

shown : Option String → String
shown none = "None"
shown (some t) = t

unfoldable pub echo : Option String → List Message → String
unfolding shown
echo model_id messages =
    concat "[mock:" (concat (shown model_id) (concat "] You said: " (last_user messages)))

unfoldable pub generate_stream : Option String → BatchItem → LastTokens → Stream
generate_stream model_id item last =
    let words = first_words (max 1 item.max_tokens) (split_spaces (echo model_id item.messages)) in
    record {
      pieces = spaced words;
      failure = none;
      last = record { prompt = count_words item.messages; completion = length words };
    }
