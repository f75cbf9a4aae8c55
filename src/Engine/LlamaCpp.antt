-- ===== src/Engine/LlamaCpp.antt =====
-- node_agent/engine.py: `LlamaCppEngine.generate_stream`. The chunks that llama.cpp yields, with the
-- exception that ends them, are a parameter; a chunk is the content of its delta, if it has one.
use fleet_lm.Base.{
  ℕ, ◌+◌, String, Option, none, some, List, [], ◌∷◌, length, if◌then◌else◌, truthy, or_text, split,
}
use fleet_lm.Batch.Data.{Message}
use fleet_lm.Engine.{BatchItem, LastTokens, Stream}

-- `sum(len(m["content"].split()) for m in messages)`
unfoldable pub count_words : List Message → ℕ
count_words [] = 0
count_words (m ∷ ms) = length (split m.content) + count_words ms

-- The texts that the loop yields.
unfoldable pub yielded : List (Option String) → List String
yielded [] = []
yielded (content ∷ chunks) =
    let rest = yielded chunks in if truthy content then or_text content "" ∷ rest else rest

unfoldable pub counts_of : Option String → BatchItem → List String → LastTokens → LastTokens
counts_of (some message) item pieces last = last
counts_of none item pieces last = record {
  prompt = count_words item.messages;
  completion = length pieces;
}

module _ (create_chat_completion : BatchItem → List (Option String) × Option String) where
  unfoldable pub generate_stream : BatchItem → LastTokens → Stream
  unfolding counts_of
  generate_stream item last =
      let (chunks, failure) = create_chat_completion item in
      let pieces = yielded chunks in
      record { pieces = pieces; failure = failure; last = counts_of failure item pieces last }
