-- ===== src/Engine/Mlx.antt =====
-- node_agent/engine.py: `MlxEngine`. The functions of mlx-lm and of the tokenizer are parameters.
pub mod Groups
pub mod Slots
pub mod Batched
use fleet_lm.Base.{
  ℕ, suc, String, Bool, Option, none, some, List, [], ◌∷◌, ◌++◌, map, ltb, if◌then◌else◌, length,
  Dict, lookup, insert, nth, set_nth,
}
use fleet_lm.Batch.Data.{Message}
use fleet_lm.Engine.{
  BatchItem, BatchOutput, blank_output, Attempt, raises, gives, LastTokens, Stream, generate_one,
  generate_each,
}

-- What `apply_chat_template` returns: token ids, or a text with some wrappers.
pub data Templated : Type 0 where
  tokens : (ids : List ℕ) → Templated
  as_text : (text : String) → Templated

-- One response of `stream_generate`.
pub record Response : Type 0 where
  pub text : String
  pub prompt_tokens : ℕ
  pub generation_tokens : ℕ

-- The sampler's temperature, where mlx-lm has samplers.
abbrev pub Sampler : Type 0
Sampler = Option ℕ

abbrev pub BatchGenerate : Type 0
BatchGenerate = List (List ℕ) → List ℕ → Sampler → Attempt (List String)

abbrev pub Prompts : Type 0
Prompts = List (List ℕ) × List ℕ

unfoldable pub add_prompt : ℕ → Attempt (List ℕ) → Attempt Prompts → Attempt Prompts
add_prompt limit (raises message) rest = raises message
add_prompt limit (gives prompt) (raises message) = raises message
add_prompt limit (gives prompt) (gives (prompts, limits)) = gives (prompt ∷ prompts, limit ∷ limits)

-- mlx-lm with a model and its tokenizer. `batch_generate` is missing from older versions.
pub record MlxLib : Type 0 where
  pub apply_chat_template : List Message → Attempt Templated
  pub encode : String → List ℕ
  pub encode_plain : String → List ℕ
  pub has_samplers : Bool
  pub stream_generate : List ℕ → ℕ → Sampler → List Response × Option String
  pub batch_generate : Option BatchGenerate

-- `groups.setdefault(item.temperature, []).append(i)`, from the index `i` on.
unfoldable pub add_index : ℕ → ℕ → Dict (List ℕ) → Dict (List ℕ)
add_index temperature i groups = elim (lookup temperature groups) [
  | none ↦ insert temperature (i ∷ []) groups
  | some idxs ↦ insert temperature (idxs ++ i ∷ []) groups
]

unfoldable pub group_items : ℕ → List BatchItem → Dict (List ℕ) → Dict (List ℕ)
group_items i [] groups = groups
group_items i (item ∷ items) groups =
    group_items (suc i) items (add_index item.temperature i groups)

-- The last response sets the engine's counts; without one they stay.
unfoldable pub counts_after : List Response → LastTokens → LastTokens
counts_after [] last = last
counts_after (r ∷ rs) last =
    counts_after rs (record { prompt = r.prompt_tokens; completion = r.generation_tokens })

-- An exception leaves the counts as they were.
unfoldable pub stream_from : List Response × Option String → LastTokens → Stream
stream_from (rs, none) last = record {
  pieces = map (λ r. r.text) rs;
  failure = none;
  last = counts_after rs last;
}
stream_from (rs, some message) last = record {
  pieces = map (λ r. r.text) rs;
  failure = some message;
  last = last;
}

module _ (lib : MlxLib) where
  to_tokens : Templated → List ℕ
  to_tokens (tokens ids) = ids
  to_tokens (as_text text) = lib.encode text

  -- `_encode_prompt`
  unfoldable pub encode_prompt : List Message → Attempt (List ℕ)
  unfolding to_tokens
  encode_prompt messages = elim (lib.apply_chat_template messages) [
    | raises message ↦ raises message
    | gives t ↦ gives (to_tokens t)
  ]

  -- `_sampler_kwargs`
  unfoldable pub sampler_of : ℕ → Sampler
  sampler_of temperature = if lib.has_samplers then some temperature else none

  -- `generate_stream`
  unfoldable pub generate_stream : BatchItem → LastTokens → Stream
  unfolding stream_from
  generate_stream item last = elim (encode_prompt item.messages) [
    | raises message ↦ record { pieces = []; failure = some message; last = last }
    | gives prompt ↦
        stream_from (lib.stream_generate prompt item.max_tokens (sampler_of item.temperature)) last
  ]

  -- The prompts and the token limits of a group, as `_decode_group` collects them.
  unfoldable pub add_item : Option BatchItem → Attempt Prompts → Attempt Prompts
  unfolding add_prompt
  add_item none rest = raises "list index out of range"
  add_item (some item) rest = add_prompt item.max_tokens (encode_prompt item.messages) rest

  unfoldable pub collect : List BatchItem → List ℕ → Attempt Prompts
  collect items [] = gives ([], [])
  collect items (i ∷ idxs) = add_item (nth i items) (collect items idxs)

  unfoldable pub decoded : List ℕ → String → BatchOutput
  decoded prompt text = record {
    text = text;
    prompt_tokens = length prompt;
    completion_tokens = length (lib.encode_plain text);
    error = none;
  }

  -- The loop over the slots of a response, with the exception of a missing text.
  unfoldable pub fill_slots :
      List ℕ → List (List ℕ) → List String → List BatchOutput → List BatchOutput × Option String
  fill_slots [] prompts texts outs = (outs, none)
  fill_slots (i ∷ idxs) (prompt ∷ prompts) (text ∷ texts) outs =
      fill_slots idxs prompts texts (set_nth i (decoded prompt text) outs)
  fill_slots (i ∷ idxs) _ _ outs = (outs, some "list index out of range")

  -- `_decode_group`, with the exception that it raises.
  unfoldable pub decode_group :
      BatchGenerate
      → List BatchItem
      → List ℕ
      → List BatchOutput
      → ℕ
      → List BatchOutput × Option String
  decode_group batch_generate items idxs outs temperature = elim (collect items idxs) [
    | raises message ↦ (outs, some message)
    | gives (prompts, limits) ↦ elim (batch_generate prompts limits (sampler_of temperature)) [
      | raises message ↦ (outs, some message)
      | gives texts ↦ fill_slots idxs prompts texts outs
    ]
  ]

  -- `for i in idxs: outputs[i] = self._generate_one(items[i])`
  unfoldable pub fall_back :
      List BatchItem → List ℕ → List BatchOutput → LastTokens → List BatchOutput × LastTokens
  fall_back items [] outs last = (outs, last)
  fall_back items (i ∷ idxs) outs last = elim (nth i items) [
    | none ↦ (outs, last)
    | some item ↦
        let (out, last') = generate_one generate_stream item last in
        fall_back items idxs (set_nth i out outs) last'
  ]

  -- One group: a batched decode that raises is done again item by item.
  unfoldable pub after_decode :
      List BatchItem
      → List ℕ
      → List BatchOutput × Option String
      → LastTokens
      → List BatchOutput × LastTokens
  after_decode items idxs (outs, none) last = (outs, last)
  after_decode items idxs (outs, some message) last = fall_back items idxs outs last

  unfoldable pub run_groups :
      BatchGenerate
      → List BatchItem
      → Dict (List ℕ)
      → List BatchOutput
      → LastTokens
      → List BatchOutput × LastTokens
  unfolding after_decode
  run_groups batch_generate items [] outs last = (outs, last)
  run_groups batch_generate items ((temperature, idxs) ∷ groups) outs last =
      let (outs', last') =
        after_decode items idxs (decode_group batch_generate items idxs outs temperature) last in
      run_groups batch_generate items groups outs' last'

  -- The decode by groups, where mlx-lm has `batch_generate`.
  unfoldable pub batched_with :
      Option BatchGenerate → List BatchItem → LastTokens → List BatchOutput × LastTokens
  batched_with none items last = generate_each generate_stream items last
  batched_with (some batch_generate) items last =
      run_groups batch_generate items (group_items 0 items []) (map (λ item. blank_output) items)
        last

  -- `generate_batch`
  unfoldable pub generate_batch : List BatchItem → LastTokens → List BatchOutput × LastTokens
  generate_batch items last =
      if ltb (length items) 2
      then generate_each generate_stream items last
      else batched_with lib.batch_generate items last
