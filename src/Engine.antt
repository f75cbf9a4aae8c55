-- ===== src/Engine.antt =====
-- node_agent/engine.py: the shared part of the engines. A stream is what one generation yields: its
-- pieces in order, the exception that ends it, if any, and the engine's token counts afterwards.
pub mod Mlx
pub mod LlamaCpp
pub mod Ollama
pub mod Mock
pub mod Choice
mod Tests
use fleet_lm.Base.{ℕ, String, Option, none, some, List, [], ◌∷◌, concat, ◌≡◌, refl, ◌⊎◌, inl, inr}
use fleet_lm.Batch.Data.{Message}

pub record BatchItem : Type 0 where
  pub messages : List Message
  pub max_tokens : ℕ
  pub temperature : ℕ

pub record BatchOutput : Type 0 where
  pub text : String
  pub prompt_tokens : ℕ
  pub completion_tokens : ℕ
  pub error : Option String

abbrev pub blank_output : BatchOutput
blank_output = record { text = ""; prompt_tokens = 0; completion_tokens = 0; error = none }

-- A call that may raise.
pub data Attempt {ℓ} (A : Type ℓ) : Type ℓ where
  raises : (message : String) → Attempt A
  gives : A → Attempt A

pub Attempt-cases {ℓ} :
    {A : Type ℓ} (a : Attempt A)
    → ((message : String) × (a ≡ raises message)) ⊎ ((x : A) × (a ≡ gives x))
Attempt-cases (raises message) = inl (message, refl)
Attempt-cases (gives x) = inr (x, refl)

-- `last_prompt_tokens` and `last_completion_tokens`
pub record LastTokens : Type 0 where
  pub prompt : ℕ
  pub completion : ℕ

pub record Stream : Type 0 where
  pub pieces : List String
  pub failure : Option String
  pub last : LastTokens

-- `"".join(pieces)`
unfoldable pub glue : List String → String
glue [] = ""
glue (p ∷ ps) = concat p (glue ps)

-- What the caller of `generate_stream` makes of how it ended.
unfoldable pub output_of : Option String → Stream → BatchOutput
output_of (some message) st = record blank_output { error = some message }
output_of none st = record {
  text = glue st.pieces;
  prompt_tokens = st.last.prompt;
  completion_tokens = st.last.completion;
  error = none;
}

module _ (generate_stream : BatchItem → LastTokens → Stream) where
  -- `_generate_one`
  unfoldable pub generate_one : BatchItem → LastTokens → BatchOutput × LastTokens
  unfolding output_of
  generate_one item last = let st = generate_stream item last in (output_of st.failure st, st.last)

  -- `BaseEngine.generate_batch`
  unfoldable pub generate_each : List BatchItem → LastTokens → List BatchOutput × LastTokens
  generate_each [] last = ([], last)
  generate_each (item ∷ items) last =
      let (out, last') = generate_one item last in
      let (outs, end) = generate_each items last' in (out ∷ outs, end)
