-- ===== src/Engine/Tests.antt =====
-- The theorems about the engines at concrete batches.
use fleet_lm.Base.{
  ℕ, String, true, none, some, ◌≡◌, ◌≤◌, refl, List, [], ◌∷◌, map, arith, length, subst, ap, ◌∙◌,
}
use fleet_lm.Batch.Data.{Message}
use fleet_lm.Engine.{BatchItem, Attempt, raises, gives, glue}
use fleet_lm.Engine.Mlx.{MlxLib, Sampler, BatchGenerate, tokens, generate_batch}
use fleet_lm.Engine.Mlx.Slots.{AllDecoded, IsSlotwise}
use fleet_lm.Engine.Mlx.Batched.{AllAnswered, generate_batch-IsAnswered}
use fleet_lm.Engine.Mock.{split_spaces, echo, generate_stream}
use fleet_lm.Engine.Mock.Echo.{generate_stream-echo}

abbrev ask : String → ℕ → BatchItem
ask text temperature = record {
  messages = (let m : Message = record { role = "user"; content = text } in m ∷ []);
  max_tokens = 16;
  temperature = temperature;
}

abbrev items : List BatchItem
items = ask "a" 0 ∷ ask "b" 700_000 ∷ ask "c" 0 ∷ []

-- A library that answers every prompt with "ok".
abbrev decode_all : BatchGenerate
decode_all prompts limits s = gives (map (λ p. "ok") prompts)

abbrev mlx : MlxLib
mlx = record {
  apply_chat_template = λ ms. gives (tokens (1 ∷ 2 ∷ []));
  encode = λ t. 3 ∷ [];
  encode_plain = λ t. 3 ∷ [];
  has_samplers = true;
  stream_generate = λ p n s. ([], none);
  batch_generate = some decode_all;
}

abbrev SaysOk : List ℕ → ℕ → Sampler → String → Type 0
SaysOk p n s t = t ≡ "ok"

says_ok :
    (prompts : List (List ℕ)) (limits : List ℕ) (s : Sampler)
    → length limits ≡ length prompts
    → AllDecoded SaysOk s prompts limits (map (λ p. "ok") prompts)
says_ok [] limits s n = tt
says_ok (p ∷ ps) [] s n = absurd (omega arith)
says_ok (p ∷ ps) (l ∷ ls) s n = (refl, says_ok ps ls s (omega arith))

abbrev texts_of : Attempt (List String) → List String
texts_of (raises m) = []
texts_of (gives ts) = ts

slotwise : (bg : BatchGenerate) → some decode_all ≡ some bg → IsSlotwise SaysOk bg
slotwise bg e prompts limits s texts n q =
    let same : decode_all ≡ bg = cc in
    let given : gives (map (λ (p : List ℕ). "ok") prompts) ≡ gives texts =
      ap (λ f. f prompts limits s) same ∙ q in
    subst (AllDecoded SaysOk s prompts limits) (ap texts_of given) (says_ok prompts limits s n)

generate_batch-IsAnswered_example :
    AllAnswered SaysOk mlx items
      (generate_batch mlx items (record { prompt = 0; completion = 0 })).0
generate_batch-IsAnswered_example =
    generate_batch-IsAnswered SaysOk mlx slotwise items (record { prompt = 0; completion = 0 })

generate_stream-echo_example :
    let st = generate_stream (some "m") (ask "a b" 0) (record { prompt = 0; completion = 0 }) in
    let answer = echo (some "m") (ask "a b" 0).messages in
    (length st.pieces ≡ st.last.completion)
    × (st.last.completion ≤ 16)
    × (length (split_spaces answer) ≤ 16 → glue st.pieces ≡ answer)
generate_stream-echo_example =
    generate_stream-echo (some "m") (ask "a b" 0) (record { prompt = 0; completion = 0 })
