-- ===== src/Engine/Mock/Echo.antt =====
-- What the mock engine says.
use text.Mathlib.TextEquality.{Char-path}
use fleet_lm.Base.{
  ℕ, zero, suc, ◌≤◌, max, String, code, Option, ◌≡◌, refl, ap, sym, ◌∙◌, List, [], ◌∷◌, map, length,
  length-map, ◌==◌, arith, Bool-cases, inl, inr, concat,
}
use fleet_lm.Engine.{BatchItem, LastTokens, glue}
use fleet_lm.Engine.Mock.{add_char, split_spaces, first_words, spaced, echo, generate_stream}

concat_assoc : (a b c : String) → concat (concat a b) c ≡ concat a (concat b c)
unfolding concat
concat_assoc String.[] b c = refl
concat_assoc (String.◌∷◌ x a) b c = ap (String.◌∷◌ x) (concat_assoc a b c)

split_spaces-cons : (s : String) → (w : String) × (ws : List String) × (split_spaces s ≡ w ∷ ws)
unfolding split_spaces add_char
split_spaces-cons String.[] = (_, _, refl)
split_spaces-cons (String.◌∷◌ c s) =
    let (w, ws, e) = split_spaces-cons s in
    elim (Bool-cases (code c == 32)) [
      | inl h ↦ (String.[], split_spaces s, rw (h, split_spaces) refl)
      | inr h ↦ (String.◌∷◌ c w, ws, rw (h, split_spaces, e, add_char) refl)
    ]

-- Putting the words together again gives the text.
pub glue-split_spaces : (s : String) → glue (spaced (split_spaces s)) ≡ s
unfolding glue spaced split_spaces add_char concat
glue-split_spaces String.[] = refl
glue-split_spaces (String.◌∷◌ c s) =
    let (w, ws, e) = split_spaces-cons s in
    let below : concat w (glue (map (concat " ") ws)) ≡ s =
      sym (ap (λ words. glue (spaced words)) e) ∙ glue-split_spaces s in
    elim (Bool-cases (code c == 32)) [
      | inl h ↦
          let space : c ≡ " " = Char-path c " " (ground arith) in
          rw (h, split_spaces, e) (rw (space, below) refl)
      | inr h ↦ rw (h, split_spaces, e, add_char, below) refl
    ]

first_words-all : (n : ℕ) (ws : List String) → length ws ≤ n → first_words n ws ≡ ws
unfolding first_words
first_words-all zero [] h = refl
first_words-all zero (w ∷ ws) h = absurd (omega arith)
first_words-all (suc n) [] h = refl
first_words-all (suc n) (w ∷ ws) h = ap (◌∷◌ w) (first_words-all n ws (omega arith))

length-first_words : (n : ℕ) (ws : List String) → length (first_words n ws) ≤ n
unfolding first_words
length-first_words zero ws = omega arith
length-first_words (suc n) [] = omega arith
length-first_words (suc n) (w ∷ ws) = omega (arith, length-first_words n ws)

length-spaced : (ws : List String) → length (spaced ws) ≡ length ws
unfolding spaced
length-spaced [] = refl
length-spaced (w ∷ ws) = ap suc (length-map (concat " ") ws)

-- The mock engine yields at most as many pieces as tokens are allowed, or one piece, and counts
-- them as the completion; where the allowance covers the words of its answer, the pieces joined
-- are the answer, with every space of the prompt kept.
pub generate_stream-echo :
    (model_id : Option String) (item : BatchItem) (last : LastTokens)
    → let st = generate_stream model_id item last in
      let answer = echo model_id item.messages in
      (length st.pieces ≡ st.last.completion)
      × (st.last.completion ≤ max 1 item.max_tokens)
      × (length (split_spaces answer) ≤ max 1 item.max_tokens → glue st.pieces ≡ answer)
unfolding generate_stream
generate_stream-echo model_id item last =
    let words = split_spaces (echo model_id item.messages) in
    let n = max 1 item.max_tokens in
    (
      length-spaced (first_words n words),
      length-first_words n words,
      λ h.
          ap (λ ws. glue (spaced ws)) (first_words-all n words h)
          ∙ glue-split_spaces (echo model_id item.messages),
    )
