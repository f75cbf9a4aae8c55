-- ===== src/Engine/Mlx/Slots.antt =====
-- What one group's decode, or its repetition item by item, leaves in the outputs.
use fleet_lm.Base.{
  ℕ, suc, String, true, Option, none, some, ◌≡◌, ◌⊎◌, refl, ◌∙◌, inl, inr, ap, subst, List, [], ◌∷◌,
  arith, ◌==◌, Bool-cases, contains, length, nth, set_nth, nth-set_nth_same, nth-set_nth_other,
  length-set_nth, nth-some, nth-inside,
}
use fleet_lm.Engine.{BatchItem, BatchOutput, Attempt, raises, gives, LastTokens, generate_one}
use fleet_lm.Engine.Mlx.{
  MlxLib, Sampler, encode_prompt, sampler_of, generate_stream, Prompts, add_prompt, add_item,
  collect, decoded, fill_slots, BatchGenerate, fall_back,
}
use fleet_lm.Engine.Mlx.Groups.{Fits, FitAll}

-- mlx-lm's batched decode gives one text for each prompt, in the order of the prompts; `Decodes`
-- says which texts a model may give for a prompt, a token limit and a sampler.
module _ (Decodes : List ℕ → ℕ → Sampler → String → Type 0) where
  abbrev pub AllDecoded : Sampler → List (List ℕ) → List ℕ → List String → Type 0
  AllDecoded s [] limits texts = Unit
  AllDecoded s (p ∷ ps) (l ∷ ls) (t ∷ ts) = Decodes p l s t × AllDecoded s ps ls ts
  AllDecoded s (p ∷ ps) _ _ = ⊥

  abbrev pub IsSlotwise : BatchGenerate → Type 0
  IsSlotwise batch_generate =
      (prompts : List (List ℕ)) (limits : List ℕ) (s : Sampler) (texts : List String)
      → length limits ≡ length prompts
      → batch_generate prompts limits s ≡ gives texts
      → AllDecoded s prompts limits texts

  add_prompt-gives :
      (limit : ℕ) (a : Attempt (List ℕ)) (rest : Attempt Prompts) (prompts : List (List ℕ))
      (limits : List ℕ)
      → add_prompt limit a rest ≡ gives (prompts, limits)
      → (p : List ℕ) × (ps : List (List ℕ)) × (ls : List ℕ) × (a ≡ gives p)
        × (rest ≡ gives (ps, ls))
        × (prompts ≡ p ∷ ps)
        × (limits ≡ limit ∷ ls)
  unfolding add_prompt
  add_prompt-gives limit (raises m) rest prompts limits h = cc
  add_prompt-gives limit (gives p) (raises m) prompts limits h = cc
  add_prompt-gives limit (gives p) (gives (ps, ls)) prompts limits h =
      (p, ps, ls, refl, refl, cc, cc)

  module _ (lib : MlxLib) where
    -- The output is that of a run of the item alone, or a text decoded for the item's prompt, with
    -- the item's token limit and temperature.
    abbrev pub Answers : BatchItem → BatchOutput → Type 0
    Answers item out =
        ((last : LastTokens) × (out ≡ (generate_one (generate_stream lib) item last).0))
        ⊎ ((prompt : List ℕ) × (text : String) × (encode_prompt lib item.messages ≡ gives prompt)
            × Decodes prompt item.max_tokens (sampler_of lib item.temperature) text
            × (out ≡ decoded lib prompt text))

    module _ (items : List BatchItem) where
      -- The item at this place has its output.
      abbrev pub IsAnswered : List BatchOutput → ℕ → Type 0
      IsAnswered outs j =
          (item : BatchItem)
          → nth j items ≡ some item
          → (out : BatchOutput) × (nth j outs ≡ some out) × Answers item out

      set_nth-IsAnswered :
          (i : ℕ) (item : BatchItem) (out : BatchOutput) (outs : List BatchOutput) (j : ℕ)
          → length outs ≡ length items
          → nth i items ≡ some item
          → Answers item out
          → (j ≡ i) ⊎ IsAnswered outs j
          → IsAnswered (set_nth i out outs) j
      set_nth-IsAnswered i item out outs j n at a h item' at' = elim (Bool-cases (j == i)) [
        | inl e ↦
            let here : j ≡ i = ground arith in
            let (old, q) = nth-some i outs (omega (arith, nth-inside i item items at)) in
            (
              out,
              rw here (nth-set_nth_same i out old outs q),
              subst (λ x. Answers x out) (ground arith) a,
            )
        | inr e ↦ elim h [
          | inl same ↦ absurd (ground arith)
          | inr before ↦
              let (kept, q, b) = before item' at' in
              (kept, nth-set_nth_other j i out outs (λ same. ground arith) ∙ q, b)
        ]
      ]

      -- What a part of the program does to the outputs: it keeps their number and what is answered.
      pub record Keeps (outs outs' : List BatchOutput) : Type 0 where
        pub size : length outs' ≡ length items
        pub kept : (j : ℕ) → IsAnswered outs j → IsAnswered outs' j

      -- And it answers the items of these indices.
      pub record Covers (idxs : List ℕ) (outs outs' : List BatchOutput) : Type 0 where
        pub keeps : Keeps outs outs'
        pub new : (j : ℕ) → contains j idxs ≡ true → IsAnswered outs' j

      pub Keeps-refl : (outs : List BatchOutput) → length outs ≡ length items → Keeps outs outs
      Keeps-refl outs n = record { size = n; kept = λ j a. a }

      -- What `_decode_group` collects for the indices of a group.
      abbrev pub Collected : List ℕ → List (List ℕ) → List ℕ → Type 0
      Collected [] ps ls = Unit
      Collected (i ∷ idxs) (p ∷ ps) (l ∷ ls) =
          ((item : BatchItem) × (nth i items ≡ some item)
            × (encode_prompt lib item.messages ≡ gives p)
            × (l ≡ item.max_tokens))
          × Collected idxs ps ls
      Collected (i ∷ idxs) _ _ = ⊥

      add_item-Collected :
          (i : ℕ) (idxs : List ℕ) (o : Option BatchItem) (rest : Attempt Prompts)
          (prompts : List (List ℕ)) (limits : List ℕ)
          → nth i items ≡ o
          → add_item lib o rest ≡ gives (prompts, limits)
          → ((ps : List (List ℕ)) (ls : List ℕ)
              → rest ≡ gives (ps, ls)
              → Collected idxs ps ls × (length ls ≡ length ps))
          → Collected (i ∷ idxs) prompts limits × (length limits ≡ length prompts)
      unfolding add_item
      add_item-Collected i idxs none rest prompts limits at e h = cc
      add_item-Collected i idxs (some item) rest prompts limits at e h =
          let (p, ps, ls, encoded, below, pe, le) =
            add_prompt-gives item.max_tokens (encode_prompt lib item.messages) rest prompts limits
              e in
          let (c, n) = h ps ls below in rw (pe, le) (((item, at, encoded, refl), c), ap suc n)

      pub collect-Collected :
          (idxs : List ℕ) (prompts : List (List ℕ)) (limits : List ℕ)
          → collect lib items idxs ≡ gives (prompts, limits)
          → Collected idxs prompts limits × (length limits ≡ length prompts)
      unfolding collect
      collect-Collected [] prompts limits h = (tt, ground arith)
      collect-Collected (i ∷ idxs) prompts limits h =
          add_item-Collected i idxs (nth i items) (collect lib items idxs) prompts limits refl h
            (collect-Collected idxs)

      same_temperature :
          (t i : ℕ) (item : BatchItem)
          → Fits items t i
          → nth i items ≡ some item
          → item.temperature ≡ t
      same_temperature t i item (item', at', e) at = let same : item' ≡ item = cc in rw (← same) e

      -- Filling the slots of a group whose items have one temperature.
      pub fill_slots-Keeps :
          (t : ℕ) (idxs : List ℕ) (prompts : List (List ℕ)) (limits : List ℕ) (texts : List String)
          (outs : List BatchOutput)
          → FitAll items t idxs
          → Collected idxs prompts limits
          → AllDecoded (sampler_of lib t) prompts limits texts
          → length outs ≡ length items
          → let (outs', failure) = fill_slots lib idxs prompts texts outs in
            Keeps outs outs'
            × (failure ≡ none → (j : ℕ) → contains j idxs ≡ true → IsAnswered outs' j)
      unfolding fill_slots contains
      fill_slots-Keeps t [] prompts limits texts outs f c d n = (Keeps-refl outs n, λ e j k. cc)
      fill_slots-Keeps t (i ∷ idxs) [] limits texts outs f c d n = elim c [ ]
      fill_slots-Keeps t (i ∷ idxs) (p ∷ ps) [] texts outs f c d n = elim c [ ]
      fill_slots-Keeps t (i ∷ idxs) (p ∷ ps) (l ∷ ls) [] outs f c d n = elim d [ ]
      fill_slots-Keeps t (i ∷ idxs) (p ∷ ps) (l ∷ ls) (x ∷ xs) outs f c d n =
          let out = decoded lib p x in
          let outs' = set_nth i out outs in
          let (item, at, encoded, limit) = c.0 in
          let cold : item.temperature ≡ t = same_temperature t i item f.0 at in
          let answer : Answers item out = inr (p, x, encoded, rw (cold, ← limit) d.0, refl) in
          let put = λ (j : ℕ). set_nth-IsAnswered i item out outs j n at answer in
          let (k, new) =
            fill_slots-Keeps t idxs ps ls xs outs' f.1 c.1 d.1 (length-set_nth i out outs ∙ n) in
          (
            record { size = k.size; kept = λ j a. k.kept j (put j (inr a)) },
            λ e j q. elim (Bool-cases (contains j idxs)) [
              | inl y ↦ new e j y
              | inr y ↦ k.kept j (put j (inl (ground arith)))
            ],
          )

      pub fall_back-Covers :
          (t : ℕ) (idxs : List ℕ) (outs : List BatchOutput) (last : LastTokens)
          → FitAll items t idxs
          → length outs ≡ length items
          → Covers idxs outs (fall_back lib items idxs outs last).0
      unfolding fall_back contains
      fall_back-Covers t [] outs last f n = record { keeps = Keeps-refl outs n; new = λ j k. cc }
      fall_back-Covers t (i ∷ idxs) outs last ((item, at, cold), f) n =
          let (out, last') = generate_one (generate_stream lib) item last in
          let outs' = set_nth i out outs in
          let c = fall_back-Covers t idxs outs' last' f (length-set_nth i out outs ∙ n) in
          let put = λ (j : ℕ). set_nth-IsAnswered i item out outs j n at (inl (last, refl)) in
          rw (at, fall_back)
            (record {
              keeps = record { size = c.keeps.size; kept = λ j a. c.keeps.kept j (put j (inr a)) };
              new = λ j q. elim (Bool-cases (contains j idxs)) [
                | inl y ↦ c.new j y
                | inr y ↦ c.keeps.kept j (put j (inl (ground arith)))
              ];
            })
