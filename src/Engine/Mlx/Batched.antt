-- ===== src/Engine/Mlx/Batched.antt =====
-- What `generate_batch` returns: each output is that of the item at its place.
use fleet_lm.Base.{
  ℕ, zero, suc, String, true, Option, none, some, ◌≡◌, refl, inl, inr, ap, List, [], ◌∷◌, arith,
  ltb, Bool-cases, contains, length, length-map, nth, nth-inside, Dict,
}
use fleet_lm.Engine.{
  BatchItem, BatchOutput, blank_output, Attempt-cases, LastTokens, generate_one, generate_each,
}
use fleet_lm.Engine.Mlx.{
  MlxLib, Sampler, group_items, sampler_of, generate_stream, collect, BatchGenerate, decode_group,
  after_decode, run_groups, batched_with, generate_batch,
}
use fleet_lm.Engine.Mlx.Groups.{FitAll, AllFit, grouped, group_items-AllFit, grouped-group_items}
use fleet_lm.Engine.Mlx.Slots.{
  IsSlotwise, Answers, IsAnswered, Keeps, Keeps-refl, Covers, collect-Collected, fill_slots-Keeps,
  fall_back-Covers,
}

module _ (Decodes : List ℕ → ℕ → Sampler → String → Type 0) where
  module _ (lib : MlxLib) where
    module _ (items : List BatchItem) where
      module _ (batch_generate : BatchGenerate) (slotwise : IsSlotwise Decodes batch_generate) where
        decode_group-Keeps :
            (t : ℕ) (idxs : List ℕ) (outs : List BatchOutput)
            → FitAll items t idxs
            → length outs ≡ length items
            → let (outs', failure) = decode_group lib batch_generate items idxs outs t in
              Keeps Decodes lib items outs outs'
              × (failure ≡ none
                  → (j : ℕ) → contains j idxs ≡ true
                  → IsAnswered Decodes lib items outs' j)
        unfolding decode_group
        decode_group-Keeps t idxs outs f n = elim (Attempt-cases (collect lib items idxs)) [
          | inl (m, e) ↦ rw (e, decode_group) (Keeps-refl Decodes lib items outs n, λ e' j k. cc)
          | inr ((ps, ls), e) ↦
              let (c, sizes) = collect-Collected Decodes lib items idxs ps ls e in
              elim (Attempt-cases (batch_generate ps ls (sampler_of lib t))) [
                | inl (m, e') ↦
                    rw (e, decode_group, e', decode_group)
                      (Keeps-refl Decodes lib items outs n, λ e' j k. cc)
                | inr (texts, e') ↦
                    rw (e, decode_group, e', decode_group)
                      (fill_slots-Keeps Decodes lib items t idxs ps ls texts outs f c
                        (slotwise ps ls (sampler_of lib t) texts sizes e') n)
              ]
        ]

        after_decode-Covers :
            (t : ℕ) (idxs : List ℕ) (outs outs' : List BatchOutput) (failure : Option String)
            (last : LastTokens)
            → FitAll items t idxs
            → Keeps Decodes lib items outs outs'
            → (failure ≡ none
                → (j : ℕ) → contains j idxs ≡ true
                → IsAnswered Decodes lib items outs' j)
            → Covers Decodes lib items idxs outs
                (after_decode lib items idxs (outs', failure) last).0
        unfolding after_decode
        after_decode-Covers t idxs outs outs' none last f k new = record {
          keeps = k;
          new = new refl;
        }
        after_decode-Covers t idxs outs outs' (some m) last f k new =
            let c = fall_back-Covers Decodes lib items t idxs outs' last f k.size in
            record {
              keeps = record { size = c.keeps.size; kept = λ j a. c.keeps.kept j (k.kept j a) };
              new = c.new;
            }

        run_groups-Covers :
            (groups : Dict (List ℕ)) (outs : List BatchOutput) (last : LastTokens)
            → AllFit items groups
            → length outs ≡ length items
            → let outs' = (run_groups lib batch_generate items groups outs last).0 in
              Keeps Decodes lib items outs outs'
              × ((j : ℕ) → grouped j groups ≡ true → IsAnswered Decodes lib items outs' j)
        unfolding run_groups grouped
        run_groups-Covers [] outs last f n = (Keeps-refl Decodes lib items outs n, λ j g. cc)
        run_groups-Covers ((t, idxs) ∷ groups) outs last f n =
            let r = decode_group lib batch_generate items idxs outs t in
            let d = decode_group-Keeps t idxs outs f.0 n in
            let c = after_decode-Covers t idxs outs r.0 r.1 last f.0 d.0 d.1 in
            let next = after_decode lib items idxs r last in
            let (k, new) = run_groups-Covers groups next.0 next.1 f.1 c.keeps.size in
            (
              record { size = k.size; kept = λ j a. k.kept j (c.keeps.kept j a) },
              λ j g. elim (Bool-cases (contains j idxs)) [
                | inl y ↦ k.kept j (c.new j y)
                | inr y ↦ new j (ground arith)
              ],
            )

    length-generate_each :
        (rest : List BatchItem) (last : LastTokens)
        → length (generate_each (generate_stream lib) rest last).0 ≡ length rest
    unfolding generate_each
    length-generate_each [] last = refl
    length-generate_each (x ∷ rest) last =
        ap suc (length-generate_each rest (generate_one (generate_stream lib) x last).1)

    generate_each-IsAnswered :
        (rest : List BatchItem) (last : LastTokens) (j : ℕ) (item : BatchItem)
        → nth j rest ≡ some item
        → (out : BatchOutput) × (nth j (generate_each (generate_stream lib) rest last).0 ≡ some out)
          × Answers Decodes lib item out
    unfolding generate_each nth
    generate_each-IsAnswered [] last j item q = cc
    generate_each-IsAnswered (x ∷ rest) last zero item q =
        let same : x ≡ item = cc in (_, refl, rw (← same) (inl (last, refl)))
    generate_each-IsAnswered (x ∷ rest) last (suc j) item q =
        generate_each-IsAnswered rest (generate_one (generate_stream lib) x last).1 j item q

    -- An output for each item, which answers it.
    abbrev pub AllAnswered : List BatchItem → List BatchOutput → Type 0
    AllAnswered items outs =
        (length outs ≡ length items)
        × ((j : ℕ) (item : BatchItem)
            → nth j items ≡ some item
            → (out : BatchOutput) × (nth j outs ≡ some out) × Answers Decodes lib item out)

    generate_each-AllAnswered :
        (items : List BatchItem) (last : LastTokens)
        → AllAnswered items (generate_each (generate_stream lib) items last).0
    generate_each-AllAnswered items last =
        (length-generate_each items last, generate_each-IsAnswered items last)

    batched_with-AllAnswered :
        (o : Option BatchGenerate) (items : List BatchItem) (last : LastTokens)
        → ((batch_generate : BatchGenerate)
            → o ≡ some batch_generate
            → IsSlotwise Decodes batch_generate)
        → AllAnswered items (batched_with lib o items last).0
    unfolding batched_with
    batched_with-AllAnswered none items last slotwise = generate_each-AllAnswered items last
    batched_with-AllAnswered (some batch_generate) items last slotwise =
        let groups = group_items 0 items [] in
        let (k, new) =
          run_groups-Covers items batch_generate (slotwise batch_generate refl) groups _ last
            (group_items-AllFit items 0 items [] (λ j. ap (λ k. nth k items) (omega arith)) tt)
            (length-map (λ (item : BatchItem). blank_output) items) in
        (
          k.size,
          λ j item at.
              new j
                (grouped-group_items j 0 items []
                  (inl (omega arith, omega (arith, nth-inside j item items at))))
                item at,
        )

    -- Whatever versions of mlx-lm's functions do and whichever of them raise, as long as a batched
    -- decode that returns gives one text for each prompt in order: `generate_batch` returns one
    -- output for each item, and each output answers the item at its place. It is what a run of the
    -- item alone gives, or it is a text decoded for the item's own prompt with the item's own token
    -- limit and temperature, although items are grouped by temperature and groups decoded together.
    pub generate_batch-IsAnswered :
        ((batch_generate : BatchGenerate)
          → lib.batch_generate ≡ some batch_generate
          → IsSlotwise Decodes batch_generate)
        → (items : List BatchItem) (last : LastTokens)
        → AllAnswered items (generate_batch lib items last).0
    unfolding generate_batch
    generate_batch-IsAnswered slotwise items last = elim (Bool-cases (ltb (length items) 2)) [
      | inl e ↦ rw (e, generate_batch) (generate_each-AllAnswered items last)
      | inr e ↦
          rw (e, generate_batch) (batched_with-AllAnswered lib.batch_generate items last slotwise)
    ]
