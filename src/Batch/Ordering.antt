-- ===== src/Batch/Ordering.antt =====
-- No method but `create_batch` changes which batches there are, or which units they list.
use fleet_lm.Base.{
  ℕ, String, some, ◌≡◌, refl, inl, inr, List, ◌==◌, arith, Bool-cases, Option-cases, Dict, lookup,
  modify, lookup-modify,
}
use fleet_lm.Config.{Settings}
use fleet_lm.Verification.{Primitives}
use fleet_lm.Batch.Data.{WorkUnit, Batch, BatchStore, BatchState, is_in_progress}
use fleet_lm.Batch.Report.{
  NodeResult, record_result, dead_letter, finish, maybe_finish_batch, complete, fail,
}
use fleet_lm.Batch.Cancel.{cancel_batch}
use fleet_lm.Batch.Cases.{maybe_finish_cases, complete_cases, fail_cases}

-- Every batch was there before, with the same units.
abbrev pub BatchesKept : Dict Batch → Dict Batch → Type 0
BatchesKept batches batches' =
    (b : ℕ) (batch' : Batch)
    → lookup b batches' ≡ some batch'
    → (batch : Batch) × (lookup b batches ≡ some batch) × (batch'.unit_ids ≡ batch.unit_ids)

pub BatchesKept-refl : (batches : Dict Batch) → BatchesKept batches batches
BatchesKept-refl batches b batch q = (batch, q, refl)

BatchesKept-modify :
    (j : ℕ) (f : Batch → Batch) (batches : Dict Batch)
    → ((b : Batch) → (f b).unit_ids ≡ b.unit_ids)
    → BatchesKept batches (modify j f batches)
BatchesKept-modify j f batches same b batch' q = elim (Option-cases (lookup b batches)) [
  | inl e ↦ ground (arith, lookup-modify b j f batches)
  | inr (batch, e) ↦ elim (Bool-cases (b == j)) [
    | inl at ↦
        let moved : f batch ≡ batch' = ground (arith, lookup-modify b j f batches) in
        (batch, e, rw (← moved) (same batch))
    | inr off ↦
        let kept : batch ≡ batch' = ground (arith, lookup-modify b j f batches) in
        (batch, e, rw (← kept) refl)
  ]
]

abbrev KeptFrom : BatchStore → Dict Batch → Dict WorkUnit → List ℕ → Type 0
KeptFrom s batches units queue = BatchesKept s.batches batches

maybe_finish-BatchesKept :
    (now batch_id : ℕ) (f : Dict WorkUnit) (s : BatchStore)
    → BatchesKept s.batches (maybe_finish_batch now batch_id (record s { units = f })).batches
unfolding finish
maybe_finish-BatchesKept now batch_id f s =
    let same = BatchesKept-refl s.batches in
    maybe_finish_cases (KeptFrom s) now batch_id (record s { units = f }) (λ _. same)
      (λ _ _ _. same) (λ _ _ _ _. same)
      (λ _ _ _ _. BatchesKept-modify batch_id (finish now) s.batches (λ b. refl))

pub complete-BatchesKept :
    (lib : Primitives) (now node_id : ℕ) (r : NodeResult) (s : BatchStore)
    → BatchesKept s.batches (complete lib now node_id r s).batches
complete-BatchesKept lib now node_id r s =
    complete_cases (KeptFrom s) lib now node_id r s (BatchesKept-refl s.batches) λ u e o.
      maybe_finish-BatchesKept now u.batch_id (modify r.unit_id (record_result node_id r) s.units) s

pub fail-BatchesKept :
    (settings : Settings) (now node_id unit_id : ℕ) (message : String) (s : BatchStore)
    → BatchesKept s.batches (fail settings now node_id unit_id message s).batches
fail-BatchesKept settings now node_id unit_id message s =
    fail_cases (KeptFrom s) settings now node_id unit_id message s (BatchesKept-refl s.batches)
      (λ u e o _.
        maybe_finish-BatchesKept now u.batch_id (modify unit_id (dead_letter message) s.units) s)
      (λ u e o _. BatchesKept-refl s.batches)

pub cancel_batch-BatchesKept :
    (batch_id : ℕ) (s : BatchStore) → BatchesKept s.batches (cancel_batch batch_id s).1.batches
unfolding cancel_batch
cancel_batch-BatchesKept batch_id s = elim (Option-cases (lookup batch_id s.batches)) [
  | inl e ↦ rw (e, cancel_batch) (BatchesKept-refl s.batches)
  | inr (b, e) ↦ elim (Bool-cases (is_in_progress b.state)) [
    | inl p ↦
        rw (e, cancel_batch, p, cancel_batch)
          (BatchesKept-modify batch_id (λ b. record b { state = BatchState.cancelled }) s.batches
            (λ b. refl))
    | inr p ↦ rw (e, cancel_batch, p, cancel_batch) (BatchesKept-refl s.batches)
  ]
]
