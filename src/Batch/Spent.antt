-- ===== src/Batch/Spent.antt =====
-- orchestrator/batch.py: why a unit fails. `fail` gives a unit up only at the limit of attempts, and
-- `cancel_batch` is the only other method that fails one.
pub mod Calls
use fleet_lm.Base.{
  ℕ, String, true, some, ◌≡◌, ◌⊎◌, inl, inr, List, leb, ◌==◌, arith, Bool-cases, Dict, lookup,
  modify, lookup-modify,
}
use fleet_lm.Config.{Settings}
use fleet_lm.Verification.{Primitives}
use fleet_lm.Batch.Data.{WorkUnit, Batch, BatchStore, is_cancelled, failed, requeued}
use fleet_lm.Batch.Report.{
  NodeResult, record_result, dead_letter, retry, finish, maybe_finish_batch, complete, fail,
}
use fleet_lm.Batch.Units.{modify-AllUnits}
use fleet_lm.Batch.Cases.{maybe_finish_cases, complete_cases, fail_cases}

-- The batch is in the store, and was cancelled.
abbrev pub Cancelled : ℕ → Dict Batch → Type 0
Cancelled b batches =
    (batch : Batch) × (lookup b batches ≡ some batch) × (is_cancelled batch.state ≡ true)

abbrev pub CancelledKept : Dict Batch → Dict Batch → Type 0
CancelledKept batches batches' = (b : ℕ) → Cancelled b batches → Cancelled b batches'

pub CancelledKept-modify :
    (j : ℕ) (f : Batch → Batch) (batches : Dict Batch)
    → ((b : Batch)
        → lookup j batches ≡ some b
        → is_cancelled b.state ≡ true
        → is_cancelled (f b).state ≡ true)
    → CancelledKept batches (modify j f batches)
CancelledKept-modify j f batches h b (batch, q, c) = elim (Bool-cases (b == j)) [
  | inl e ↦
      let at : b ≡ j = ground arith in
      (f batch, ground (arith, lookup-modify b j f batches), h batch (rw (← at) q) c)
  | inr e ↦ (batch, ground (arith, lookup-modify b j f batches), c)
]

module _ (settings : Settings) where
  -- A failed unit has used up its attempts, or its batch was cancelled.
  abbrev pub IsExcused : Dict Batch → WorkUnit → Type 0
  IsExcused batches u =
      u.state ≡ failed
      → (leb settings.max_unit_attempts u.attempts ≡ true) ⊎ Cancelled u.batch_id batches

  abbrev pub AllExcused : Dict Batch → Dict WorkUnit → Type 0
  AllExcused batches units = (k : ℕ) (u : WorkUnit) → lookup k units ≡ some u → IsExcused batches u

  pub kept-AllExcused :
      (batches batches' : Dict Batch) (units : Dict WorkUnit)
      → CancelledKept batches batches'
      → AllExcused batches units
      → AllExcused batches' units
  kept-AllExcused batches batches' units kept h k u q f = elim (h k u q f) [
    | inl spent ↦ inl spent
    | inr gone ↦ inr (kept u.batch_id gone)
  ]

  abbrev ExcusedIn : Dict Batch → Dict WorkUnit → List ℕ → Type 0
  ExcusedIn batches units queue = AllExcused batches units

  maybe_finish-AllExcused :
      (now batch_id : ℕ) (s : BatchStore)
      → AllExcused s.batches s.units
      → let s' = maybe_finish_batch now batch_id s in AllExcused s'.batches s'.units
  maybe_finish-AllExcused now batch_id s h =
      maybe_finish_cases ExcusedIn now batch_id s (λ _. h) (λ _ _ _. h) (λ _ _ _ _. h)
        (λ b q p _.
          kept-AllExcused s.batches _ s.units
            (CancelledKept-modify batch_id (finish now) s.batches (λ b' q' c. ground arith)) h)

  pub complete-AllExcused :
      (lib : Primitives) (now node_id : ℕ) (r : NodeResult) (s : BatchStore)
      → AllExcused s.batches s.units
      → let s' = complete lib now node_id r s in AllExcused s'.batches s'.units
  unfolding record_result
  complete-AllExcused lib now node_id r s h =
      complete_cases ExcusedIn lib now node_id r s h λ u e o.
        maybe_finish-AllExcused now u.batch_id _ (
          modify-AllUnits (IsExcused s.batches) r.unit_id (record_result node_id r) s.units
            (λ w q f. cc) h)

  pub fail-AllExcused :
      (now node_id unit_id : ℕ) (message : String) (s : BatchStore)
      → AllExcused s.batches s.units
      → let s' = fail settings now node_id unit_id message s in AllExcused s'.batches s'.units
  unfolding dead_letter retry requeued
  fail-AllExcused now node_id unit_id message s h =
      fail_cases ExcusedIn settings now node_id unit_id message s h
        (λ u e o spent. maybe_finish-AllExcused now u.batch_id _ (
          modify-AllUnits (IsExcused s.batches) unit_id (dead_letter message) s.units
            (λ w q f. inl (ground (arith, e, q, spent))) h))
        (λ u e o more.
          modify-AllUnits (IsExcused s.batches) unit_id (retry message) s.units (λ w q f. cc) h)
