-- ===== src/Batch/Cases.antt =====
-- Case rules for the methods that report on a unit: what has to be shown of each branch, for a
-- property of the batches, the units and the queue.
use fleet_lm.Base.{
  ℕ, String, true, false, none, some, ◌≡◌, inl, inr, List, [], ◌∷◌, ◌++◌, leb, Bool-cases,
  Option-cases, Dict, lookup, modify,
}
use fleet_lm.Config.{Settings}
use fleet_lm.Verification.{Primitives}
use fleet_lm.Batch.Data.{WorkUnit, Batch, BatchStore, is_open, is_in_progress}
use fleet_lm.Batch.Report.{
  NodeResult, record_result, dead_letter, retry, finish, any_open, maybe_finish_batch, complete,
  fail,
}

module _ {ℓ} (Q : Dict Batch → Dict WorkUnit → List ℕ → Type ℓ) where
  abbrev pub On : BatchStore → Type ℓ
  On s = Q s.batches s.units s.pending

  pub maybe_finish_cases :
      (now batch_id : ℕ) (s : BatchStore)
      → (lookup batch_id s.batches ≡ none → On s)
      → ((b : Batch) → lookup batch_id s.batches ≡ some b → is_in_progress b.state ≡ false → On s)
      → ((b : Batch)
          → lookup batch_id s.batches ≡ some b
          → is_in_progress b.state ≡ true
          → any_open b.unit_ids s.units ≡ true
          → On s)
      → ((b : Batch)
          → lookup batch_id s.batches ≡ some b
          → is_in_progress b.state ≡ true
          → any_open b.unit_ids s.units ≡ false
          → Q (modify batch_id (finish now) s.batches) s.units s.pending)
      → On (maybe_finish_batch now batch_id s)
  unfolding maybe_finish_batch
  maybe_finish_cases now batch_id s missing closed working done =
      elim (Option-cases (lookup batch_id s.batches)) [
        | inl e ↦ rw (e, maybe_finish_batch) (missing e)
        | inr (b, e) ↦ elim (Bool-cases (is_in_progress b.state)) [
          | inr p ↦ rw (e, maybe_finish_batch, p, maybe_finish_batch) (closed b e p)
          | inl p ↦ elim (Bool-cases (any_open b.unit_ids s.units)) [
            | inl o ↦ rw (e, maybe_finish_batch, p, maybe_finish_batch, o) (working b e p o)
            | inr o ↦ rw (e, maybe_finish_batch, p, maybe_finish_batch, o) (done b e p o)
          ]
        ]
      ]

  -- The store between the change of one unit and the end of the method.
  abbrev pub Closed : ℕ → ℕ → (WorkUnit → WorkUnit) → WorkUnit → BatchStore → Type ℓ
  Closed now unit_id f u s =
      On (maybe_finish_batch now u.batch_id (record s { units = modify unit_id f s.units }))

  pub complete_cases :
      (lib : Primitives) (now node_id : ℕ) (r : NodeResult) (s : BatchStore)
      → On s
      → ((u : WorkUnit)
          → lookup r.unit_id s.units ≡ some u
          → is_open u.state ≡ true
          → Closed now r.unit_id (record_result node_id r) u s)
      → On (complete lib now node_id r s)
  unfolding complete
  complete_cases lib now node_id r s same recorded =
      elim (Option-cases (lookup r.unit_id s.units)) [
        | inl e ↦ rw (e, complete) same
        | inr (u, e) ↦ elim (Bool-cases (is_open u.state)) [
          | inl o ↦ rw (e, complete, o, complete) (recorded u e o)
          | inr o ↦ rw (e, complete, o, complete) same
        ]
      ]

  pub fail_cases :
      (settings : Settings) (now node_id unit_id : ℕ) (message : String) (s : BatchStore)
      → On s
      → ((u : WorkUnit)
          → lookup unit_id s.units ≡ some u
          → is_open u.state ≡ true
          → leb settings.max_unit_attempts u.attempts ≡ true
          → Closed now unit_id (dead_letter message) u s)
      → ((u : WorkUnit)
          → lookup unit_id s.units ≡ some u
          → is_open u.state ≡ true
          → leb settings.max_unit_attempts u.attempts ≡ false
          → Q s.batches (modify unit_id (retry message) s.units) (s.pending ++ u.id ∷ []))
      → On (fail settings now node_id unit_id message s)
  unfolding fail
  fail_cases settings now node_id unit_id message s same died retried =
      elim (Option-cases (lookup unit_id s.units)) [
        | inl e ↦ rw (e, fail) same
        | inr (u, e) ↦ elim (Bool-cases (is_open u.state)) [
          | inr o ↦ rw (e, fail, o, fail) same
          | inl o ↦ elim (Bool-cases (leb settings.max_unit_attempts u.attempts)) [
            | inl a ↦ rw (e, fail, o, fail, a) (died u e o a)
            | inr a ↦ rw (e, fail, o, fail, a) (retried u e o a)
          ]
        ]
      ]
