-- ===== src/Batch/Spent/Calls.antt =====
-- The calls that lease, return, cancel and submit units, and histories of calls: none fails a unit
-- for another reason than `fail` and `cancel_batch` have.
use fleet_lm.Base.{
  ℕ, String, true, Option, some, ◌≡◌, refl, ◌∙◌, ◌⊎◌, inl, inr, List, [], ◌∷◌, leb, ◌==◌, arith,
  Bool-cases, Option-cases, contains, lookup, modify, lookup-insert, lookup-modify,
}
use fleet_lm.Config.{Settings}
use fleet_lm.Metrics.{FleetMetrics}
use fleet_lm.Verification.{Primitives, Verifier}
use fleet_lm.Batch.Data.{
  WorkUnit, Batch, BatchStore, Request, BatchState, is_in_progress, failed, requeued, new_store,
}
use fleet_lm.Batch.Submit.{create_batch}
use fleet_lm.Batch.Lease.{lease_unit, lease}
use fleet_lm.Batch.Requeue.{requeue_where, release_node, expire_leases}
use fleet_lm.Batch.Cancel.{cancel_units, cancel_batch}
use fleet_lm.Batch.Machine.{Evolves-back, Moves-SameTask}
use fleet_lm.Batch.Evolve.{lookup-cancel_units, cancel_units-Evolves}
use fleet_lm.Batch.Valid.Defs.{Valid, members}
use fleet_lm.Batch.Valid.Submitting.{IsFresh}
use fleet_lm.Batch.Spent.{
  Cancelled, CancelledKept, CancelledKept-modify, IsExcused, AllExcused, kept-AllExcused,
  complete-AllExcused, fail-AllExcused,
}
use fleet_lm.Batch.Units.{lease-AllUnits, requeue_where-AllUnits, create_batch-AllUnits}
use fleet_lm.Batch.History.{
  Call, submits, leases, completes, fails, releases, expires, cancels, step, run, Allowed,
  AllAllowed, step-IsValid, new_store-IsValid,
}

module _ (settings : Settings) where
  -- A unit of the batch that is cancelled is excused; another is as it was.
  cancelled-IsExcused :
      (b : ℕ) (batch : Batch) (s : BatchStore)
      → Valid s
      → lookup b s.batches ≡ some batch
      → AllExcused settings s.batches s.units
      → AllExcused settings
          (modify b (λ x. record x { state = BatchState.cancelled }) s.batches)
          (cancel_units (members batch) s.units)
  cancelled-IsExcused b batch s v q h k w at =
      let kept =
        CancelledKept-modify b (λ x. record x { state = BatchState.cancelled }) s.batches
          (λ x _ _. refl) in
      elim (Bool-cases (contains k (members batch))) [
        | inr off ↦
            kept-AllExcused settings s.batches _ s.units kept h k w
              (ground (arith, lookup-cancel_units k (members batch) s.units))
        | inl on ↦
            let (u, p, o) = v.owned b batch k q on in
            let (u', p', m) =
              Evolves-back s.units _ k w (cancel_units-Evolves (members batch) s.units) at in
            let same : u' ≡ u = ground arith in
            let home : w.batch_id ≡ b = (Moves-SameTask m).batch_id ∙ rw same o in
            λ f. inr (
              record batch { state = BatchState.cancelled },
              ground (
                arith,
                home,
                lookup-modify w.batch_id b (λ x. record x { state = BatchState.cancelled })
                    s.batches,
              ),
              refl,
            )
      ]

  cancel_batch-AllExcused :
      (b : ℕ) (s : BatchStore)
      → Valid s
      → AllExcused settings s.batches s.units
      → let s' = (cancel_batch b s).1 in AllExcused settings s'.batches s'.units
  unfolding cancel_batch
  cancel_batch-AllExcused b s v h = elim (Option-cases (lookup b s.batches)) [
    | inl e ↦ rw (e, cancel_batch) h
    | inr (batch, e) ↦ elim (Bool-cases (is_in_progress batch.state)) [
      | inl p ↦ rw (e, cancel_batch, p, cancel_batch) (cancelled-IsExcused b batch s v e h)
      | inr p ↦ rw (e, cancel_batch, p, cancel_batch) h
    ]
  ]

  create_batch-CancelledKept :
      (now batch_id : ℕ) (unit_id : ℕ → ℕ) (model : Option String) (requests : List Request)
      (s : BatchStore)
      → IsFresh batch_id unit_id s
      → CancelledKept s.batches (create_batch now batch_id unit_id model requests s).1.batches
  unfolding create_batch
  create_batch-CancelledKept now batch_id unit_id model requests s fresh b (batch, q, c) =
      let absent = fresh.batch in
      let new = (create_batch now batch_id unit_id model requests s).0 in
      elim (Bool-cases (b == batch_id)) [
        | inl e ↦ let same : b ≡ batch_id = ground arith in absurd (ground arith)
        | inr e ↦ (batch, rw (lookup-insert b batch_id new s.batches, e) q, c)
      ]

  create_batch-AllExcused :
      (now batch_id : ℕ) (unit_id : ℕ → ℕ) (model : Option String) (requests : List Request)
      (s : BatchStore)
      → IsFresh batch_id unit_id s
      → Valid s
      → AllExcused settings s.batches s.units
      → let s' = (create_batch now batch_id unit_id model requests s).1 in
        AllExcused settings s'.batches s'.units
  create_batch-AllExcused now batch_id unit_id model requests s fresh v h =
      create_batch-AllUnits (IsExcused settings _) now batch_id unit_id model requests s
        (λ u e f. cc) fresh v
        (kept-AllExcused settings s.batches _ s.units
          (create_batch-CancelledKept now batch_id unit_id model requests s fresh) h)

  step-AllExcused :
      (lib : Primitives) (c : ℕ × Call) (s : BatchStore)
      → Allowed lib settings c.1 s
      → Valid s
      → AllExcused settings s.batches s.units
      → let s' = step lib settings c s in AllExcused settings s'.batches s'.units
  unfolding step lease lease_unit release_node expire_leases requeue_where requeued
  step-AllExcused lib (now, submits batch_id unit_id model requests) s a v =
      create_batch-AllExcused now batch_id unit_id model requests s a.1 v
  step-AllExcused lib (now, leases node_id node_model count) s a v =
      lease-AllUnits (IsExcused settings s.batches) settings now node_id node_model (λ u h f. cc)
        count s
  step-AllExcused lib (now, completes node_id r) s a v =
      complete-AllExcused settings lib now node_id r s
  step-AllExcused lib (now, fails node_id unit_id message) s a v =
      fail-AllExcused settings now node_id unit_id message s
  step-AllExcused lib (now, releases node_id) s a v =
      requeue_where-AllUnits (IsExcused settings s.batches) _ s (λ u h f. cc)
  step-AllExcused lib (now, expires) s a v =
      requeue_where-AllUnits (IsExcused settings s.batches) _ s (λ u h f. cc)
  step-AllExcused lib (now, cancels batch_id) s a v = cancel_batch-AllExcused batch_id s v

  run-AllExcused :
      (lib : Primitives) (cs : List (ℕ × Call)) (s : BatchStore)
      → AllAllowed lib settings cs s
      → Valid s
      → AllExcused settings s.batches s.units
      → let s' = run lib settings cs s in AllExcused settings s'.batches s'.units
  unfolding run
  run-AllExcused lib [] s a v h = h
  run-AllExcused lib (c ∷ cs) s a v h =
      run-AllExcused lib cs (step lib settings c s) a.1 (step-IsValid lib settings c s a.0 v)
        (step-AllExcused lib c s a.0 v h)

  new_store-AllExcused :
      (metrics : Option FleetMetrics) (verifier : Option Verifier)
      → let s = new_store metrics verifier in AllExcused settings s.batches s.units
  unfolding new_store lookup
  new_store-AllExcused metrics verifier k u q = cc

-- After any history of allowed calls from a new store, a unit that is failed counts
-- `max_unit_attempts` attempts or more, or belongs to a batch of the store that was cancelled.
pub failed_for_reason :
    (lib : Primitives) (settings : Settings) (metrics : Option FleetMetrics)
    (verifier : Option Verifier) (cs : List (ℕ × Call))
    → AllAllowed lib settings cs (new_store metrics verifier)
    → (k : ℕ) (u : WorkUnit)
    → lookup k (run lib settings cs (new_store metrics verifier)).units ≡ some u
    → u.state ≡ failed
    → (leb settings.max_unit_attempts u.attempts ≡ true)
      ⊎ Cancelled u.batch_id (run lib settings cs (new_store metrics verifier)).batches
failed_for_reason lib settings metrics verifier cs allowed =
    run-AllExcused settings lib cs (new_store metrics verifier) allowed
      (new_store-IsValid metrics verifier) (new_store-AllExcused settings metrics verifier)
