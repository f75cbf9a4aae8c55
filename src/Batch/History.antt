-- ===== src/Batch/History.antt =====
-- Histories of the store: the methods that `BatchStore` runs, in any order, as its lock serialises
-- them, and what holds after every history.
use fleet_lm.Base.{
  ℕ, String, true, false, Option, some, ◌≡◌, ◌≢◌, ◌∙◌, List, [], ◌∷◌, contains, Dict, lookup, arith,
}
use fleet_lm.Config.{Settings}
use fleet_lm.Metrics.{FleetMetrics}
use fleet_lm.Verification.{Primitives, Verifier}
use fleet_lm.Batch.Data.{
  WorkUnit, Batch, BatchStore, Request, new_store, is_open, is_pending, is_in_progress,
  is_cancelled,
}
use fleet_lm.Batch.Submit.{create_batch}
use fleet_lm.Batch.Lease.{lease}
use fleet_lm.Batch.Report.{NodeResult, any_open, complete, fail}
use fleet_lm.Batch.Requeue.{release_node, expire_leases}
use fleet_lm.Batch.Cancel.{cancel_batch}
use fleet_lm.Batch.Machine.{Moves, stays, IsFit, Moves-closed, Evolves-on}
use fleet_lm.Batch.Evolve.{
  lease-Evolves, complete-Evolves, fail-Evolves, release_node-Evolves, expire_leases-Evolves,
  cancel_batch-Evolves,
}
use fleet_lm.Batch.Valid.Defs.{Valid, members}
use fleet_lm.Batch.Valid.Queue.{pending-contains}
use fleet_lm.Batch.Valid.Reporting.{complete-IsValid, fail-IsValid}
use fleet_lm.Batch.Valid.Requeueing.{release_node-IsValid, expire_leases-IsValid}
use fleet_lm.Batch.Valid.Leasing.{lease-IsValid}
use fleet_lm.Batch.Valid.Cancelling.{cancel_batch-IsValid}
use fleet_lm.Batch.Valid.Submitting.{IsFresh, create_batch-IsValid, create_batch-kept}

-- A call, with the time at which it runs.
pub data Call : Type 0 where
  submits :
      (batch_id : ℕ) (unit_id : ℕ → ℕ) (model : Option String) (requests : List Request) → Call
  leases : (node_id : ℕ) (node_model : Option String) (count : ℕ) → Call
  completes : (node_id : ℕ) (r : NodeResult) → Call
  fails : (node_id unit_id : ℕ) (message : String) → Call
  releases : (node_id : ℕ) → Call
  expires : Call
  cancels : (batch_id : ℕ) → Call

module _ (lib : Primitives) (settings : Settings) where
  unfoldable pub step : ℕ × Call → BatchStore → BatchStore
  step (now, submits batch_id unit_id model requests) s =
      (create_batch now batch_id unit_id model requests s).1
  step (now, leases node_id node_model count) s = (lease settings now node_id node_model count s).1
  step (now, completes node_id r) s = complete lib now node_id r s
  step (now, fails node_id unit_id message) s = fail settings now node_id unit_id message s
  step (now, releases node_id) s = (release_node node_id s).1
  step (now, expires) s = (expire_leases now s).1
  step (now, cancels batch_id) s = (cancel_batch batch_id s).1

  -- What a call wants: a submission has requests, and `uuid4` draws new identifiers for it.
  abbrev pub Allowed : Call → BatchStore → Type 0
  Allowed (submits batch_id unit_id model requests) s = (requests ≢ []) × IsFresh batch_id unit_id s
  Allowed _ s = Unit {0}

  unfoldable pub run : List (ℕ × Call) → BatchStore → BatchStore
  run [] s = s
  run (c ∷ cs) s = run cs (step c s)

  abbrev pub AllAllowed : List (ℕ × Call) → BatchStore → Type 0
  AllAllowed [] s = Unit {0}
  AllAllowed (c ∷ cs) s = Allowed c.1 s × AllAllowed cs (step c s)

  pub step-IsValid : (c : ℕ × Call) (s : BatchStore) → Allowed c.1 s → Valid s → Valid (step c s)
  unfolding step
  step-IsValid (now, submits batch_id unit_id model requests) s a v =
      create_batch-IsValid now batch_id unit_id model requests s a.0 a.1 v
  step-IsValid (now, leases node_id node_model count) s a v =
      lease-IsValid settings now node_id node_model count s v
  step-IsValid (now, completes node_id r) s a v = complete-IsValid lib now node_id r s v
  step-IsValid (now, fails node_id unit_id message) s a v =
      fail-IsValid settings now node_id unit_id message s v
  step-IsValid (now, releases node_id) s a v = release_node-IsValid node_id s v
  step-IsValid (now, expires) s a v = expire_leases-IsValid now s v
  step-IsValid (now, cancels batch_id) s a v = cancel_batch-IsValid batch_id s v

  -- Every history of allowed calls keeps the invariant of the store.
  pub run-IsValid :
      (cs : List (ℕ × Call)) (s : BatchStore) → AllAllowed cs s → Valid s → Valid (run cs s)
  unfolding run
  run-IsValid [] s a v = v
  run-IsValid (c ∷ cs) s a v = run-IsValid cs (step c s) a.1 (step-IsValid c s a.0 v)

  kept-Moves :
      (d d' : Dict WorkUnit) (k : ℕ) (u : WorkUnit)
      → lookup k d ≡ some u
      → lookup k d' ≡ lookup k d
      → (w : WorkUnit) × (lookup k d' ≡ some w) × Moves u w
  kept-Moves d d' k u h e = (u, e ∙ h, stays)

  -- Each call leaves every unit in the store, and moves it by one transition of the state machine.
  pub step-Moves :
      (c : ℕ × Call) (s : BatchStore) (k : ℕ) (u : WorkUnit)
      → Allowed c.1 s
      → Valid s
      → lookup k s.units ≡ some u
      → (w : WorkUnit) × (lookup k (step c s).units ≡ some w) × Moves u w
  unfolding step
  step-Moves (now, submits batch_id unit_id model requests) s k u a v h =
      kept-Moves _ _ k u h
        (create_batch-kept now batch_id unit_id model requests s k a.1 v (λ e. cc))
  step-Moves (now, leases node_id node_model count) s k u a v h =
      Evolves-on _ _ k u (lease-Evolves settings now node_id node_model count s) h
  step-Moves (now, completes node_id r) s k u a v h =
      Evolves-on _ _ k u (complete-Evolves lib now node_id r s) h
  step-Moves (now, fails node_id unit_id message) s k u a v h =
      Evolves-on _ _ k u (fail-Evolves settings now node_id unit_id message s) h
  step-Moves (now, releases node_id) s k u a v h =
      Evolves-on _ _ k u (release_node-Evolves node_id s) h
  step-Moves (now, expires) s k u a v h = Evolves-on _ _ k u (expire_leases-Evolves now s) h
  step-Moves (now, cancels batch_id) s k u a v h =
      Evolves-on _ _ k u (cancel_batch-Evolves batch_id s) h

  -- A unit that is complete or failed is the same after every history of allowed calls, its result
  -- included: the first result recorded wins.
  pub run-closed :
      (cs : List (ℕ × Call)) (s : BatchStore) (k : ℕ) (u : WorkUnit)
      → AllAllowed cs s
      → Valid s
      → lookup k s.units ≡ some u
      → is_open u.state ≡ false
      → lookup k (run cs s).units ≡ some u
  unfolding run
  run-closed [] s k u a v h o = h
  run-closed (c ∷ cs) s k u a v h o =
      let (w, q, m) = step-Moves c s k u a.0 v h in
      run-closed cs (step c s) k u a.1 (step-IsValid c s a.0 v)
        (q ∙ ground (arith, Moves-closed m o)) o

-- The store that a server starts with is valid.
pub new_store-IsValid :
    (metrics : Option FleetMetrics) (verifier : Option Verifier)
    → Valid (new_store metrics verifier)
unfolding new_store lookup
new_store-IsValid metrics verifier = record {
  stored = λ k u h. cc;
  queued = λ k u h. cc;
  owned = λ b batch k h. cc;
  settled = λ b batch h. cc;
  homed = λ k u h. cc;
  silent = λ b batch k u h. cc;
}

module _ (lib : Primitives) (settings : Settings) (metrics : Option FleetMetrics)
    (verifier : Option Verifier) (cs : List (ℕ × Call))
    (allowed : AllAllowed lib settings cs (new_store metrics verifier)) where
  abbrev reached_store : BatchStore
  reached_store = run lib settings cs (new_store metrics verifier)

  reached-IsValid : Valid reached_store
  reached-IsValid =
      run-IsValid lib settings cs (new_store metrics verifier) allowed
        (new_store-IsValid metrics verifier)

  -- No history loses work: whatever calls a server has run, each unit that is pending is in the
  -- queue, so that a node can lease it.
  pub pending_in_queue :
      (k : ℕ) (u : WorkUnit)
      → lookup k reached_store.units ≡ some u
      → is_pending u.state ≡ true
      → contains k reached_store.pending ≡ true
  pending_in_queue k u h p = pending-contains reached_store k u reached-IsValid h p

  -- Whatever calls a server has run, a batch is in progress exactly while one of the units that
  -- its submitter asked for is pending or leased; canaries do not hold it open.
  pub in_progress_iff_open :
      (b : ℕ) (batch : Batch)
      → lookup b reached_store.batches ≡ some batch
      → is_in_progress batch.state ≡ any_open batch.unit_ids reached_store.units
  in_progress_iff_open = reached-IsValid.settled

  -- Whatever calls a server has run, a cancelled batch has no pending or leased unit, canaries
  -- included.
  pub cancelled_silent :
      (b : ℕ) (batch : Batch) (k : ℕ) (u : WorkUnit)
      → lookup b reached_store.batches ≡ some batch
      → is_cancelled batch.state ≡ true
      → contains k (members batch) ≡ true
      → lookup k reached_store.units ≡ some u
      → is_open u.state ≡ false
  cancelled_silent = reached-IsValid.silent

  -- Whatever calls a server has run, the fields of each unit fit its state: a pending unit has no
  -- node, no lease and no result; a leased one has a node and at least one attempt and no result;
  -- a complete one has a node and a result; a failed one has an error and no result.
  pub fields-IsFit : (k : ℕ) (u : WorkUnit) → lookup k reached_store.units ≡ some u → IsFit u
  fields-IsFit k u h = (reached-IsValid.stored k u h).fit
