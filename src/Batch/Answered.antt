-- ===== src/Batch/Answered.antt =====
-- The lines of `results` for a submission, after whatever other calls.
use fleet_lm.Base.{
  ℕ, suc, ◌+◌, String, Option, none, some, ◌≡◌, refl, sym, ◌∙◌, ap, inl, inr, List, [], ◌∷◌, map,
  arith, Dict, lookup, lookup-insert, lookup-insert_same, sort_by, ◌==◌, Bool-cases,
}
use fleet_lm.Config.{Settings}
use fleet_lm.Metrics.{FleetMetrics}
use fleet_lm.Verification.{Primitives, Verifier}
use fleet_lm.Batch.Data.{WorkUnit, Batch, BatchStore, Request, result_record, new_store}
use fleet_lm.Batch.Submit.{ids, request_units, create_batch}
use fleet_lm.Batch.Lease.{lease}
use fleet_lm.Batch.Requeue.{requeue_where, release_node, expire_leases}
use fleet_lm.Batch.Status.{known_units, results}
use fleet_lm.Batch.Valid.Defs.{Valid}
use fleet_lm.Batch.Ordering.{
  BatchesKept, BatchesKept-refl, complete-BatchesKept, fail-BatchesKept, cancel_batch-BatchesKept,
}
use fleet_lm.Batch.Requested.{request_at, IsFor, HoldsFor, submitted-HoldsFor, Moves-IsFor}
use fleet_lm.Batch.Results.{CountsUp, sort_by-CountsUp, known_units-on}
use fleet_lm.Batch.History.{
  Call, submits, leases, completes, fails, releases, expires, cancels, step, run, Allowed,
  AllAllowed, step-IsValid, step-Moves, run-IsValid, new_store-IsValid,
}

-- The units are, one by one, those of the requests, the first of which has the number `i`.
abbrev pub AnsweredFrom : ℕ → (ℕ → ℕ) → Dict WorkUnit → ℕ → List Request → List WorkUnit → Type 0
AnsweredFrom batch_id unit_id units i [] [] = Unit {0}
AnsweredFrom batch_id unit_id units i (req ∷ reqs) (u ∷ us) =
    (lookup (unit_id i) units ≡ some u)
    × IsFor batch_id (unit_id i) i req u
    × AnsweredFrom batch_id unit_id units (suc i) reqs us
AnsweredFrom _ _ _ _ _ _ = ⊥

module _ (now batch_id : ℕ) (unit_id : ℕ → ℕ) (model : Option String) (units : Dict WorkUnit) where
  known_units-AnsweredFrom :
      (i : ℕ) (reqs : List Request)
      → ((j n : ℕ) (req : Request)
          → n ≡ i + j
          → request_at reqs j ≡ some req
          → HoldsFor batch_id (unit_id n) n req units)
      → AnsweredFrom batch_id unit_id units i reqs
          (known_units (ids (request_units now batch_id unit_id model i reqs)) units)
  unfolding request_units known_units
  known_units-AnsweredFrom i [] h = tt
  known_units-AnsweredFrom i (req ∷ reqs) h =
      let (u, q, f) = h 0 i req (omega arith) refl in
      let later = request_units now batch_id unit_id model (suc i) reqs in
      rw (known_units-on (unit_id i) (ids later) units u q) (
        q,
        f,
        known_units-AnsweredFrom (suc i) reqs (λ j n r e at. h (suc j) n r (omega (arith, e)) at),
      )

  AnsweredFrom-CountsUp :
      (i : ℕ) (reqs : List Request) (us : List WorkUnit)
      → AnsweredFrom batch_id unit_id units i reqs us
      → CountsUp (λ u. u.index) i us
  AnsweredFrom-CountsUp i [] [] h = tt
  AnsweredFrom-CountsUp i [] (u ∷ us) h = elim h [ ]
  AnsweredFrom-CountsUp i (req ∷ reqs) [] h = elim h [ ]
  AnsweredFrom-CountsUp i (req ∷ reqs) (u ∷ us) (q, f, h) =
      (f.place, AnsweredFrom-CountsUp (suc i) reqs us h)

-- The batch is there with these units.
abbrev Lists : ℕ → List ℕ → Dict Batch → Type 0
Lists b uids batches = (batch : Batch) × (lookup b batches ≡ some batch) × (batch.unit_ids ≡ uids)

module _ (lib : Primitives) (settings : Settings) (b : ℕ) (uids : List ℕ) where
  kept_list :
      (batches batches' : Dict Batch) (batch' : Batch)
      → BatchesKept batches batches'
      → Lists b uids batches
      → lookup b batches' ≡ some batch'
      → batch'.unit_ids ≡ uids
  kept_list batches batches' batch' kept (batch, q, e) q' =
      let (old, p, same) = kept b batch' q' in
      let equal : old ≡ batch = cc in same ∙ ap (λ x. x.unit_ids) equal ∙ e

  submitted_list :
      (now batch_id : ℕ) (unit_id : ℕ → ℕ) (model : Option String) (requests : List Request)
      (s : BatchStore) (batch' : Batch)
      → lookup batch_id s.batches ≡ none
      → Lists b uids s.batches
      → lookup b (create_batch now batch_id unit_id model requests s).1.batches ≡ some batch'
      → batch'.unit_ids ≡ uids
  unfolding create_batch
  submitted_list now batch_id unit_id model requests s batch' fresh (batch, q, e) q' =
      let at =
        lookup-insert b batch_id (create_batch now batch_id unit_id model requests s).0 s.batches in
      elim (Bool-cases (b == batch_id)) [
        | inl same ↦ let here : b ≡ batch_id = ground arith in absurd (ground arith)
        | inr off ↦
            let kept : lookup b (create_batch now batch_id unit_id model requests s).1.batches
                ≡ lookup b s.batches =
              rw (at, off) refl in
            let same : some batch ≡ some batch' = sym q ∙ sym kept ∙ q' in
            let equal : batch ≡ batch' = cc in rw (← equal) e
      ]

  step-unit_ids :
      (c : ℕ × Call) (s : BatchStore) (batch' : Batch)
      → Allowed lib settings c.1 s
      → Lists b uids s.batches
      → lookup b (step lib settings c s).batches ≡ some batch'
      → batch'.unit_ids ≡ uids
  unfolding step lease release_node expire_leases requeue_where
  step-unit_ids (now, submits batch_id unit_id model requests) s batch' a l q =
      submitted_list now batch_id unit_id model requests s batch' a.1.batch l q
  step-unit_ids (now, leases node_id node_model count) s batch' a l q =
      kept_list s.batches _ batch' (BatchesKept-refl s.batches) l q
  step-unit_ids (now, completes node_id r) s batch' a l q =
      kept_list s.batches _ batch' (complete-BatchesKept lib now node_id r s) l q
  step-unit_ids (now, fails node_id unit_id message) s batch' a l q =
      kept_list s.batches _ batch' (fail-BatchesKept settings now node_id unit_id message s) l q
  step-unit_ids (now, releases node_id) s batch' a l q =
      kept_list s.batches _ batch' (BatchesKept-refl s.batches) l q
  step-unit_ids (now, expires) s batch' a l q =
      kept_list s.batches _ batch' (BatchesKept-refl s.batches) l q
  step-unit_ids (now, cancels batch_id) s batch' a l q =
      kept_list s.batches _ batch' (cancel_batch-BatchesKept batch_id s) l q

module _ (lib : Primitives) (settings : Settings) where
  run-HoldsFor :
      (cs : List (ℕ × Call)) (s : BatchStore) (b uid j : ℕ) (req : Request)
      → AllAllowed lib settings cs s
      → Valid s
      → HoldsFor b uid j req s.units
      → HoldsFor b uid j req (run lib settings cs s).units
  unfolding run
  run-HoldsFor [] s b uid j req a v h = h
  run-HoldsFor (c ∷ cs) s b uid j req a v (u, q, f) =
      let (w, p, m) = step-Moves lib settings c s uid u a.0 v q in
      run-HoldsFor cs (step lib settings c s) b uid j req a.1 (step-IsValid lib settings c s a.0 v)
        (w, p, Moves-IsFor b uid j req m f)

  -- A batch with a unit in the store stays, with the list that it has.
  run-Lists :
      (cs : List (ℕ × Call)) (s : BatchStore) (b uid j : ℕ) (req : Request) (uids : List ℕ)
      → AllAllowed lib settings cs s
      → Valid s
      → HoldsFor b uid j req s.units
      → Lists b uids s.batches
      → Lists b uids (run lib settings cs s).batches
  unfolding run
  run-Lists [] s b uid j req uids a v h l = l
  run-Lists (c ∷ cs) s b uid j req uids a v (u, q, f) l =
      let (w, p, m) = step-Moves lib settings c s uid u a.0 v q in
      let f' = Moves-IsFor b uid j req m f in
      let v' = step-IsValid lib settings c s a.0 v in
      let (home, at, listed) = v'.homed uid w p in
      let here : lookup b (step lib settings c s).batches ≡ some home = rw (← f'.home) at in
      run-Lists cs (step lib settings c s) b uid j req uids a.1 v' (w, p, f')
        (home, here, step-unit_ids lib settings b uids c s home a.0 l here)

  made_list :
      (now batch_id : ℕ) (unit_id : ℕ → ℕ) (model : Option String) (requests : List Request)
      (s : BatchStore)
      → Lists batch_id
          (ids (request_units now batch_id unit_id model 0 requests))
          (create_batch now batch_id unit_id model requests s).1.batches
  unfolding create_batch
  made_list now batch_id unit_id model requests s =
      (_, lookup-insert_same batch_id _ s.batches, refl)

  made-Lists :
      (now batch_id : ℕ) (unit_id : ℕ → ℕ) (model : Option String) (requests : List Request)
      (cs : List (ℕ × Call)) (s : BatchStore)
      → let s' = step lib settings (now, submits batch_id unit_id model requests) s in
        Allowed lib settings (submits batch_id unit_id model requests) s
        → AllAllowed lib settings cs s'
        → Valid s
        → Lists batch_id
            (ids (request_units now batch_id unit_id model 0 requests))
            (run lib settings cs s').batches
  made-Lists now batch_id unit_id model [] cs s a later v = absurd (a.0 refl)
  made-Lists now batch_id unit_id model (req ∷ reqs) cs s a later v =
      let c = submits batch_id unit_id model (req ∷ reqs) in
      run-Lists cs (step lib settings (now, c) s) batch_id (unit_id 0) 0 req _ later
        (step-IsValid lib settings (now, c) s a v)
        (unfold step in
          submitted-HoldsFor now batch_id unit_id model a.1.distinct s (req ∷ reqs) 0 req refl)
        (unfold step in made_list now batch_id unit_id model (req ∷ reqs) s)

  listed_results :
      (b : ℕ) (uids : List ℕ) (s : BatchStore)
      → Lists b uids s.batches
      → results b s ≡ map result_record (sort_by (λ u. u.index) (known_units uids s.units))
  unfolding results
  listed_results b uids s (batch, q, e) = rw (q, results, e) refl

-- The results of a batch answer its submission. After any history, a submission of at least one
-- request with new identifiers, and any history after that, the lines that `results` gives for the
-- batch are those of units which are, one by one and in the order of submission, the units of the
-- requests: the j-th has the j-th identifier and index j, and asks what the j-th request asks.
pub results_answer_requests :
    (lib : Primitives) (settings : Settings) (metrics : Option FleetMetrics)
    (verifier : Option Verifier) (cs cs' : List (ℕ × Call)) (now batch_id : ℕ) (unit_id : ℕ → ℕ)
    (model : Option String) (requests : List Request)
    → AllAllowed lib settings cs (new_store metrics verifier)
    → let s = run lib settings cs (new_store metrics verifier) in
      let submitted = step lib settings (now, submits batch_id unit_id model requests) s in
      let after = run lib settings cs' submitted in
      Allowed lib settings (submits batch_id unit_id model requests) s
      → AllAllowed lib settings cs' submitted
      → (us : List WorkUnit) × (results batch_id after ≡ map result_record us)
        × AnsweredFrom batch_id unit_id after.units 0 requests us
results_answer_requests lib settings metrics verifier cs cs' now batch_id unit_id model requests
      before a later =
    let s0 = new_store metrics verifier in
    let s = run lib settings cs s0 in
    let c = submits batch_id unit_id model requests in
    let submitted = step lib settings (now, c) s in
    let after = run lib settings cs' submitted in
    let v = run-IsValid lib settings cs s0 before (new_store-IsValid metrics verifier) in
    let v' = step-IsValid lib settings (now, c) s a v in
    let uids = ids (request_units now batch_id unit_id model 0 requests) in
    let us = known_units uids after.units in
    let answered =
      known_units-AnsweredFrom now batch_id unit_id model after.units 0 requests (λ j n req e at.
        let same : n ≡ j = omega (arith, e) in
        rw same (
          run-HoldsFor lib settings cs' submitted batch_id (unit_id j) j req later v' (
            unfold step in
            submitted-HoldsFor now batch_id unit_id model a.1.distinct s requests j req at))) in
    (
      us,
      listed_results lib settings batch_id uids after
            (made-Lists lib settings now batch_id unit_id model requests cs' s a later v)
          ∙ ap (map result_record) (
              sort_by-CountsUp (λ u. u.index) 0 us
                (AnsweredFrom-CountsUp now batch_id unit_id model after.units 0 requests us
                  answered)),
      answered,
    )
