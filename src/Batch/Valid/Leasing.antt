-- ===== src/Batch/Valid/Leasing.antt =====
-- `lease` keeps the invariant: what it does not hand out stays in the queue.
use fleet_lm.Base.{
  ℕ, String, true, false, Option, some, ◌≡◌, refl, sym, ◌∙◌, List, [], ◌∷◌, ◌++◌, ◌||◌, arith, ◌==◌,
  Bool-cases, Option-cases, contains, contains-append, inl, inr, Dict, lookup, modify,
  lookup-modify,
}
use fleet_lm.Config.{Settings}
use fleet_lm.Batch.Data.{WorkUnit, Batch, BatchStore, is_open, is_pending}
use fleet_lm.Batch.Lease.{drop, batch_gone, lease_unit, visit, lease_loop, lease}
use fleet_lm.Batch.LeaseLoop.{
  leased_unit, run_queue, visit-drop, lease_loop_cases, LeasedOrSame, lease_loop-unit,
  lease_loop-none, lease_loop-Evolves,
}
use fleet_lm.Batch.Report.{open_unit}
use fleet_lm.Batch.Valid.Defs.{
  Valid, Evolves-AllStored, Evolves-AllOwned, Evolves-AllHomed, Evolves-AllSilent,
}
use fleet_lm.Batch.Valid.Opens.{any_open-congr}

module _ (settings : Settings) (now node_id : ℕ) (node_model : Option String) (batches : Dict Batch)
    (count : ℕ) where
  abbrev final :
      List ℕ → List WorkUnit → List ℕ → Dict WorkUnit → List WorkUnit × List ℕ × Dict WorkUnit
  final = run_queue settings now node_id node_model batches count

  -- A unit that is pending at the end was the same at the start.
  pending_before :
      (u w : WorkUnit) (o : Option WorkUnit)
      → LeasedOrSame settings now node_id node_model u o
      → o ≡ some w
      → is_pending w.state ≡ true
      → w ≡ u
  unfolding lease_unit
  pending_before u w o (inl e) h p = ground arith
  pending_before u w o (inr (q, e)) h p = absurd (ground arith)

  -- A dropped entry is not a pending unit of a batch that is there.
  dropped_other :
      (uid k : ℕ) (queue : List ℕ) (out : List WorkUnit) (still : List ℕ) (units : Dict WorkUnit)
      (w : WorkUnit)
      → visit settings now node_id node_model batches (lookup uid units) ≡ drop
      → lookup k (final queue out still units).2 ≡ some w
      → is_pending w.state ≡ true
      → batch_gone w.batch_id batches ≡ false
      → (k == uid) ≡ false
  dropped_other uid k queue out still units w d q p g = elim (Bool-cases (k == uid)) [
    | inr off ↦ off
    | inl at ↦
        let same : k ≡ uid = ground arith in
        elim (Option-cases (lookup k units)) [
          | inl absent ↦ absurd (
              ground (
                arith,
                lease_loop-none settings now node_id node_model batches count queue out still units
                    k,
              ))
          | inr (u, e) ↦
              let unit : w ≡ u =
                pending_before u w _
                  (lease_loop-unit settings now node_id node_model batches count queue out still
                    units k u e)
                  q p in
              absurd (ground (arith, visit-drop settings now node_id node_model batches u))
        ]
  ]

  -- Nor is an entry that was handed out pending at the end.
  taken_other :
      (uid k : ℕ) (queue : List ℕ) (out : List WorkUnit) (still : List ℕ) (units : Dict WorkUnit)
      (u w : WorkUnit)
      → lookup uid units ≡ some u
      → lookup k
          (final queue out still (modify uid (leased_unit settings now node_id node_model) units)).2
        ≡ some w
      → is_pending w.state ≡ true
      → (k == uid) ≡ false
  unfolding lease_unit
  taken_other uid k queue out still units u w e q p = elim (Bool-cases (k == uid)) [
    | inr off ↦ off
    | inl at ↦
        let same : k ≡ uid = ground arith in
        let start : lookup k (modify uid (leased_unit settings now node_id node_model) units)
            ≡ some (leased_unit settings now node_id node_model u) =
          ground (arith, lookup-modify k uid (leased_unit settings now node_id node_model) units) in
        let unit : w ≡ leased_unit settings now node_id node_model u =
          pending_before _ w _
            (lease_loop-unit settings now node_id node_model batches count queue out still _ k _
              start)
            q p in
        absurd (ground arith)
  ]

  abbrev Kept : ℕ → WorkUnit → List WorkUnit × List ℕ × Dict WorkUnit → Type 0
  Kept k w r =
      lookup k r.2 ≡ some w
      → is_pending w.state ≡ true
      → batch_gone w.batch_id batches ≡ false
      → contains k r.1 ≡ true

  lease_loop-Kept :
      (queue : List ℕ) (out : List WorkUnit) (still : List ℕ) (units : Dict WorkUnit) (k : ℕ)
      (w : WorkUnit)
      → (contains k still || contains k queue) ≡ true
      → Kept k w (final queue out still units)
  unfolding lease_loop contains
  lease_loop-Kept [] out still units k w h = λ q p g. ground arith
  lease_loop-Kept (uid ∷ queue) out still units k w h =
      lease_loop_cases settings now node_id node_model (Kept k w) batches count uid queue out still
        units (λ full q p g. ground (arith, contains-append k still (uid ∷ queue)))
        (λ _ d q p g.
          lease_loop-Kept queue out still units k w
            (ground (arith, dropped_other uid k queue out still units w d q p g)) q p g)
        (λ _ _.
          lease_loop-Kept queue out (still ++ uid ∷ []) units k w
            (ground (arith, contains-append k still (uid ∷ []))))
        (λ u _ t q p g.
          lease_loop-Kept queue (out ++ leased_unit settings now node_id node_model u ∷ []) still
            (modify uid (leased_unit settings now node_id node_model) units) k w
            (ground (
              arith,
              taken_other uid k queue (out ++ leased_unit settings now node_id node_model u ∷ [])
                  still units u w t.found q p,
            ))
            q p g)

  -- Leasing keeps a unit open.
  leased-open :
      (u : WorkUnit) (o : Option WorkUnit)
      → LeasedOrSame settings now node_id node_model u o
      → open_unit o ≡ is_open u.state
  unfolding open_unit lease_unit
  leased-open u o (inl e) = rw e refl
  leased-open u o (inr (p, e)) = rw e (ground arith)

  run-open :
      (queue : List ℕ) (out : List WorkUnit) (still : List ℕ) (units : Dict WorkUnit) (k : ℕ)
      → open_unit (lookup k (final queue out still units).2) ≡ open_unit (lookup k units)
  unfolding open_unit
  run-open queue out still units k = elim (Option-cases (lookup k units)) [
    | inl e ↦ ground (
      arith,
      lease_loop-none settings now node_id node_model batches count queue out still units k e,
    )
    | inr (u, e) ↦
        leased-open u _ (
          lease_loop-unit settings now node_id node_model batches count queue out still units k u e)
        ∙ sym (rw e refl)
  ]

pub lease-IsValid :
    (settings : Settings) (now node_id : ℕ) (node_model : Option String) (count : ℕ)
    (s : BatchStore)
    → Valid s
    → Valid (lease settings now node_id node_model count s).1
unfolding lease
lease-IsValid settings now node_id node_model count s v =
    let r : List WorkUnit × List ℕ × Dict WorkUnit =
      run_queue settings now node_id node_model s.batches count s.pending [] [] s.units in
    let e =
      lease_loop-Evolves settings now node_id node_model s.batches count s.pending [] [] s.units in
    record {
      stored = Evolves-AllStored s.units r.2 e v.stored;
      queued = λ k w q p g. elim (Option-cases (lookup k s.units)) [
        | inl absent ↦ absurd (
            ground (
              arith,
              lease_loop-none settings now node_id node_model s.batches count s.pending [] []
                  s.units k,
            ))
        | inr (u, at) ↦
            let same : w ≡ u =
              pending_before settings now node_id node_model s.batches count u w _
                (lease_loop-unit settings now node_id node_model s.batches count s.pending [] []
                  s.units k u at)
                q p in
            lease_loop-Kept settings now node_id node_model s.batches count s.pending [] [] s.units
              k w (unfold contains in v.queued k u at (ground arith) (ground arith)) q p g
      ];
      owned = Evolves-AllOwned s.units r.2 e s.batches v.owned;
      homed = Evolves-AllHomed s.units r.2 e s.batches v.homed;
      silent = Evolves-AllSilent s.units r.2 e s.batches v.silent;
      settled = λ b batch q.
          v.settled b batch q
          ∙ sym (
              any_open-congr batch.unit_ids s.units r.2 (λ k _.
                run-open settings now node_id node_model s.batches count s.pending [] [] s.units
                  k));
    }
