-- ===== src/Batch/LeaseLoop.antt =====
-- The loop of `lease`: a case rule for one entry of the queue, and what the loop does to a unit.
use fleet_lm.Base.{
  ℕ, String, true, false, Option, none, some, ◌≡◌, refl, ◌⊎◌, inl, inr, List, [], ◌∷◌, ◌++◌, arith,
  leb, ◌==◌, length, Bool-cases, Option-cases, Dict, lookup, modify, lookup-modify,
}
use fleet_lm.Config.{Settings}
use fleet_lm.Batch.Data.{WorkUnit, Batch, is_pending}
use fleet_lm.Batch.Lease.{
  Visit, drop, skip, take, serves, batch_gone, lease_unit, visit, lease_loop,
}
use fleet_lm.Batch.Machine.{stays, leases, MovesAt, Evolves}

pub Visit-cases : (v : Visit) → (v ≡ drop) ⊎ (v ≡ skip) ⊎ ((u : WorkUnit) × (v ≡ take u))
Visit-cases drop = inl refl
Visit-cases skip = inr (inl refl)
Visit-cases (take u) = inr (inr (u, refl))

module _ (settings : Settings) (now node_id : ℕ) (node_model : Option String) where
  abbrev pub leased_unit : WorkUnit → WorkUnit
  leased_unit = lease_unit settings now node_id node_model

  abbrev pub run_queue :
      Dict Batch
      → ℕ
      → List ℕ
      → List WorkUnit
      → List ℕ
      → Dict WorkUnit
      → List WorkUnit × List ℕ × Dict WorkUnit
  run_queue = lease_loop settings now node_id node_model

  -- What holds of an entry that the loop hands out.
  pub record IsTaken (batches : Dict Batch) (o : Option WorkUnit) (u : WorkUnit) : Type 0 where
    pub found : o ≡ some u
    pub waiting : is_pending u.state ≡ true
    pub wanted : batch_gone u.batch_id batches ≡ false
    pub served : serves node_model u.model ≡ true

  visit-take :
      (batches : Dict Batch) (o : Option WorkUnit) (u : WorkUnit)
      → visit settings now node_id node_model batches o ≡ take u
      → IsTaken batches o u
  unfolding visit
  visit-take batches none u h = cc
  visit-take batches (some w) u h = ground arith

  -- An entry is dropped only if its unit is not pending or its batch went away.
  pub visit-drop :
      (batches : Dict Batch) (u : WorkUnit)
      → visit settings now node_id node_model batches (some u) ≡ drop
      → is_pending u.state ≡ true
      → batch_gone u.batch_id batches ≡ true
  unfolding visit
  visit-drop batches u h p = ground arith

  pub lease_loop_cases {ℓ} :
      (P : List WorkUnit × List ℕ × Dict WorkUnit → Type ℓ) (batches : Dict Batch) (count uid : ℕ)
      (queue : List ℕ) (out : List WorkUnit) (still : List ℕ) (units : Dict WorkUnit)
      → (leb count (length out) ≡ true → P (out, still ++ uid ∷ queue, units))
      → (leb count (length out) ≡ false
          → visit settings now node_id node_model batches (lookup uid units) ≡ drop
          → P (run_queue batches count queue out still units))
      → (leb count (length out) ≡ false
          → visit settings now node_id node_model batches (lookup uid units) ≡ skip
          → P (run_queue batches count queue out (still ++ uid ∷ []) units))
      → ((u : WorkUnit)
          → leb count (length out) ≡ false
          → IsTaken batches (lookup uid units) u
          → P (
              run_queue batches count queue
                (out ++ leased_unit u ∷ [])
                still
                (modify uid leased_unit units)))
      → P (run_queue batches count (uid ∷ queue) out still units)
  unfolding lease_loop
  lease_loop_cases P batches count uid queue out still units full dropped skipped taken =
      elim (Bool-cases (leb count (length out))) [
        | inl e ↦ rw (e, lease_loop) (full e)
        | inr e ↦
            rw (e, lease_loop)
              (elim (Visit-cases
                (visit settings now node_id node_model batches (lookup uid units))) [
                  | inl d ↦ rw (d, lease_loop) (dropped e d)
                  | inr (inl d) ↦ rw (d, lease_loop) (skipped e d)
                  | inr (inr (u, d)) ↦ rw (d, lease_loop) (taken u e (visit-take batches _ u d))
                ])
      ]

  -- A unit goes through the loop unchanged, or is pending and gets leased.
  abbrev pub LeasedOrSame : WorkUnit → Option WorkUnit → Type 0
  LeasedOrSame u o = (o ≡ some u) ⊎ ((is_pending u.state ≡ true) × (o ≡ some (leased_unit u)))

  once_leased :
      (u : WorkUnit) (o : Option WorkUnit)
      → is_pending u.state ≡ true
      → LeasedOrSame (leased_unit u) o
      → LeasedOrSame u o
  unfolding lease_unit
  once_leased u o p (inl e) = inr (p, e)
  once_leased u o p (inr (q, e)) = cc

  pub lease_loop-unit :
      (batches : Dict Batch) (count : ℕ) (queue : List ℕ) (out : List WorkUnit) (still : List ℕ)
      (units : Dict WorkUnit) (k : ℕ) (u : WorkUnit)
      → lookup k units ≡ some u
      → LeasedOrSame u (lookup k (run_queue batches count queue out still units).2)
  unfolding lease_loop
  lease_loop-unit batches count [] out still units k u h = inl h
  lease_loop-unit batches count (uid ∷ queue) out still units k u h =
      lease_loop_cases (λ r. LeasedOrSame u (lookup k r.2)) batches count uid queue out still units
        (λ _. inl h) (λ _ _. lease_loop-unit batches count queue out still units k u h)
        (λ _ _. lease_loop-unit batches count queue out (still ++ uid ∷ []) units k u h)
        (λ w _ t. elim (Bool-cases (k == uid)) [
          | inl e ↦
              let same : w ≡ u = ground (arith, t.found) in
              once_leased u _ (rw (← same) t.waiting) (
                lease_loop-unit batches count queue (out ++ leased_unit w ∷ []) still
                  (modify uid leased_unit units) k (leased_unit u)
                  (rw (lookup-modify k uid leased_unit units, e) (rw h refl)))
          | inr e ↦
              lease_loop-unit batches count queue (out ++ leased_unit w ∷ []) still
                (modify uid leased_unit units) k u (rw (lookup-modify k uid leased_unit units, e) h)
        ])

  pub lease_loop-none :
      (batches : Dict Batch) (count : ℕ) (queue : List ℕ) (out : List WorkUnit) (still : List ℕ)
      (units : Dict WorkUnit) (k : ℕ)
      → lookup k units ≡ none
      → lookup k (run_queue batches count queue out still units).2 ≡ none
  unfolding lease_loop
  lease_loop-none batches count [] out still units k h = h
  lease_loop-none batches count (uid ∷ queue) out still units k h =
      lease_loop_cases (λ r. lookup k r.2 ≡ none) batches count uid queue out still units (λ _. h)
        (λ _ _. lease_loop-none batches count queue out still units k h)
        (λ _ _. lease_loop-none batches count queue out (still ++ uid ∷ []) units k h)
        (λ w _ t.
          lease_loop-none batches count queue (out ++ leased_unit w ∷ []) still
            (modify uid leased_unit units) k
            (ground (arith, lookup-modify k uid leased_unit units)))

  leased-MovesAt : (u : WorkUnit) (o : Option WorkUnit) → LeasedOrSame u o → MovesAt (some u) o
  leased-MovesAt u o (inl e) = rw e stays
  leased-MovesAt u o (inr (p, e)) = rw e (leases settings now node_id node_model p)

  pub lease_loop-Evolves :
      (batches : Dict Batch) (count : ℕ) (queue : List ℕ) (out : List WorkUnit) (still : List ℕ)
      (units : Dict WorkUnit)
      → Evolves units (run_queue batches count queue out still units).2
  lease_loop-Evolves batches count queue out still units k = elim (Option-cases (lookup k units)) [
    | inl e ↦ rw (e, lease_loop-none batches count queue out still units k e) tt
    | inr (u, e) ↦
        rw e (leased-MovesAt u _ (lease_loop-unit batches count queue out still units k u e))
  ]
