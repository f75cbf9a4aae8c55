-- ===== src/Batch/Units.antt =====
-- What holds of every unit of a store, and how the changes of a store keep it.
use fleet_lm.Base.{
  ℕ, String, Bool, Option, some, ◌≡◌, inl, inr, List, [], ◌∷◌, ◌==◌, arith, Bool-cases,
  Option-cases, Dict, lookup, modify, map_values, lookup-modify, lookup-map_values,
}
use fleet_lm.Config.{Settings}
use fleet_lm.Batch.Data.{WorkUnit, BatchStore, Request, pending, requeued}
use fleet_lm.Batch.Submit.{create_batch}
use fleet_lm.Batch.Lease.{lease, lease_unit}
use fleet_lm.Batch.LeaseLoop.{LeasedOrSame, lease_loop-unit}
use fleet_lm.Batch.Requeue.{reclaim, requeue_where}
use fleet_lm.Batch.Cancel.{cancel_unit, cancel_units}
use fleet_lm.Batch.Machine.{Evolves-back}
use fleet_lm.Batch.Evolve.{lease-Evolves}
use fleet_lm.Batch.Valid.Defs.{Valid}
use fleet_lm.Batch.Valid.Submitting.{IsFresh, create_batch-before}

module _ (P : WorkUnit → Type 0) where
  abbrev pub AllUnits : Dict WorkUnit → Type 0
  AllUnits units = (k : ℕ) (u : WorkUnit) → lookup k units ≡ some u → P u

  pub modify-AllUnits :
      (j : ℕ) (f : WorkUnit → WorkUnit) (units : Dict WorkUnit)
      → ((u : WorkUnit) → lookup j units ≡ some u → P (f u))
      → AllUnits units
      → AllUnits (modify j f units)
  modify-AllUnits j f units h all k v q = elim (Option-cases (lookup k units)) [
    | inl e ↦ ground (arith, lookup-modify k j f units)
    | inr (u, e) ↦ elim (Bool-cases (k == j)) [
      | inl at ↦
          let same : k ≡ j = ground arith in
          let moved : f u ≡ v = ground (arith, lookup-modify k j f units) in
          rw (← moved) (h u (rw (← same) e))
      | inr off ↦ all k v (ground (arith, lookup-modify k j f units))
    ]
  ]

  pub map_values-AllUnits :
      (f : WorkUnit → WorkUnit) (units : Dict WorkUnit)
      → ((u : WorkUnit) → P u → P (f u))
      → AllUnits units
      → AllUnits (map_values f units)
  map_values-AllUnits f units h all k v q = elim (Option-cases (lookup k units)) [
    | inl e ↦ ground (arith, lookup-map_values k f units)
    | inr (u, e) ↦
        let moved : f u ≡ v = ground (arith, lookup-map_values k f units) in
        rw (← moved) (h u (all k u e))
  ]

  pub cancel_units-AllUnits :
      (uids : List ℕ) (units : Dict WorkUnit)
      → ((u : WorkUnit) → P u → P (cancel_unit u))
      → AllUnits units
      → AllUnits (cancel_units uids units)
  unfolding cancel_units
  cancel_units-AllUnits [] units h all = all
  cancel_units-AllUnits (uid ∷ uids) units h all =
      cancel_units-AllUnits uids (modify uid cancel_unit units) h
        (modify-AllUnits uid cancel_unit units (λ u q. h u (all uid u q)) all)

  pub requeue_where-AllUnits :
      (test : WorkUnit → Bool) (s : BatchStore)
      → ((u : WorkUnit) → P u → P (requeued u))
      → AllUnits s.units
      → AllUnits (requeue_where test s).1.units
  unfolding requeue_where reclaim
  requeue_where-AllUnits test s h =
      map_values-AllUnits (reclaim test) s.units
        λ u p. elim (Bool-cases (test u)) [ inl e ↦ rw e (h u p) | inr e ↦ rw e p ]

  module _ (settings : Settings) (now node_id : ℕ) (node_model : Option String)
      (leases : (u : WorkUnit) → P u → P (lease_unit settings now node_id node_model u)) where
    leased-AllUnits :
        (u v : WorkUnit) → LeasedOrSame settings now node_id node_model u (some v) → P u → P v
    leased-AllUnits u v (inl e) p = let same : u ≡ v = ground arith in rw (← same) p
    leased-AllUnits u v (inr (w, e)) p =
        let same : lease_unit settings now node_id node_model u ≡ v = ground arith in
        rw (← same) (leases u p)

    pub lease-AllUnits :
        (count : ℕ) (s : BatchStore)
        → AllUnits s.units
        → AllUnits (lease settings now node_id node_model count s).1.units
    unfolding lease
    lease-AllUnits count s all k v q =
        let (u, p, m) =
          Evolves-back s.units _ k v (lease-Evolves settings now node_id node_model count s) q in
        leased-AllUnits u v
          (rw (← q) (
            lease_loop-unit settings now node_id node_model s.batches count s.pending [] [] s.units
              k u p))
          (all k u p)

  pub create_batch-AllUnits :
      (now batch_id : ℕ) (unit_id : ℕ → ℕ) (model : Option String) (requests : List Request)
      (s : BatchStore)
      → ((u : WorkUnit) → u.state ≡ pending → P u)
      → IsFresh batch_id unit_id s
      → Valid s
      → AllUnits s.units
      → AllUnits (create_batch now batch_id unit_id model requests s).1.units
  create_batch-AllUnits now batch_id unit_id model requests s new fresh v all k u q =
      elim (create_batch-before now batch_id unit_id model requests s k u fresh v q) [
        | inl old ↦ all k u old
        | inr waits ↦ new u waits
      ]
