-- ===== src/Batch/Evolve.antt =====
-- Each method of `BatchStore` moves the units that are in the store by transitions of `Machine`.
use mathlib.Core.Option
use fleet_lm.Base.{
  ℕ, String, Bool, true, Option, none, some, ◌≡◌, refl, inl, inr, List, [], ◌∷◌, ◌++◌, ap, arith,
  if◌then◌else◌, Bool-cases, Option-cases, contains, Dict, lookup, modify, map_values,
  lookup-modify,
}
use fleet_lm.Config.{Settings}
use fleet_lm.Verification.{Primitives}
use fleet_lm.Batch.Data.{WorkUnit, Batch, BatchStore, is_open, is_leased, is_in_progress}
use fleet_lm.Batch.Lease.{lease}
use fleet_lm.Batch.LeaseLoop.{lease_loop-Evolves}
use fleet_lm.Batch.Report.{
  NodeResult, record_result, dead_letter, retry, maybe_finish_batch, complete, fail,
}
use fleet_lm.Batch.Requeue.{
  reclaim, requeue_where, held_by, lease_over, release_node, expire_leases,
}
use fleet_lm.Batch.Cases.{maybe_finish_cases, complete_cases, fail_cases}
use fleet_lm.Batch.Cancel.{cancel_unit, cancel_units, cancel_batch}
use fleet_lm.Batch.Machine.{
  Moves, stays, completes, dies, retries, returns, cancels, MovesAt-map, Evolves, Evolves-refl,
  Evolves-modify, Evolves-map_values,
}

pub lease-Evolves :
    (settings : Settings) (now node_id : ℕ) (node_model : Option String) (count : ℕ)
    (s : BatchStore)
    → Evolves s.units (lease settings now node_id node_model count s).1.units
unfolding lease
lease-Evolves settings now node_id node_model count s =
    lease_loop-Evolves settings now node_id node_model s.batches count s.pending [] [] s.units

abbrev EvolvesFrom : BatchStore → Dict Batch → Dict WorkUnit → List ℕ → Type 0
EvolvesFrom s batches units queue = Evolves s.units units

modified-Evolves :
    (now unit_id batch_id : ℕ) (f : WorkUnit → WorkUnit) (s : BatchStore)
    → ((u : WorkUnit) → lookup unit_id s.units ≡ some u → Moves u (f u))
    → Evolves s.units
        (maybe_finish_batch now batch_id (record s { units = modify unit_id f s.units })).units
modified-Evolves now unit_id batch_id f s h =
    let e = Evolves-modify unit_id f s.units h in
    maybe_finish_cases (EvolvesFrom s) now batch_id (record s { units = modify unit_id f s.units })
      (λ _. e) (λ _ _ _. e) (λ _ _ _ _. e) (λ _ _ _ _. e)

pub complete-Evolves :
    (lib : Primitives) (now node_id : ℕ) (r : NodeResult) (s : BatchStore)
    → Evolves s.units (complete lib now node_id r s).units
complete-Evolves lib now node_id r s =
    complete_cases (EvolvesFrom s) lib now node_id r s (Evolves-refl s.units) λ u e o.
      modified-Evolves now r.unit_id u.batch_id (record_result node_id r) s
        λ w q. completes node_id r (ground (arith, e, q))

pub fail-Evolves :
    (settings : Settings) (now node_id unit_id : ℕ) (message : String) (s : BatchStore)
    → Evolves s.units (fail settings now node_id unit_id message s).units
fail-Evolves settings now node_id unit_id message s =
    fail_cases (EvolvesFrom s) settings now node_id unit_id message s (Evolves-refl s.units)
      (λ u e o _.
        modified-Evolves now unit_id u.batch_id (dead_letter message) s
          λ w q. dies message (ground (arith, e, q)))
      (λ u e o _.
        Evolves-modify unit_id (retry message) s.units
          λ w q. retries message (ground (arith, e, q)))

requeue_where-units :
    (test : WorkUnit → Bool) (s : BatchStore)
    → (requeue_where test s).1.units ≡ map_values (reclaim test) s.units
unfolding requeue_where
requeue_where-units test s = ground arith

reclaim-Moves :
    (test : WorkUnit → Bool) (u : WorkUnit)
    → (test u ≡ true → is_leased u.state ≡ true)
    → Moves u (reclaim test u)
unfolding reclaim
reclaim-Moves test u h = elim (Bool-cases (test u)) [
  | inl e ↦ rw e (returns (h e))
  | inr e ↦ rw e stays
]

pub requeue_where-Evolves :
    (test : WorkUnit → Bool) (s : BatchStore)
    → ((u : WorkUnit) → test u ≡ true → is_leased u.state ≡ true)
    → Evolves s.units (requeue_where test s).1.units
requeue_where-Evolves test s h =
    rw (requeue_where-units test s)
      (Evolves-map_values (reclaim test) s.units (λ u. reclaim-Moves test u (h u)))

pub held_by-leased :
    (node_id : ℕ) (u : WorkUnit) → held_by node_id u ≡ true → is_leased u.state ≡ true
unfolding held_by
held_by-leased node_id u h = ground arith

pub lease_over-leased :
    (now : ℕ) (u : WorkUnit) → lease_over now u ≡ true → is_leased u.state ≡ true
unfolding lease_over
lease_over-leased now u h = ground arith

pub release_node-Evolves :
    (node_id : ℕ) (s : BatchStore) → Evolves s.units (release_node node_id s).1.units
unfolding release_node
release_node-Evolves node_id s = requeue_where-Evolves (held_by node_id) s (held_by-leased node_id)

pub expire_leases-Evolves :
    (now : ℕ) (s : BatchStore) → Evolves s.units (expire_leases now s).1.units
unfolding expire_leases
expire_leases-Evolves now s = requeue_where-Evolves (lease_over now) s (lease_over-leased now)

cancel_unit_twice : (u : WorkUnit) → cancel_unit (cancel_unit u) ≡ cancel_unit u
unfolding cancel_unit
cancel_unit_twice u = ground arith

map_cancel_twice :
    (o : Option WorkUnit)
    → Option.map cancel_unit (Option.map cancel_unit o) ≡ Option.map cancel_unit o
map_cancel_twice none = refl
map_cancel_twice (some u) = ap some (cancel_unit_twice u)

-- Cancelling reaches exactly the units listed.
pub lookup-cancel_units :
    (k : ℕ) (uids : List ℕ) (d : Dict WorkUnit)
    → lookup k (cancel_units uids d)
      ≡ (if contains k uids then Option.map cancel_unit (lookup k d) else lookup k d)
unfolding cancel_units contains
lookup-cancel_units k [] d = refl
lookup-cancel_units k (uid ∷ uids) d = ground (
  arith,
  lookup-cancel_units k uids (modify uid cancel_unit d),
  lookup-modify k uid cancel_unit d,
  map_cancel_twice (lookup k d),
)

cancel_unit-Moves : (u : WorkUnit) → Moves u (cancel_unit u)
unfolding cancel_unit
cancel_unit-Moves u = elim (Bool-cases (is_open u.state)) [
  | inl e ↦ unfold cancel_unit in cancels e
  | inr e ↦ rw (e, cancel_unit) stays
]

pub cancel_units-Evolves : (uids : List ℕ) (d : Dict WorkUnit) → Evolves d (cancel_units uids d)
unfolding cancel_units
cancel_units-Evolves uids d k = elim (Bool-cases (contains k uids)) [
  | inl e ↦
      rw (lookup-cancel_units k uids d, e)
        (MovesAt-map cancel_unit (lookup k d) (λ u _. cancel_unit-Moves u))
  | inr e ↦ rw (lookup-cancel_units k uids d, e) (Evolves-refl d k)
]

pub cancel_batch-Evolves :
    (batch_id : ℕ) (s : BatchStore) → Evolves s.units (cancel_batch batch_id s).1.units
unfolding cancel_batch
cancel_batch-Evolves batch_id s = elim (Option-cases (lookup batch_id s.batches)) [
  | inl e ↦ rw (e, cancel_batch) (Evolves-refl s.units)
  | inr (b, e) ↦ elim (Bool-cases (is_in_progress b.state)) [
    | inl p ↦
        rw (e, cancel_batch, p, cancel_batch)
          (cancel_units-Evolves (b.unit_ids ++ b.canary_unit_ids) s.units)
    | inr p ↦ rw (e, cancel_batch, p, cancel_batch) (Evolves-refl s.units)
  ]
]
