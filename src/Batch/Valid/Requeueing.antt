-- ===== src/Batch/Valid/Requeueing.antt =====
-- `release_node` and `expire_leases` keep the invariant.
use mathlib.Core.Option
use fleet_lm.Base.{
  ℕ, Bool, true, Option, none, some, ◌≡◌, refl, sym, ◌∙◌, [], ◌∷◌, ◌++◌, arith, Option-cases,
  contains, contains-append, inl, inr, Dict, lookup, map_values, lookup-map_values,
}
use fleet_lm.Batch.Data.{WorkUnit, BatchStore, is_open, is_pending, is_leased, requeued}
use fleet_lm.Batch.Report.{open_unit}
use fleet_lm.Batch.Requeue.{
  reclaimed, reclaim, requeue_where, held_by, lease_over, release_node, expire_leases,
}
use fleet_lm.Batch.Machine.{Evolves}
use fleet_lm.Batch.Evolve.{requeue_where-Evolves, held_by-leased, lease_over-leased}
use fleet_lm.Batch.Valid.Defs.{
  Valid, Evolves-AllStored, Evolves-AllOwned, Evolves-AllHomed, Evolves-AllSilent,
}
use fleet_lm.Batch.Valid.Opens.{any_open-congr}

-- What the loop takes back is put in the queue.
pub contains-reclaimed :
    (test : WorkUnit → Bool) (k : ℕ) (u : WorkUnit) (d : Dict WorkUnit)
    → lookup k d ≡ some u
    → test u ≡ true
    → u.id ≡ k
    → contains k (reclaimed test d) ≡ true
unfolding lookup reclaimed contains
contains-reclaimed test k u [] h t e = cc
contains-reclaimed test k u ((j, w) ∷ d) h t e = ground (arith, contains-reclaimed test k u d)

module _ (test : WorkUnit → Bool)
    (leased : (u : WorkUnit) → test u ≡ true → is_leased u.state ≡ true) where
  reclaim-open : (u : WorkUnit) → is_open (reclaim test u).state ≡ is_open u.state
  unfolding reclaim requeued
  reclaim-open u = ground (arith, leased u)

  open_unit-reclaim : (o : Option WorkUnit) → open_unit (Option.map (reclaim test) o) ≡ open_unit o
  unfolding open_unit
  open_unit-reclaim none = refl
  open_unit-reclaim (some u) = reclaim-open u

  -- What was in the queue stays there, and what the loop made pending joins it.
  requeued-contains :
      (s : BatchStore) (k : ℕ) (u : WorkUnit)
      → Valid s
      → lookup k s.units ≡ some u
      → (is_pending u.state ≡ true → contains k s.pending ≡ true)
      → is_pending (reclaim test u).state ≡ true
      → contains k (s.pending ++ reclaimed test s.units) ≡ true
  unfolding reclaim
  requeued-contains s k u v q old p = ground (
    arith,
    contains-append k s.pending (reclaimed test s.units),
    contains-reclaimed test k u s.units q,
    (v.stored k u q).key,
  )

  reclaim-batch_id : (u : WorkUnit) → (reclaim test u).batch_id ≡ u.batch_id
  unfolding reclaim requeued
  reclaim-batch_id u = ground arith

  pub requeue_where-IsValid : (s : BatchStore) → Valid s → Valid (requeue_where test s).1
  unfolding requeue_where
  requeue_where-IsValid s v =
      let units : Dict WorkUnit = map_values (reclaim test) s.units in
      let e : Evolves s.units units = requeue_where-Evolves test s leased in
      record {
        stored = Evolves-AllStored s.units units e v.stored;
        queued = λ k w q p g. elim (Option-cases (lookup k s.units)) [
          | inl absent ↦ absurd (ground (arith, lookup-map_values k (reclaim test) s.units))
          | inr (u, at) ↦
              let was : w ≡ reclaim test u =
                ground (arith, lookup-map_values k (reclaim test) s.units) in
              requeued-contains s k u v at
                (λ p'. v.queued k u at p' (ground (arith, reclaim-batch_id u))) (ground arith)
        ];
        owned = Evolves-AllOwned s.units units e s.batches v.owned;
        homed = Evolves-AllHomed s.units units e s.batches v.homed;
        silent = Evolves-AllSilent s.units units e s.batches v.silent;
        settled = λ b batch q.
            v.settled b batch q
            ∙ sym (
                any_open-congr batch.unit_ids s.units units (λ k _.
                  rw (lookup-map_values k (reclaim test) s.units)
                    (open_unit-reclaim (lookup k s.units))));
      }

pub release_node-IsValid :
    (node_id : ℕ) (s : BatchStore) → Valid s → Valid (release_node node_id s).1
unfolding release_node
release_node-IsValid node_id s v =
    requeue_where-IsValid (held_by node_id) (held_by-leased node_id) s v

pub expire_leases-IsValid : (now : ℕ) (s : BatchStore) → Valid s → Valid (expire_leases now s).1
unfolding expire_leases
expire_leases-IsValid now s v = requeue_where-IsValid (lease_over now) (lease_over-leased now) s v
