-- ===== src/Batch/Leasing/Exhaust.antt =====
-- `lease` is work-conserving: it comes back short only when nothing is left that the node could do.
use fleet_lm.Base.{
  ℕ, ◌<◌, String, true, false, Option, some, ◌≡◌, List, [], ◌∷◌, ◌++◌, arith, ◌==◌, length,
  Bool-cases, contains, inl, inr, Dict, lookup, modify, lookup-modify,
}
use fleet_lm.Config.{Settings}
use fleet_lm.Batch.Data.{WorkUnit, Batch, BatchStore, is_pending}
use fleet_lm.Batch.Lease.{skip, serves, batch_gone, lease_unit, visit, lease_loop, lease}
use fleet_lm.Batch.LeaseLoop.{
  leased_unit, run_queue, visit-drop, lease_loop_cases, LeasedOrSame, lease_loop-unit,
}
use fleet_lm.Batch.Valid.Defs.{Valid}
use fleet_lm.Batch.Valid.Queue.{pending-contains, pending-not_gone}

module _ (settings : Settings) (now node_id : ℕ) (node_model : Option String) where
  visit-skip :
      (batches : Dict Batch) (u : WorkUnit)
      → visit settings now node_id node_model batches (some u) ≡ skip
      → serves node_model u.model ≡ false
  unfolding visit
  visit-skip batches u h = ground arith

  -- A leased unit goes through the rest of the loop as it is.
  stays_leased :
      (u : WorkUnit) (o : Option WorkUnit)
      → LeasedOrSame settings now node_id node_model
          (leased_unit settings now node_id node_model u)
          o
      → o ≡ some (leased_unit settings now node_id node_model u)
  unfolding lease_unit
  stays_leased u o (inl e) = e
  stays_leased u o (inr (p, e)) = cc

  module _ (batches : Dict Batch) (count k : ℕ) (u : WorkUnit) (waiting : is_pending u.state ≡ true)
      (wanted : batch_gone u.batch_id batches ≡ false)
      (served : serves node_model u.model ≡ true) where
    abbrev Taken : List WorkUnit × List ℕ × Dict WorkUnit → Type 0
    Taken r =
        length r.0 < count → lookup k r.2 ≡ some (leased_unit settings now node_id node_model u)

    lease_loop-Taken :
        (queue : List ℕ) (out : List WorkUnit) (still : List ℕ) (units : Dict WorkUnit)
        → contains k queue ≡ true
        → lookup k units ≡ some u
        → Taken (run_queue settings now node_id node_model batches count queue out still units)
    unfolding lease_loop contains
    lease_loop-Taken [] out still units c h = cc
    lease_loop-Taken (uid ∷ queue) out still units c h =
        lease_loop_cases settings now node_id node_model Taken batches count uid queue out still
          units (λ full short. absurd (ground arith))
          (λ _ d. elim (Bool-cases (k == uid)) [
            | inl e ↦
                let same : k ≡ uid = ground arith in
                absurd (ground (arith, visit-drop settings now node_id node_model batches u))
            | inr e ↦ lease_loop-Taken queue out still units (ground arith) h
          ])
          (λ _ d. elim (Bool-cases (k == uid)) [
            | inl e ↦
                let same : k ≡ uid = ground arith in absurd (ground (arith, visit-skip batches u))
            | inr e ↦ lease_loop-Taken queue out (still ++ uid ∷ []) units (ground arith) h
          ])
          (λ w _ t. elim (Bool-cases (k == uid)) [
            | inl e ↦
                let same : k ≡ uid = ground arith in
                let start : lookup k
                      (modify uid (leased_unit settings now node_id node_model) units)
                    ≡ some (leased_unit settings now node_id node_model u) =
                  ground (
                    arith,
                    lookup-modify k uid (leased_unit settings now node_id node_model) units,
                  ) in
                λ _. stays_leased u _ (
                  lease_loop-unit settings now node_id node_model batches count queue
                    (out ++ leased_unit settings now node_id node_model w ∷ []) still
                    (modify uid (leased_unit settings now node_id node_model) units) k _ start)
            | inr e ↦
                lease_loop-Taken queue (out ++ leased_unit settings now node_id node_model w ∷ [])
                  still (modify uid (leased_unit settings now node_id node_model) units)
                  (ground arith)
                  (ground (
                    arith,
                    lookup-modify k uid (leased_unit settings now node_id node_model) units,
                  ))
          ])

-- When `lease` hands out fewer units than the node asked for, every pending unit that the node's
-- model serves is leased to it: no work waits that this node could do.
pub lease_exhausts :
    (settings : Settings) (now node_id : ℕ) (node_model : Option String) (count : ℕ)
    (s : BatchStore) (k : ℕ) (u : WorkUnit)
    → Valid s
    → lookup k s.units ≡ some u
    → is_pending u.state ≡ true
    → serves node_model u.model ≡ true
    → let (out, s') = lease settings now node_id node_model count s in
      length out < count → lookup k s'.units ≡ some (lease_unit settings now node_id node_model u)
unfolding lease
lease_exhausts settings now node_id node_model count s k u v h p served =
    lease_loop-Taken settings now node_id node_model s.batches count k u p
      (pending-not_gone s k u v h p) served s.pending [] [] s.units (pending-contains s k u v h p) h
