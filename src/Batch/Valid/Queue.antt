-- ===== src/Batch/Valid/Queue.antt =====
-- A pending unit of a valid store: its batch has not gone away, and it is in the queue.
use fleet_lm.Base.{ℕ, true, false, some, ◌≡◌, contains, lookup, arith, inl, inr, Bool-cases}
use fleet_lm.Batch.Data.{WorkUnit, BatchStore, is_pending, is_cancelled}
use fleet_lm.Batch.Lease.{batch_gone}
use fleet_lm.Batch.Valid.Defs.{Valid}

module _ (s : BatchStore) (k : ℕ) (u : WorkUnit) (v : Valid s) (h : lookup k s.units ≡ some u)
    (p : is_pending u.state ≡ true) where
  pub pending-not_gone : batch_gone u.batch_id s.batches ≡ false
  unfolding batch_gone
  pending-not_gone =
      let (batch, q, c) = v.homed k u h in
      elim (Bool-cases (is_cancelled batch.state)) [
        | inl x ↦ absurd (ground (arith, v.silent u.batch_id batch k u q x c h))
        | inr x ↦ ground arith
      ]

  pub pending-contains : contains k s.pending ≡ true
  pending-contains = v.queued k u h p pending-not_gone
