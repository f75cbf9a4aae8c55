-- ===== src/Batch/Leasing/Order.antt =====
-- The queue order that `lease` respects.
use mathlib.Core.List.{Sublistᴰ, append-nil, append_assoc}
use fleet_lm.Base.{ℕ, String, Option, ◌≡◌, refl, List, [], ◌∷◌, ◌++◌, Dict, modify, sym, ◌∙◌}
use fleet_lm.Config.{Settings}
use fleet_lm.Batch.Data.{WorkUnit, Batch, BatchStore}
use fleet_lm.Batch.Lease.{lease_unit, lease_loop, lease}
use fleet_lm.Batch.LeaseLoop.{leased_unit, run_queue, lease_loop_cases}
use fleet_lm.Batch.Leasing.Handed.{Keyed, taken-Keyed, ids_snoc}
use fleet_lm.Batch.Submit.{ids}
use fleet_lm.Batch.Valid.Defs.{Valid}

all_of : (xs : List ℕ) → Sublistᴰ xs xs
all_of [] = Sublistᴰ.slnil
all_of (x ∷ xs) = Sublistᴰ.cons-cons refl (all_of xs)

none_of : (xs : List ℕ) → Sublistᴰ [] xs
none_of [] = Sublistᴰ.slnil
none_of (x ∷ xs) = Sublistᴰ.cons (none_of xs)

-- What a stretch of the queue splits into: the units handed out and those kept, each in the
-- queue's order.
abbrev Splits : List WorkUnit → List ℕ → List ℕ → List WorkUnit × List ℕ × Dict WorkUnit → Type 0
Splits out still queue r =
    (taken : List ℕ) × (kept : List ℕ) × (ids r.0 ≡ ids out ++ taken)
    × (r.1 ≡ still ++ kept)
    × Sublistᴰ taken queue
    × Sublistᴰ kept queue

module _ (settings : Settings) (now node_id : ℕ) (node_model : Option String) where
  pub taken_ids :
      (uid : ℕ) (out : List WorkUnit) (taken : List ℕ) (u : WorkUnit)
      → u.id ≡ uid
      → ids (out ++ leased_unit settings now node_id node_model u ∷ []) ++ taken
        ≡ ids out ++ uid ∷ taken
  unfolding lease_unit
  taken_ids uid out taken u key =
      rw (ids_snoc out (leased_unit settings now node_id node_model u), append_assoc, key) refl

  lease_loop-Splits :
      (batches : Dict Batch) (count : ℕ) (queue : List ℕ) (out : List WorkUnit) (still : List ℕ)
      (units : Dict WorkUnit)
      → Keyed settings now node_id node_model units
      → Splits out still queue
          (run_queue settings now node_id node_model batches count queue out still units)
  unfolding lease_loop
  lease_loop-Splits batches count [] out still units h =
      ([], [], sym (append-nil (ids out)), sym (append-nil still), Sublistᴰ.slnil, Sublistᴰ.slnil)
  lease_loop-Splits batches count (uid ∷ queue) out still units h =
      lease_loop_cases settings now node_id node_model (Splits out still (uid ∷ queue)) batches
        count uid queue out still units
        (λ _. (
          [],
          uid ∷ queue,
          sym (append-nil (ids out)),
          refl,
          none_of (uid ∷ queue),
          all_of (uid ∷ queue),
        ))
        (λ _ _.
          let (taken, kept, a, b, p, q) = lease_loop-Splits batches count queue out still units h in
          (taken, kept, a, b, Sublistᴰ.cons p, Sublistᴰ.cons q))
        (λ _ _.
          let (taken, kept, a, b, p, q) =
            lease_loop-Splits batches count queue out (still ++ uid ∷ []) units h in
          (
            taken,
            uid ∷ kept,
            a,
            b ∙ append_assoc still (uid ∷ []) kept,
            Sublistᴰ.cons p,
            Sublistᴰ.cons-cons refl q,
          ))
        (λ u _ t.
          let (taken, kept, a, b, p, q) =
            lease_loop-Splits batches count queue
              (out ++ leased_unit settings now node_id node_model u ∷ []) still
              (modify uid (leased_unit settings now node_id node_model) units)
              (taken-Keyed settings now node_id node_model batches uid units u t h) in
          (
            uid ∷ taken,
            kept,
            a ∙ taken_ids uid out taken u (h uid u t.found),
            b,
            Sublistᴰ.cons-cons refl p,
            Sublistᴰ.cons q,
          ))

-- In a valid store the identifiers that `lease` hands out, and those that it leaves in the queue,
-- each stand in the order in which they stood in the queue.
pub lease_in_order :
    (settings : Settings) (now node_id : ℕ) (node_model : Option String) (count : ℕ)
    (s : BatchStore)
    → Valid s
    → let (out, s') = lease settings now node_id node_model count s in
      Sublistᴰ (ids out) s.pending × Sublistᴰ s'.pending s.pending
unfolding lease
lease_in_order settings now node_id node_model count s v =
    let (taken, kept, a, b, p, q) =
      lease_loop-Splits settings now node_id node_model s.batches count s.pending [] [] s.units
        (λ k u h. (v.stored k u h).key) in
    (rw a p, rw b q)
