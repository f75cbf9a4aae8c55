-- ===== src/Batch/Leasing/Fifo.antt =====
-- `lease` against a description of its own: the first entries of the queue that wait for such a node.
use mathlib.Core.Option
use mathlib.Core.List.{Sublistᴰ, append-nil}
use fleet_lm.Base.{
  ℕ, zero, suc, ◌-◌, String, Bool, true, false, not, ◌&&◌, Option, none, some, ◌≡◌, refl, sym, ◌∙◌,
  ap, inl, inr, List, [], ◌∷◌, ◌++◌, arith, ◌==◌, length, length-append, filter, Bool-cases, Dict,
  lookup, modify, lookup-modify,
}
use fleet_lm.Config.{Settings}
use fleet_lm.Batch.Data.{WorkUnit, Batch, BatchStore, is_pending}
use fleet_lm.Batch.Lease.{
  drop, skip, take, serves, batch_gone, lease_unit, visit, lease_loop, lease,
}
use fleet_lm.Batch.LeaseLoop.{leased_unit, run_queue, IsTaken, lease_loop_cases}
use fleet_lm.Batch.Leasing.Handed.{Keyed, taken-Keyed}
use fleet_lm.Batch.Leasing.Order.{lease_in_order, taken_ids}
use fleet_lm.Batch.Submit.{ids}
use fleet_lm.Batch.Valid.Defs.{Valid}

-- A unit that a node of this model may do: it is pending, in a batch that is there and not cancelled.
unfoldable pub awaits : Option String → Dict Batch → Option WorkUnit → Bool
awaits node_model batches none = false
awaits node_model batches (some u) =
    is_pending u.state && not (batch_gone u.batch_id batches) && serves node_model u.model

abbrev pub other_than : ℕ → ℕ → Bool
other_than x k = not (k == x)

-- The first occurrence of each entry.
unfoldable pub firsts : List ℕ → List ℕ
firsts [] = []
firsts (x ∷ xs) = x ∷ filter (other_than x) (firsts xs)

unfoldable pub take_first : ℕ → List ℕ → List ℕ
take_first zero xs = []
take_first (suc n) [] = []
take_first (suc n) (x ∷ xs) = x ∷ take_first n xs

take_first-nil : (n : ℕ) → take_first n [] ≡ []
unfolding take_first
take_first-nil zero = refl
take_first-nil (suc n) = refl

-- Filtering twice, where the second test is part of a third.
filter-filter :
    (p q r : ℕ → Bool) (xs : List ℕ)
    → ((k : ℕ) → (q k && p k) ≡ r k)
    → filter p (filter q xs) ≡ filter r xs
unfolding filter
filter-filter p q r [] h = refl
filter-filter p q r (x ∷ xs) h =
    let below = filter-filter p q r xs h in
    elim (Bool-cases (q x)) [
      | inl e ↦ elim (Bool-cases (p x)) [
        | inl f ↦ let g : r x ≡ true = ground (arith, h x) in ground (arith, below)
        | inr f ↦ let g : r x ≡ false = ground (arith, h x) in ground (arith, below)
      ]
      | inr e ↦ let g : r x ≡ false = ground (arith, h x) in ground (arith, below)
    ]

module _ (settings : Settings) (now node_id : ℕ) (node_model : Option String)
    (batches : Dict Batch) where
  abbrev waits : Dict WorkUnit → ℕ → Bool
  waits units k = awaits node_model batches (lookup k units)

  visit-awaits :
      (o : Option WorkUnit)
      → awaits node_model batches o ≡ true
      → (u : WorkUnit) × (visit settings now node_id node_model batches o ≡ take u)
  unfolding visit awaits
  visit-awaits none h = cc
  visit-awaits (some u) h = (u, ground arith)

  dropped-awaits :
      (o : Option WorkUnit)
      → visit settings now node_id node_model batches o ≡ drop
      → awaits node_model batches o ≡ false
  dropped-awaits o d = elim (Bool-cases (awaits node_model batches o)) [
    | inr e ↦ e
    | inl e ↦ let (u, t) = visit-awaits o e in cc
  ]

  skipped-awaits :
      (o : Option WorkUnit)
      → visit settings now node_id node_model batches o ≡ skip
      → awaits node_model batches o ≡ false
  skipped-awaits o d = elim (Bool-cases (awaits node_model batches o)) [
    | inr e ↦ e
    | inl e ↦ let (u, t) = visit-awaits o e in cc
  ]

  taken-awaits :
      (o : Option WorkUnit) (u : WorkUnit)
      → IsTaken settings now node_id node_model batches o u
      → awaits node_model batches o ≡ true
  unfolding awaits
  taken-awaits none u t = let f = t.found in cc
  taken-awaits (some w) u t =
      let same : w ≡ u = let f = t.found in cc in rw (same, t.waiting, t.wanted, t.served) refl

  -- An entry that does not wait can be left out.
  passed :
      (uid : ℕ) (queue : List ℕ) (units : Dict WorkUnit)
      → waits units uid ≡ false
      → filter (waits units) (firsts (uid ∷ queue)) ≡ filter (waits units) (firsts queue)
  unfolding firsts filter
  passed uid queue units h = rw h (
      filter-filter (waits units) (other_than uid) (waits units) (firsts queue) (λ k.
        elim (Bool-cases (k == uid)) [
          | inl e ↦ let same : k ≡ uid = ground arith in ground arith
          | inr e ↦ ground arith
        ]))

  leased-awaits :
      (o : Option WorkUnit)
      → awaits node_model batches (Option.map (leased_unit settings now node_id node_model) o)
        ≡ false
  unfolding awaits lease_unit
  leased-awaits none = refl
  leased-awaits (some u) = refl

  -- Once an entry is handed out it does not wait any more, and the others wait as before.
  waits-modify :
      (uid : ℕ) (units : Dict WorkUnit) (k : ℕ)
      → (other_than uid k && waits units k)
        ≡ waits (modify uid (leased_unit settings now node_id node_model) units) k
  unfolding lease_unit
  waits-modify uid units k =
      let moved = lookup-modify k uid (leased_unit settings now node_id node_model) units in
      elim (Bool-cases (k == uid)) [
        | inr e ↦ rw (moved, e) refl
        | inl e ↦ rw (moved, e) (sym (leased-awaits (lookup k units)))
      ]

  abbrev Leases :
      ℕ → List ℕ → List WorkUnit → Dict WorkUnit → List WorkUnit × List ℕ × Dict WorkUnit → Type 0
  Leases count queue out units r =
      ids r.0 ≡ ids out ++ take_first (count - length out) (filter (waits units) (firsts queue))

  lease_loop-Leases :
      (count : ℕ) (queue : List ℕ) (out : List WorkUnit) (still : List ℕ) (units : Dict WorkUnit)
      → Keyed settings now node_id node_model units
      → Leases count queue out units
          (run_queue settings now node_id node_model batches count queue out still units)
  unfolding lease_loop firsts filter take_first
  lease_loop-Leases count [] out still units h =
      rw (take_first-nil (count - length out)) (sym (append-nil (ids out)))
  lease_loop-Leases count (uid ∷ queue) out still units h =
      lease_loop_cases settings now node_id node_model (Leases count (uid ∷ queue) out units)
        batches count uid queue out still units
        (λ full.
          let none_left : count - length out ≡ 0 = ground arith in
          rw none_left (sym (append-nil (ids out))))
        (λ _ d.
          rw (passed uid queue units (dropped-awaits _ d))
            (lease_loop-Leases count queue out still units h))
        (λ _ d.
          rw (passed uid queue units (skipped-awaits _ d))
            (lease_loop-Leases count queue out (still ++ uid ∷ []) units h))
        (λ u room t.
          let new = leased_unit settings now node_id node_model in
          let later =
            lease_loop-Leases count queue (out ++ new u ∷ []) still (modify uid new units)
              (taken-Keyed settings now node_id node_model batches uid units u t h) in
          let units' = modify uid new units in
          let waiting : waits units uid ≡ true = taken-awaits (lookup uid units) u t in
          let left : count - length out ≡ suc (count - length (out ++ new u ∷ [])) =
            ground (arith, length-append out (new u ∷ [])) in
          let others : filter (waits units) (filter (other_than uid) (firsts queue))
              ≡ filter (waits units') (firsts queue) =
            filter-filter (waits units) (other_than uid) (waits units') (firsts queue)
              (waits-modify uid units) in
          later
          ∙ taken_ids settings now node_id node_model uid out _ u (h uid u t.found)
          ∙ rw (waiting, left, others) refl)

-- In a valid store `lease` is first in, first out: it hands out the first `count` entries of the
-- queue, each identifier once, whose unit is pending, in a batch that is there and not cancelled, and
-- for the node's model; and what it leaves in the queue stands in the order of the queue.
pub lease_fifo :
    (settings : Settings) (now node_id : ℕ) (node_model : Option String) (count : ℕ)
    (s : BatchStore)
    → Valid s
    → let (out, s') = lease settings now node_id node_model count s in
      let waiting =
        filter (λ k. awaits node_model s.batches (lookup k s.units)) (firsts s.pending) in
      (ids out ≡ take_first count waiting) × Sublistᴰ s'.pending s.pending
unfolding lease
lease_fifo settings now node_id node_model count s v = (
  lease_loop-Leases settings now node_id node_model s.batches count s.pending [] [] s.units
        (λ k u h. (v.stored k u h).key)
      ∙ ap
          (λ n.
            take_first n
              (filter (λ k. awaits node_model s.batches (lookup k s.units)) (firsts s.pending)))
          (let same : count - 0 ≡ count = omega arith in same),
  unfold lease in (lease_in_order settings now node_id node_model count s v).1,
)
