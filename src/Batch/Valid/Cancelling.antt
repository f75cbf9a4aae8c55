-- ===== src/Batch/Valid/Cancelling.antt =====
-- `cancel_batch` keeps the invariant.
use mathlib.Core.Option
use fleet_lm.Base.{
  ℕ, true, false, Option, none, some, ◌≡◌, refl, arith, ◌==◌, Bool-cases, Option-cases, contains,
  inl, inr, Dict, lookup, modify, lookup-modify, if◌then◌else◌,
}
use fleet_lm.Batch.Data.{
  WorkUnit, Batch, BatchStore, BatchState, is_open, is_pending, is_in_progress,
}
use fleet_lm.Batch.Lease.{batch_gone}
use fleet_lm.Batch.Report.{open_unit, any_open}
use fleet_lm.Batch.Cancel.{cancel_unit, cancel_units, cancel_batch}
use fleet_lm.Batch.Machine.{Evolves}
use fleet_lm.Batch.Evolve.{cancel_units-Evolves, lookup-cancel_units}
use fleet_lm.Batch.Valid.Defs.{
  members, contains-members, IsValid, Valid, Evolves-AllStored, Evolves-AllOwned, Evolves-AllHomed,
  Evolves-AllSilent, modified-AllHomed,
}
use fleet_lm.Batch.Valid.Opens.{any_open-congr, any_open-all_closed}

abbrev cancel : Batch → Batch
cancel b = record b { state = BatchState.cancelled }

-- No batch comes back by a cancellation.
cancel-batch_gone :
    (j k : ℕ) (d : Dict Batch) → batch_gone k (modify j cancel d) ≡ false → batch_gone k d ≡ false
unfolding batch_gone
cancel-batch_gone j k d h = elim (Option-cases (lookup k d)) [
  | inl e ↦ ground (arith, lookup-modify k j cancel d)
  | inr (b, e) ↦ ground (arith, lookup-modify k j cancel d)
]

cancelled-closed : (o : Option WorkUnit) → open_unit (Option.map cancel_unit o) ≡ false
unfolding open_unit cancel_unit
cancelled-closed none = refl
cancelled-closed (some u) = ground arith

cancelled-not_pending : (u : WorkUnit) → is_pending (cancel_unit u).state ≡ false
unfolding cancel_unit
cancelled-not_pending u = ground arith

module _ (s : BatchStore) (j : ℕ) (b : Batch) (v : Valid s) (at : lookup j s.batches ≡ some b) where
  abbrev new_units : Dict WorkUnit
  new_units = cancel_units (members b) s.units

  abbrev new_batches : Dict Batch
  new_batches = modify j cancel s.batches

  batch_before :
      (k : ℕ) (batch : Batch)
      → lookup k new_batches ≡ some batch
      → (old : Batch) × (lookup k s.batches ≡ some old)
        × (batch ≡ (if k == j then cancel old else old))
  batch_before k batch h = elim (Option-cases (lookup k s.batches)) [
    | inl e ↦ absurd (ground (arith, lookup-modify k j cancel s.batches))
    | inr (old, e) ↦ (old, e, ground (arith, lookup-modify k j cancel s.batches))
  ]

  unit_before :
      (k : ℕ) (w : WorkUnit)
      → lookup k new_units ≡ some w
      → is_pending w.state ≡ true
      → lookup k s.units ≡ some w
  unit_before k w h p = elim (Option-cases (lookup k s.units)) [
    | inl e ↦ absurd (ground (arith, lookup-cancel_units k (members b) s.units))
    | inr (u, e) ↦
        ground (arith, lookup-cancel_units k (members b) s.units, cancelled-not_pending u)
  ]

  -- The units of another batch are not touched.
  other_open :
      (k : ℕ) (old : Batch)
      → lookup k s.batches ≡ some old
      → (k == j) ≡ false
      → any_open old.unit_ids new_units ≡ any_open old.unit_ids s.units
  other_open k old q off = any_open-congr old.unit_ids s.units new_units λ uid c.
      let (w, p, o) = v.owned k old uid q (contains-members uid old c) in
      elim (Bool-cases (contains uid (members b))) [
        | inl e ↦
            let (w', p', o') = v.owned j b uid at e in
            let same : w ≡ w' = ground arith in absurd (ground arith)
        | inr e ↦ rw (lookup-cancel_units uid (members b) s.units, e)
      ]

  own_closed : any_open b.unit_ids new_units ≡ false
  own_closed = any_open-all_closed b.unit_ids new_units λ uid c.
      rw (lookup-cancel_units uid (members b) s.units, contains-members uid b c)
        (cancelled-closed (lookup uid s.units))

  member_closed :
      (uid : ℕ) (w : WorkUnit)
      → contains uid (members b) ≡ true
      → lookup uid new_units ≡ some w
      → is_open w.state ≡ false
  unfolding open_unit
  member_closed uid w c h =
      ground
        (arith, cancelled-closed (lookup uid s.units), lookup-cancel_units uid (members b) s.units)

  cancelled-IsValid : IsValid new_batches new_units s.pending
  cancelled-IsValid =
      let e : Evolves s.units new_units = cancel_units-Evolves (members b) s.units in
      record {
        stored = Evolves-AllStored s.units new_units e v.stored;
        queued = λ k w q p g.
            v.queued k w (unit_before k w q p) p (cancel-batch_gone j w.batch_id s.batches g);
        owned = λ k batch uid q c.
            let (old, q', is) = batch_before k batch q in
            Evolves-AllOwned s.units new_units e s.batches v.owned k old uid q' (ground arith);
        homed =
            modified-AllHomed j cancel s.batches new_units (λ _. refl)
              (Evolves-AllHomed s.units new_units e s.batches v.homed);
        silent = λ k batch uid w q x c at'. elim (Bool-cases (k == j)) [
          | inl here ↦
              let same : members batch ≡ members b =
                ground (arith, lookup-modify k j cancel s.batches) in
              member_closed uid w (rw (← same) c) at'
          | inr off ↦
              Evolves-AllSilent s.units new_units e s.batches v.silent k batch uid w
                (ground (arith, lookup-modify k j cancel s.batches)) x c at'
        ];
        settled = λ k batch q.
            let (old, q', is) = batch_before k batch q in
            elim (Bool-cases (k == j)) [
              | inl here ↦
                  let same : k ≡ j = ground arith in
                  let own : old ≡ b = ground arith in ground (arith, own_closed)
              | inr off ↦ ground (arith, other_open k old q' off, v.settled k old q')
            ];
      }

pub cancel_batch-IsValid :
    (batch_id : ℕ) (s : BatchStore) → Valid s → Valid (cancel_batch batch_id s).1
unfolding cancel_batch
cancel_batch-IsValid batch_id s v = elim (Option-cases (lookup batch_id s.batches)) [
  | inl e ↦ rw (e, cancel_batch) v
  | inr (b, e) ↦ elim (Bool-cases (is_in_progress b.state)) [
    | inl p ↦ rw (e, cancel_batch, p, cancel_batch) (cancelled-IsValid s batch_id b v e)
    | inr p ↦ rw (e, cancel_batch, p, cancel_batch) v
  ]
]
