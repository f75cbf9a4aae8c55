-- ===== src/Batch/Valid/Defs.antt =====
-- The invariant of `BatchStore`: what holds between its batches, its units and its queue.
use fleet_lm.Base.{
  modify, lookup-modify, Bool-cases, ◌==◌, inl, inr, subst, ℕ, true, false, some, ◌≡◌, List, ◌++◌,
  contains, contains-append, refl, Dict, lookup, sym, ◌∙◌, arith,
}
use fleet_lm.Batch.Data.{
  WorkUnit, Batch, BatchStore, is_open, is_pending, is_in_progress, is_cancelled,
}
use fleet_lm.Batch.Lease.{batch_gone}
use fleet_lm.Batch.Report.{any_open}
use fleet_lm.Batch.Machine.{
  Moves-closed, Moves-SameTask, IsFit, Moves-IsFit, Evolves, Evolves-back, Evolves-on,
}

abbrev pub members : Batch → List ℕ
members b = b.unit_ids ++ b.canary_unit_ids

pub contains-members :
    (k : ℕ) (b : Batch) → contains k b.unit_ids ≡ true → contains k (members b) ≡ true
contains-members k b c = rw (contains-append k b.unit_ids b.canary_unit_ids, c) refl

-- A unit is stored under its identifier, and its fields fit its state.
pub record IsStored (k : ℕ) (u : WorkUnit) : Type 0 where
  pub key : u.id ≡ k
  pub fit : IsFit u

abbrev pub AllStored : Dict WorkUnit → Type 0
AllStored units = (k : ℕ) (u : WorkUnit) → lookup k units ≡ some u → IsStored k u

-- A pending unit of a batch that has not gone away is in the queue.
abbrev pub AllQueued : Dict Batch → Dict WorkUnit → List ℕ → Type 0
AllQueued batches units queue =
    (k : ℕ) (u : WorkUnit)
    → lookup k units ≡ some u
    → is_pending u.state ≡ true
    → batch_gone u.batch_id batches ≡ false
    → contains k queue ≡ true

-- A batch's units are in the store, and name the batch.
abbrev pub AllOwned : Dict Batch → Dict WorkUnit → Type 0
AllOwned batches units =
    (b : ℕ) (batch : Batch) (k : ℕ)
    → lookup b batches ≡ some batch
    → contains k (members batch) ≡ true
    → (u : WorkUnit) × (lookup k units ≡ some u) × (u.batch_id ≡ b)

-- A batch is in progress exactly while one of the submitted units is pending or leased.
abbrev pub AllSettled : Dict Batch → Dict WorkUnit → Type 0
AllSettled batches units =
    (b : ℕ) (batch : Batch)
    → lookup b batches ≡ some batch
    → is_in_progress batch.state ≡ any_open batch.unit_ids units

-- A unit's batch is in the store, and lists the unit.
abbrev pub AllHomed : Dict Batch → Dict WorkUnit → Type 0
AllHomed batches units =
    (k : ℕ) (u : WorkUnit)
    → lookup k units ≡ some u
    → (batch : Batch) × (lookup u.batch_id batches ≡ some batch)
      × (contains k (members batch) ≡ true)

-- A cancelled batch has no unit, canaries included, that is pending or leased.
abbrev pub AllSilent : Dict Batch → Dict WorkUnit → Type 0
AllSilent batches units =
    (b : ℕ) (batch : Batch) (k : ℕ) (u : WorkUnit)
    → lookup b batches ≡ some batch
    → is_cancelled batch.state ≡ true
    → contains k (members batch) ≡ true
    → lookup k units ≡ some u
    → is_open u.state ≡ false

pub record IsValid (batches : Dict Batch) (units : Dict WorkUnit) (queue : List ℕ) : Type 0 where
  pub stored : AllStored units
  pub queued : AllQueued batches units queue
  pub owned : AllOwned batches units
  pub settled : AllSettled batches units
  pub homed : AllHomed batches units
  pub silent : AllSilent batches units

abbrev pub Valid : BatchStore → Type 0
Valid s = IsValid s.batches s.units s.pending

module _ (units units' : Dict WorkUnit) (e : Evolves units units') where
  pub Evolves-AllStored : AllStored units → AllStored units'
  Evolves-AllStored h k v q =
      let (u, p, m) = Evolves-back units units' k v e q in
      let old : IsStored k u = h k u p in
      record { key = (Moves-SameTask m).id ∙ old.key; fit = Moves-IsFit m old.fit }

  pub Evolves-AllOwned : (batches : Dict Batch) → AllOwned batches units → AllOwned batches units'
  Evolves-AllOwned batches h b batch k q c =
      let (u, p, o) = h b batch k q c in
      let (v, p', m) = Evolves-on units units' k u e p in (v, p', (Moves-SameTask m).batch_id ∙ o)

  pub Evolves-AllHomed : (batches : Dict Batch) → AllHomed batches units → AllHomed batches units'
  Evolves-AllHomed batches h k v q =
      let (u, p, m) = Evolves-back units units' k v e q in
      subst
        (λ b.
          (batch : Batch) × (lookup b batches ≡ some batch) × (contains k (members batch) ≡ true))
        (sym (Moves-SameTask m).batch_id) (h k u p)

  pub Evolves-AllSilent :
      (batches : Dict Batch) → AllSilent batches units → AllSilent batches units'
  Evolves-AllSilent batches h b batch k v q x c at =
      let (u, p, m) = Evolves-back units units' k v e at in
      let closed : is_open u.state ≡ false = h b batch k u q x c p in
      let same : v ≡ u = Moves-closed m closed in ground arith

-- A batch that changes its state, and is not cancelled before or after, leaves the rest alone.
pub modified-AllHomed :
    (j : ℕ) (f : Batch → Batch) (batches : Dict Batch) (units : Dict WorkUnit)
    → ((b : Batch) → members (f b) ≡ members b)
    → AllHomed batches units
    → AllHomed (modify j f batches) units
modified-AllHomed j f batches units same h k u q =
    let (batch, p, c) = h k u q in
    elim (Bool-cases (u.batch_id == j)) [
      | inl e ↦ (f batch, ground (arith, lookup-modify u.batch_id j f batches), rw (same batch) c)
      | inr e ↦ (batch, ground (arith, lookup-modify u.batch_id j f batches), c)
    ]
