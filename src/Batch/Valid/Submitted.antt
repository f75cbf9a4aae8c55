-- ===== src/Batch/Valid/Submitted.antt =====
-- A store to which a batch of new units is added: what is where, and that it is valid.
use fleet_lm.Base.{
  ℕ, true, false, none, some, ◌≡◌, ◌≢◌, ◌⊎◌, refl, sym, ◌∙◌, List, [], ◌∷◌, ◌++◌, ◌||◌, arith, ◌==◌,
  Bool-cases, contains, contains-append, inl, inr, Dict, lookup, insert, lookup-insert, All, subst,
}
use fleet_lm.Batch.Data.{WorkUnit, Batch, BatchStore, BatchState}
use fleet_lm.Batch.Lease.{batch_gone}
use fleet_lm.Batch.Report.{open_unit, any_open}
use fleet_lm.Batch.Machine.{IsFit, FieldsFit}
use fleet_lm.Batch.Submit.{ids, insert_units, spread}
use fleet_lm.Batch.Valid.Defs.{
  members, contains-members, AllQueued, AllOwned, AllHomed, AllSilent, IsValid, Valid,
}
use fleet_lm.Batch.Valid.Inserting.{
  insert_units-other, insert_units-back, insert_units-on, contains-spread, IsNew, new-unused,
}
use fleet_lm.Batch.Valid.Opens.{any_open-congr, any_open-mem}

IsNew-IsFit : (b : ℕ) (units : Dict WorkUnit) (u : WorkUnit) → IsNew b units u → IsFit u
IsNew-IsFit b units u n =
    subst (λ st. FieldsFit st u) (sym n.waiting) (n.no_node, n.no_lease, n.no_text)

some_id : (us : List WorkUnit) → us ≢ [] → (k : ℕ) × (contains k (ids us) ≡ true)
unfolding contains
some_id [] h = absurd (h refl)
some_id (u ∷ us) h = (u.id, ground arith)

-- The store with a batch of units `real` and canaries `checks`, all of them new.
module _ (s : BatchStore) (b : ℕ) (batch : Batch) (real checks : List WorkUnit) (v : Valid s)
    (absent : lookup b s.batches ≡ none) (listed : batch.unit_ids ≡ ids real)
    (planted : batch.canary_unit_ids ≡ ids checks) (new_real : All (IsNew b s.units) real)
    (new_checks : All (IsNew b s.units) checks) where
  abbrev pub new_units : Dict WorkUnit
  new_units = insert_units checks (insert_units real s.units)

  abbrev pub new_batches : Dict Batch
  new_batches = insert b batch s.batches

  abbrev pub new_queue : List ℕ
  new_queue = s.pending ++ spread 0 (ids checks) (ids real)

  in_queue :
      (k : ℕ)
      → (contains k s.pending || contains k (ids checks) || contains k (ids real)) ≡ true
      → contains k new_queue ≡ true
  in_queue k h = ground (
    arith,
    contains-append k s.pending (spread 0 (ids checks) (ids real)),
    contains-spread k 0 (ids checks) (ids real),
  )

  -- A unit of the new store is an old one, or new and listed.
  abbrev pub Added : ℕ → WorkUnit → Type 0
  Added k u =
      (u.id ≡ k) × IsNew b s.units u × ((contains k (ids checks) || contains k (ids real)) ≡ true)

  pub unit_before :
      (k : ℕ) (u : WorkUnit) → lookup k new_units ≡ some u → (lookup k s.units ≡ some u) ⊎ Added k u
  unit_before k u h =
      elim (insert_units-back (IsNew b s.units) k u checks (insert_units real s.units) new_checks
        h) [
          | inr (c, e, n) ↦ inr (e, n, ground arith)
          | inl h' ↦ elim (insert_units-back (IsNew b s.units) k u real s.units new_real h') [
            | inr (c, e, n) ↦ inr (e, n, ground arith)
            | inl old ↦ inl old
          ]
        ]

  -- A unit of the old store is there as it was.
  pub unit_kept : (k : ℕ) → lookup k s.units ≢ none → lookup k new_units ≡ lookup k s.units
  unit_kept k h =
      let c : contains k (ids checks) ≡ false = elim (Bool-cases (contains k (ids checks))) [
        | inl e ↦ absurd (h (new-unused b k s.units checks new_checks e))
        | inr e ↦ e
      ] in
      let r : contains k (ids real) ≡ false = elim (Bool-cases (contains k (ids real))) [
        | inl e ↦ absurd (h (new-unused b k s.units real new_real e))
        | inr e ↦ e
      ] in
      insert_units-other k checks (insert_units real s.units) c
      ∙ insert_units-other k real s.units r

  -- An identifier of the batch leads to a new unit.
  unit_added :
      (k : ℕ)
      → (contains k (ids checks) || contains k (ids real)) ≡ true
      → (u : WorkUnit) × (lookup k new_units ≡ some u) × IsNew b s.units u
  unit_added k h = elim (Bool-cases (contains k (ids checks))) [
    | inl e ↦ insert_units-on (IsNew b s.units) k checks (insert_units real s.units) new_checks e
    | inr e ↦
        let (u, q, n) = insert_units-on (IsNew b s.units) k real s.units new_real (ground arith) in
        (u, insert_units-other k checks (insert_units real s.units) e ∙ q, n)
  ]

  batch_kept : (k : ℕ) → (k == b) ≡ false → lookup k new_batches ≡ lookup k s.batches
  batch_kept k off = rw (lookup-insert k b batch s.batches, off)

  gone_before : (k : ℕ) → (k == b) ≡ false → batch_gone k new_batches ≡ batch_gone k s.batches
  unfolding batch_gone
  gone_before k off = rw (batch_kept k off, batch_gone)

  old_any_open :
      (k : ℕ) (old : Batch)
      → lookup k s.batches ≡ some old
      → any_open old.unit_ids new_units ≡ any_open old.unit_ids s.units
  old_any_open k old q = any_open-congr old.unit_ids s.units new_units λ uid c.
      let (w, p, o) = v.owned k old uid q (contains-members uid old c) in
      rw (unit_kept uid (λ e. cc))

  -- An old unit belongs to another batch.
  other_home : (k : ℕ) (u : WorkUnit) → lookup k s.units ≡ some u → (u.batch_id == b) ≡ false
  other_home k u q =
      let (home, h, c) = v.homed k u q in
      elim (Bool-cases (u.batch_id == b)) [
        | inl e ↦ let same : u.batch_id ≡ b = ground arith in absurd (ground arith)
        | inr e ↦ e
      ]

  submitted-AllQueued : AllQueued new_batches new_units new_queue
  submitted-AllQueued k u h p g = elim (unit_before k u h) [
    | inr (e, n, c) ↦ in_queue k (ground arith)
    | inl old ↦
        in_queue k (
          ground
            (arith, v.queued k u old p (sym (gone_before u.batch_id (other_home k u old)) ∙ g)))
  ]

  batch_before :
      (k : ℕ) (x : Batch)
      → lookup k new_batches ≡ some x
      → ((k ≡ b) × (x ≡ batch)) ⊎ (lookup k s.batches ≡ some x)
  batch_before k x h = elim (Bool-cases (k == b)) [
    | inl e ↦ inl (ground arith, ground (arith, lookup-insert k b batch s.batches))
    | inr e ↦ inr (ground (arith, lookup-insert k b batch s.batches))
  ]

  member_new :
      (k : ℕ) → contains k (members batch) ≡ (contains k (ids checks) || contains k (ids real))
  member_new k =
      rw (contains-append k batch.unit_ids batch.canary_unit_ids, listed, planted) (ground arith)

  submitted-AllOwned : AllOwned new_batches new_units
  submitted-AllOwned k x uid q c = elim (batch_before k x q) [
    | inl (e, same) ↦
        let (u, h, n) = unit_added uid (sym (member_new uid) ∙ rw (← same) c) in
        (u, h, n.home ∙ sym e)
    | inr old ↦ let (w, p, o) = v.owned k x uid old c in (w, unit_kept uid (λ e. cc) ∙ p, o)
  ]

  submitted-AllHomed : AllHomed new_batches new_units
  submitted-AllHomed k u h = elim (unit_before k u h) [
    | inr (e, n, c) ↦ (
      batch,
      ground (arith, n.home, lookup-insert u.batch_id b batch s.batches),
      member_new k ∙ c,
    )
    | inl old ↦
        let (home, q, c) = v.homed k u old in
        (home, batch_kept u.batch_id (other_home k u old) ∙ q, c)
  ]

  module _ (started : batch.state ≡ BatchState.in_progress) (first : real ≢ []) where
    submitted-AllSilent : AllSilent new_batches new_units
    submitted-AllSilent k x uid u q y c h = elim (batch_before k x q) [
      | inl (e, same) ↦ absurd (ground arith)
      | inr old ↦
          let (w, p, o) = v.owned k x uid old c in
          v.silent k x uid u old y c (sym (unit_kept uid (λ e. cc)) ∙ h)
    ]

    new_any_open : any_open batch.unit_ids new_units ≡ true
    unfolding open_unit
    new_any_open =
        let (k, c) = some_id real first in
        let (u, q, n) = unit_added k (ground arith) in
        rw listed (any_open-mem (ids real) new_units k c (rw q (rw n.waiting refl)))

    pub submitted-IsValid : IsValid new_batches new_units new_queue
    submitted-IsValid = record {
      stored = λ k u h. elim (unit_before k u h) [
        | inr (e, n, c) ↦ record { key = e; fit = IsNew-IsFit b s.units u n }
        | inl old ↦ v.stored k u old
      ];
      queued = submitted-AllQueued;
      owned = submitted-AllOwned;
      settled = λ k x q. elim (batch_before k x q) [
        | inl (e, same) ↦ ground (arith, new_any_open)
        | inr old ↦ v.settled k x old ∙ sym (old_any_open k x old)
      ];
      homed = submitted-AllHomed;
      silent = submitted-AllSilent;
    }
