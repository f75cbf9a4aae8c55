-- ===== src/Batch/Valid/Reporting.antt =====
-- `complete` and `fail` keep the invariant.
use fleet_lm.Base.{
  ℕ, String, true, false, some, ◌≡◌, refl, sym, ◌∙◌, List, [], ◌∷◌, ◌++◌, arith, ◌==◌, Bool-cases,
  Option-cases, contains, contains-append, inl, inr, Dict, lookup, modify, lookup-modify,
}
use fleet_lm.Config.{Settings}
use fleet_lm.Verification.{Primitives}
use fleet_lm.Batch.Data.{
  WorkUnit, Batch, BatchStore, is_open, is_in_progress, is_cancelled, requeued,
}
use fleet_lm.Batch.Lease.{batch_gone}
use fleet_lm.Batch.Report.{
  NodeResult, record_result, dead_letter, retry, finish, any_open, complete, fail,
}
use fleet_lm.Batch.Machine.{Moves, completes, dies, retries, Evolves, Evolves-modify}
use fleet_lm.Batch.Cases.{Closed, maybe_finish_cases, complete_cases, fail_cases}
use fleet_lm.Batch.Valid.Defs.{
  contains-members, AllQueued, IsValid, Valid, Evolves-AllStored, Evolves-AllOwned,
  Evolves-AllHomed, Evolves-AllSilent, modified-AllHomed,
}
use fleet_lm.Batch.Valid.Opens.{
  any_open-congr, any_open_mono, open_unit-modify, open_unit-modify_close,
}

batch_gone-modify :
    (j k : ℕ) (f : Batch → Batch) (d : Dict Batch)
    → ((b : Batch) → lookup j d ≡ some b → is_cancelled (f b).state ≡ is_cancelled b.state)
    → batch_gone k (modify j f d) ≡ batch_gone k d
unfolding batch_gone
batch_gone-modify j k f d h = elim (Option-cases (lookup k d)) [
  | inl e ↦ ground (arith, lookup-modify k j f d)
  | inr (b, e) ↦ elim (Bool-cases (k == j)) [
    | inl at ↦
        let same : k ≡ j = ground arith in ground (arith, lookup-modify k j f d, h b (ground arith))
    | inr off ↦ ground (arith, lookup-modify k j f d)
  ]
]

-- The change of one open unit `u` into a closed one.
module _ (s : BatchStore) (j : ℕ) (u : WorkUnit) (f : WorkUnit → WorkUnit) (v : Valid s)
    (at : lookup j s.units ≡ some u)
    (moves : (w : WorkUnit) → lookup j s.units ≡ some w → Moves w (f w)) where
  abbrev new_units : Dict WorkUnit
  new_units = modify j f s.units

  changed-Evolves : Evolves s.units new_units
  changed-Evolves = Evolves-modify j f s.units moves

  -- A batch other than the unit's does not notice.
  other_batch :
      (b : ℕ) (batch : Batch)
      → lookup b s.batches ≡ some batch
      → (b == u.batch_id) ≡ false
      → any_open batch.unit_ids new_units ≡ any_open batch.unit_ids s.units
  other_batch b batch q off = any_open-congr batch.unit_ids s.units new_units λ k c.
      let (w, p, o) = v.owned b batch k q (contains-members k batch c) in
      elim (Bool-cases (k == j)) [
        | inl e ↦
            let same : k ≡ j = ground arith in
            let unit : w ≡ u = ground arith in absurd (ground arith)
        | inr e ↦ rw (lookup-modify k j f s.units, e)
      ]

  module _ (closes : (w : WorkUnit) → is_open (f w).state ≡ false) where
    changed-AllQueued : AllQueued s.batches new_units s.pending
    changed-AllQueued k w q p g = elim (Bool-cases (k == j)) [
      | inl e ↦ absurd (ground (arith, lookup-modify k j f s.units, at, closes u))
      | inr e ↦ v.queued k w (ground (arith, lookup-modify k j f s.units)) p g
    ]

    -- The other batches are settled as before, so only the unit's own is in question.
    changed-IsValid :
        ((b : Batch)
          → lookup u.batch_id s.batches ≡ some b
          → is_in_progress b.state ≡ any_open b.unit_ids new_units)
        → IsValid s.batches new_units s.pending
    changed-IsValid own = record {
      homed = Evolves-AllHomed s.units new_units changed-Evolves s.batches v.homed;
      silent = Evolves-AllSilent s.units new_units changed-Evolves s.batches v.silent;
      stored = Evolves-AllStored s.units new_units changed-Evolves v.stored;
      queued = changed-AllQueued;
      owned = Evolves-AllOwned s.units new_units changed-Evolves s.batches v.owned;
      settled = λ b batch q. elim (Bool-cases (b == u.batch_id)) [
        | inl e ↦ let same : b ≡ u.batch_id = ground arith in own batch (ground arith)
        | inr e ↦ v.settled b batch q ∙ sym (other_batch b batch q e)
      ];
    }

    finished-IsValid :
        (now : ℕ) (b : Batch)
        → lookup u.batch_id s.batches ≡ some b
        → is_in_progress b.state ≡ true
        → any_open b.unit_ids new_units ≡ false
        → IsValid (modify u.batch_id (finish now) s.batches) new_units s.pending
    unfolding finish
    finished-IsValid now b q p o = record {
      homed =
          modified-AllHomed u.batch_id (finish now) s.batches new_units (λ _. refl)
            (Evolves-AllHomed s.units new_units changed-Evolves s.batches v.homed);
      silent = λ b' batch k w h x c at'.
          let old : lookup b' s.batches ≡ some batch =
            ground (arith, lookup-modify b' u.batch_id (finish now) s.batches) in
          Evolves-AllSilent s.units new_units changed-Evolves s.batches v.silent b' batch k w old x
            c at';
      stored = Evolves-AllStored s.units new_units changed-Evolves v.stored;
      queued = λ k w h w-pending g. changed-AllQueued k w h w-pending (
          sym
            (batch_gone-modify u.batch_id w.batch_id (finish now) s.batches (λ b' q'. ground arith))
          ∙ g);
      owned = λ b' batch k h c. elim (Bool-cases (b' == u.batch_id)) [
        | inl e ↦
            Evolves-AllOwned s.units new_units changed-Evolves s.batches v.owned b' b k
              (ground arith) (ground (arith, lookup-modify b' u.batch_id (finish now) s.batches))
        | inr e ↦
            Evolves-AllOwned s.units new_units changed-Evolves s.batches v.owned b' batch k
              (ground (arith, lookup-modify b' u.batch_id (finish now) s.batches)) c
      ];
      settled = λ b' batch h. elim (Bool-cases (b' == u.batch_id)) [
        | inl e ↦
            let same : b' ≡ u.batch_id = ground arith in
            ground (arith, lookup-modify b' u.batch_id (finish now) s.batches)
        | inr e ↦
            let old : lookup b' s.batches ≡ some batch =
              ground (arith, lookup-modify b' u.batch_id (finish now) s.batches) in
            v.settled b' batch old ∙ sym (other_batch b' batch old e)
      ];
    }

    still_closed : (uids : List ℕ) → any_open uids s.units ≡ false → any_open uids new_units ≡ false
    still_closed uids =
        any_open_mono uids s.units new_units (λ k. open_unit-modify_close j k f s.units closes)

    Closed-IsValid : (now : ℕ) → Closed IsValid now j f u s
    Closed-IsValid now =
        maybe_finish_cases IsValid now u.batch_id (record s { units = new_units })
          (λ missing. changed-IsValid (λ b q. cc))
          (λ b q p. changed-IsValid λ b' q'.
            let same : b' ≡ b = ground arith in
            ground (arith, still_closed b.unit_ids, v.settled u.batch_id b q))
          (λ b q p o. changed-IsValid λ b' q'. ground arith) (finished-IsValid now)

pub complete-IsValid :
    (lib : Primitives) (now node_id : ℕ) (r : NodeResult) (s : BatchStore)
    → Valid s
    → Valid (complete lib now node_id r s)
complete-IsValid lib now node_id r s v = complete_cases IsValid lib now node_id r s v λ u e o.
    Closed-IsValid s r.unit_id u (record_result node_id r) v e
      (λ w q. completes node_id r (ground arith)) (λ w. unfold record_result in refl) now

-- An open unit goes back to the queue.
retried-IsValid :
    (s : BatchStore) (j : ℕ) (u : WorkUnit) (message : String)
    → Valid s
    → lookup j s.units ≡ some u
    → is_open u.state ≡ true
    → IsValid s.batches (modify j (retry message) s.units) (s.pending ++ u.id ∷ [])
unfolding retry requeued contains
retried-IsValid s j u message v at o =
    let units : Dict WorkUnit = modify j (retry message) s.units in
    let e : Evolves s.units units =
      Evolves-modify j (retry message) s.units (λ w q. retries message (ground arith)) in
    record {
      stored = Evolves-AllStored s.units units e v.stored;
      queued = λ k w q p g. elim (Bool-cases (k == j)) [
        | inl here ↦ ground (arith, contains-append k s.pending (u.id ∷ []), (v.stored j u at).key)
        | inr off ↦ ground (
          arith,
          contains-append k s.pending (u.id ∷ []),
          lookup-modify k j (retry message) s.units,
          v.queued k w,
        )
      ];
      owned = Evolves-AllOwned s.units units e s.batches v.owned;
      homed = Evolves-AllHomed s.units units e s.batches v.homed;
      silent = Evolves-AllSilent s.units units e s.batches v.silent;
      settled = λ b batch q.
          v.settled b batch q
          ∙ sym (
              any_open-congr batch.unit_ids s.units units
                (λ k _. open_unit-modify j k (retry message) s.units (λ w q'. ground arith)));
    }

pub fail-IsValid :
    (settings : Settings) (now node_id unit_id : ℕ) (message : String) (s : BatchStore)
    → Valid s
    → Valid (fail settings now node_id unit_id message s)
fail-IsValid settings now node_id unit_id message s v =
    fail_cases IsValid settings now node_id unit_id message s v
      (λ u e o _.
        Closed-IsValid s unit_id u (dead_letter message) v e (λ w q. dies message (ground arith))
          (λ w. unfold dead_letter in refl) now)
      (λ u e o _. retried-IsValid s unit_id u message v e o)
