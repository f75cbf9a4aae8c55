-- ===== src/System/Provenance.antt =====
-- Where results come from: the texts in the store, traced back to the payloads of their units.
use fleet_lm.Base.{
  ℕ, String, true, some, ◌≡◌, refl, ◌∙◌, inl, inr, List, ◌++◌, ◌==◌, arith, Bool-cases,
  Option-cases, All, All-map, Dict, lookup,
}
use fleet_lm.Config.{Settings}
use fleet_lm.Verification.{Primitives}
use fleet_lm.Batch.Data.{
  WorkUnit, BatchStore, Payload, payload, Batch, complete, is_open, is_in_progress, requeued,
}
use fleet_lm.Batch.Report.{NodeResult, record_result, dead_letter, retry}
use fleet_lm.Batch.Report
use fleet_lm.Batch.Cases.{maybe_finish_cases, complete_cases, fail_cases}
use fleet_lm.Batch.Requeue.{release_node, expire_leases}
use fleet_lm.Batch.Cancel.{cancel_unit, cancel_batch}
use fleet_lm.Batch.Machine.{Moves, stays, Evolves, Evolves-on}
use fleet_lm.Batch.Requested.{Moves-payload}
use fleet_lm.Batch.Units.{
  AllUnits, modify-AllUnits, cancel_units-AllUnits, requeue_where-AllUnits, create_batch-AllUnits,
}
use fleet_lm.Batch.Valid.Defs.{Valid}
use fleet_lm.Batch.History.{Call}
use fleet_lm.Batch.History
use fleet_lm.NodeAgent.{NodeAgent}
use fleet_lm.System.{World, set_agent, is_own_call}
use fleet_lm.System.Nodes.{IsBacked, IsBacked-mono, IsSupplied, IsSupplied-mono}

-- The payload is that of a unit of the store.
abbrev pub Known : Dict WorkUnit → Payload → Type 0
Known units p = (u : WorkUnit) × (lookup p.unit_id units ≡ some u) × (payload u ≡ p)

-- Every unit is still there, and has moved by one transition at most.
abbrev pub KeepsUnits : Dict WorkUnit → Dict WorkUnit → Type 0
KeepsUnits units units' =
    (k : ℕ) (u : WorkUnit)
    → lookup k units ≡ some u
    → (v : WorkUnit) × (lookup k units' ≡ some v) × Moves u v

pub Evolves-KeepsUnits :
    (units units' : Dict WorkUnit) → Evolves units units' → KeepsUnits units units'
Evolves-KeepsUnits units units' e k u q = Evolves-on units units' k u e q

Known-KeepsUnits :
    (units units' : Dict WorkUnit)
    → KeepsUnits units units'
    → (p : Payload) → Known units p
    → Known units' p
Known-KeepsUnits units units' kept p (u, q, e) =
    let (v, q', m) = kept p.unit_id u q in (v, q', Moves-payload m ∙ e)

module _ (Makes : Payload → String → Type 0) where
  -- The text of a complete unit is what an engine may make of it.
  abbrev pub IsMade : WorkUnit → Type 0
  IsMade u = u.state ≡ complete → (t : String) × (u.result_text ≡ some t) × Makes (payload u) t

  pub record IsSourced (w : World) : Type 0 where
    pub valid : Valid w.store
    pub made : AllUnits IsMade w.store.units
    pub given : All (λ g. All (Known w.store.units) g.1) w.given
    pub sent : All (λ g. IsBacked Makes (Known w.store.units) g.1) w.sent
    pub agents : (n : ℕ) → IsSupplied Makes (Known w.store.units) (w.agents n)

  cancel_unit-IsMade : (u : WorkUnit) → IsMade u → IsMade (cancel_unit u)
  unfolding cancel_unit
  cancel_unit-IsMade u h = elim (Bool-cases (is_open u.state)) [
    | inl e ↦ rw e (λ f. cc)
    | inr e ↦ rw e h
  ]

  cancel_batch-IsMade :
      (b : ℕ) (s : BatchStore)
      → AllUnits IsMade s.units
      → AllUnits IsMade (cancel_batch b s).1.units
  unfolding cancel_batch
  cancel_batch-IsMade b s h = elim (Option-cases (lookup b s.batches)) [
    | inl e ↦ rw (e, cancel_batch) h
    | inr (batch, e) ↦ elim (Bool-cases (is_in_progress batch.state)) [
      | inl p ↦
          rw (e, cancel_batch, p, cancel_batch)
            (cancel_units-AllUnits IsMade (batch.unit_ids ++ batch.canary_unit_ids) s.units
              cancel_unit-IsMade h)
      | inr p ↦ rw (e, cancel_batch, p, cancel_batch) h
    ]
  ]

  module _ (lib : Primitives) (settings : Settings) where
    pub call-IsMade :
        (now : ℕ) (c : Call) (s : BatchStore)
        → is_own_call c ≡ true
        → History.Allowed lib settings c s
        → Valid s
        → AllUnits IsMade s.units
        → AllUnits IsMade (History.step lib settings (now, c) s).units
    unfolding History.step release_node expire_leases requeued
    call-IsMade now (History.submits batch_id unit_id model requests) s o a v h =
        create_batch-AllUnits IsMade now batch_id unit_id model requests s (λ u e f. cc) a.1 v h
    call-IsMade now (History.leases node_id node_model count) s o a v h = cc
    call-IsMade now (History.completes node_id r) s o a v h = cc
    call-IsMade now (History.fails node_id unit_id message) s o a v h = cc
    call-IsMade now (History.releases node_id) s o a v h =
        requeue_where-AllUnits IsMade _ s (λ u p f. cc) h
    call-IsMade now History.expires s o a v h = requeue_where-AllUnits IsMade _ s (λ u p f. cc) h
    call-IsMade now (History.cancels batch_id) s o a v h = cancel_batch-IsMade batch_id s h

    abbrev MadeIn : Dict Batch → Dict WorkUnit → List ℕ → Type 0
    MadeIn batches units queue = AllUnits IsMade units

    finished-IsMade :
        (now batch_id : ℕ) (s : BatchStore)
        → AllUnits IsMade s.units
        → AllUnits IsMade (Report.maybe_finish_batch now batch_id s).units
    finished-IsMade now batch_id s h =
        maybe_finish_cases MadeIn now batch_id s (λ _. h) (λ _ _ _. h) (λ _ _ _ _. h) (λ _ _ _ _. h)

    pub complete-IsMade :
        (now n : ℕ) (r : NodeResult) (s : BatchStore) (p : Payload)
        → Known s.units p
        → p.unit_id ≡ r.unit_id
        → Makes p r.text
        → AllUnits IsMade s.units
        → AllUnits IsMade (Report.complete lib now n r s).units
    unfolding record_result payload
    complete-IsMade now n r s p (u, q, e) at makes h =
        complete_cases MadeIn lib now n r s h λ w found o. finished-IsMade now w.batch_id _ (
          modify-AllUnits IsMade r.unit_id (record_result n r) s.units
            (λ x here f.
              let same : x ≡ u = ground (arith, here, q, at) in (r.text, refl, rw (same, e) makes))
            h)

    pub fail-IsMade :
        (now n unit_id : ℕ) (message : String) (s : BatchStore)
        → AllUnits IsMade s.units
        → AllUnits IsMade (Report.fail settings now n unit_id message s).units
    unfolding dead_letter retry requeued
    fail-IsMade now n unit_id message s h =
        fail_cases MadeIn settings now n unit_id message s h
          (λ u e o spent.
            finished-IsMade now u.batch_id _
              (modify-AllUnits IsMade unit_id (dead_letter message) s.units (λ x q f. cc) h))
          (λ u e o more. modify-AllUnits IsMade unit_id (retry message) s.units (λ x q f. cc) h)

  -- One world follows another: it is sourced too, and no unit of its store is lost.
  pub record Advances (w v : World) : Type 0 where
    pub sourced : IsSourced v
    pub kept : KeepsUnits w.store.units v.store.units

  pub rests-Advances : (w : World) → IsSourced w → Advances w w
  rests-Advances w i = record { sourced = i; kept = λ k u q. (u, q, stays) }

  -- The store changes, and what nodes hold and were given is still known.
  pub changed-Advances :
      (w : World) (s : BatchStore)
      → IsSourced w
      → Valid s
      → AllUnits IsMade s.units
      → KeepsUnits w.store.units s.units
      → Advances w (record w { store = s })
  changed-Advances w s i v h kept =
      let more = Known-KeepsUnits w.store.units s.units kept in
      record {
        sourced = record {
          valid = v;
          made = h;
          given =
              All-map _ _ w.given (λ g k. All-map (Known w.store.units) (Known s.units) g.1 more k)
                i.given;
          sent =
              All-map _ _ w.sent
                (λ g b. IsBacked-mono Makes (Known w.store.units) (Known s.units) more g.1 b)
                i.sent;
          agents = λ n.
              IsSupplied-mono Makes (Known w.store.units) (w.agents n) (i.agents n) (Known s.units)
                more;
        };
        kept = kept;
      }

  pub agent-Advances :
      (w : World) (n : ℕ) (a : NodeAgent)
      → IsSourced w
      → IsSupplied Makes (Known w.store.units) a
      → Advances w (set_agent n a w)
  agent-Advances w n a i s = record {
    sourced = record {
      valid = i.valid;
      made = i.made;
      given = i.given;
      sent = i.sent;
      agents = λ m. elim (Bool-cases (m == n)) [ inl e ↦ rw e s | inr e ↦ rw e (i.agents m) ];
    };
    kept = λ k u q. (u, q, stays);
  }
