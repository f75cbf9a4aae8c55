-- ===== src/System/Results.antt =====
-- Whatever happens in the system, its results are sourced.
use fleet_lm.Base.{
  ℕ, String, true, Option, some, ◌≡◌, refl, sym, subst, inl, inr, List, [], ◌∷◌, ◌==◌, Bool-cases,
  All, All-In, map, lookup,
}
use fleet_lm.Config.{Settings}
use fleet_lm.Metrics.{FleetMetrics}
use fleet_lm.Verification.{Primitives, Verifier}
use fleet_lm.Batch.Data.{WorkUnit, BatchStore, Payload, payload, complete, new_store}
use fleet_lm.Batch.Lease.{lease, lease_unit}
use fleet_lm.Batch.Evolve.{lease-Evolves, complete-Evolves, fail-Evolves}
use fleet_lm.Batch.Units.{lease-AllUnits}
use fleet_lm.Batch.Valid.Defs.{Valid}
use fleet_lm.Batch.Valid.Leasing.{lease-IsValid}
use fleet_lm.Batch.Valid.Reporting.{complete-IsValid, fail-IsValid}
use fleet_lm.Batch.History.{step-IsValid, step-Moves, new_store-IsValid}
use fleet_lm.NodeAgent.{
  NodeAgent, Sent, model_loaded, work_request, work_result, work_failed, beat, load_error, streams,
}
use fleet_lm.NodeAgent.Delivered.{frame_of}
use fleet_lm.NodeAgent.Backlog
use fleet_lm.Server.App.{App, on_store}
use fleet_lm.Server.Messages
use fleet_lm.Server.Handle.{handled, result_of, model_of, capacity_of, assign, handle}
use fleet_lm.Server.Assigning.{work_request-IsAssigned}
use fleet_lm.System.{
  World, serve_node, assignments, is_report, Happens, calls, gives, arrives, acts, sends, reports,
  Reaches, stays, goes,
}
use fleet_lm.System.Nodes.{IsBacked, assigned-IsSupplied, own-IsSupplied}
use fleet_lm.System.Provenance.{
  Known, Evolves-KeepsUnits, IsMade, IsSourced, call-IsMade, complete-IsMade, fail-IsMade, Advances,
  rests-Advances, changed-Advances, agent-Advances,
}

module _ (Makes : Payload → String → Type 0) (lib : Primitives) (settings : Settings) where
  module _ (w : World) (i : IsSourced Makes w) where
    -- A report of a node, on a store that is the one of the world.
    report-Advances :
        (now n cpu seconds : ℕ) (model_id : String) (m : Sent) (app : App)
        → app.batch_store ≡ w.store
        → IsBacked Makes (Known w.store.units) m
        → is_report m ≡ true
        → Advances Makes w
            (serve_node n (handle lib settings now n (frame_of cpu seconds model_id m) app) w)
    unfolding frame_of handle handled on_store result_of assignments
    report-Advances now n cpu seconds model_id (work_result unit_id text prompt completion model)
          app same (p, k, e, makes) r =
        rw same (
          changed-Advances Makes w _ i (complete-IsValid lib now n _ w.store i.valid)
            (complete-IsMade Makes lib settings now n _ w.store p k e makes i.made)
            (Evolves-KeepsUnits _ _ (complete-Evolves lib now n _ w.store)))
    report-Advances now n cpu seconds model_id (work_failed unit_id message) app same b r =
        rw same (
          changed-Advances Makes w _ i (fail-IsValid settings now n unit_id message w.store i.valid)
            (fail-IsMade Makes lib settings now n unit_id message w.store i.made)
            (Evolves-KeepsUnits _ _ (fail-Evolves settings now n unit_id message w.store)))
    report-Advances now n cpu seconds model_id model_loaded app same b r = cc
    report-Advances now n cpu seconds model_id (work_request capacity) app same b r = cc
    report-Advances now n cpu seconds model_id (beat sessions) app same b r = cc
    report-Advances now n cpu seconds model_id (load_error message) app same b r = cc
    report-Advances now n cpu seconds model_id (streams m) app same b r = cc

    -- The store after a request for work.
    assigned-Advances :
        (now n room : ℕ) (app : App)
        → app.batch_store ≡ w.store
        → Advances Makes w
            (record w { store = (assign lib settings now n room app).app.batch_store })
    unfolding assign lease
    assigned-Advances now n room app same = elim (Bool-cases (room == 0)) [
      | inl e ↦ rw (e, same) (rests-Advances Makes w i)
      | inr e ↦
          let model = model_of n app.registry in
          rw (e, same)
            (changed-Advances Makes w _ i (lease-IsValid settings now n model room w.store i.valid)
              (lease-AllUnits (IsMade Makes) settings now n model (unfold lease_unit in λ u p f. cc)
                room w.store i.made)
              (Evolves-KeepsUnits _ _ (lease-Evolves settings now n model room w.store)))
    ]

    payloads-Known :
        (s : BatchStore) (us : List WorkUnit)
        → All (λ u. lookup u.id s.units ≡ some u) us
        → All (Known s.units) (map payload us)
    unfolding payload
    payloads-Known s [] h = tt
    payloads-Known s (u ∷ us) h = ((u, h.0, refl), payloads-Known s us h.1)

    given-Advances :
        (now n : ℕ) (capacity : Option ℕ) (app : App)
        → app.batch_store ≡ w.store
        → Advances Makes w
            (serve_node n (handle lib settings now n (Messages.work_request capacity) app) w)
    unfolding handle assignments
    given-Advances now n capacity app same =
        let j = assigned-Advances now n (capacity_of capacity) app same in
        let a =
          work_request-IsAssigned lib settings now n capacity app
            (subst Valid (sym same) i.valid) in
        let s = (assign lib settings now n (capacity_of capacity) app).app.batch_store in
        record {
          sourced = record {
            valid = j.sourced.valid;
            made = j.sourced.made;
            given = rw a.sent (payloads-Known s a.units a.kept, j.sourced.given);
            sent = j.sourced.sent;
            agents = j.sourced.agents;
          };
          kept = j.kept;
        }

    pub happens-Advances : (v : World) → Happens lib settings Makes w v → Advances Makes w v
    unfolding Backlog.step
    happens-Advances _ (calls now c own allowed) =
        changed-Advances Makes w _ i (step-IsValid lib settings (now, c) w.store allowed i.valid)
          (call-IsMade Makes lib settings now c w.store own allowed i.valid i.made)
          (λ k u q. step-Moves lib settings (now, c) w.store k u allowed i.valid q)
    happens-Advances _ (gives now n capacity app same) = given-Advances now n capacity app same
    happens-Advances _ (arrives n units sent) = agent-Advances Makes w n _ i (
        assigned-IsSupplied Makes (Known w.store.units) (w.agents n) (i.agents n) units
          (All-In _ (n, units) w.given i.given sent))
    happens-Advances _ (acts n x own) =
        agent-Advances Makes w n _ i
          (own-IsSupplied Makes (Known w.store.units) x (w.agents n) own (i.agents n))
    happens-Advances _ (sends n m listed) = record {
      sourced = record {
        valid = i.valid;
        made = i.made;
        given = i.given;
        sent = (All-In _ m (w.agents n).outbox (i.agents n).outbox listed, i.sent);
        agents = i.agents;
      };
      kept = (rests-Advances Makes w i).kept;
    }
    happens-Advances _ (reports now n cpu seconds model_id m app same sent r) =
        report-Advances now n cpu seconds model_id m app same (All-In _ (n, m) w.sent i.sent sent) r

  pub reaches-IsSourced :
      (w v : World) → Reaches lib settings Makes w v → IsSourced Makes w → IsSourced Makes v
  reaches-IsSourced w _ stays i = i
  reaches-IsSourced w _ (goes r h) i = (happens-Advances _ (reaches-IsSourced w _ r i) _ h).sourced

-- A node that has just started holds nothing.
pub record IsEmpty (a : NodeAgent) : Type 0 where
  pub queue : a.work_queue ≡ []
  pub running : a.running ≡ []
  pub outbox : a.outbox ≡ []

abbrev pub opened : Option FleetMetrics → Option Verifier → (ℕ → NodeAgent) → World
opened metrics verifier agents = record {
  store = new_store metrics verifier;
  given = [];
  sent = [];
  agents = agents;
}

pub opened-IsSourced :
    (Makes : Payload → String → Type 0) (metrics : Option FleetMetrics) (verifier : Option Verifier)
    (agents : ℕ → NodeAgent)
    → ((n : ℕ) → IsEmpty (agents n))
    → IsSourced Makes (opened metrics verifier agents)
unfolding new_store lookup
opened-IsSourced Makes metrics verifier agents e = record {
  valid = new_store-IsValid metrics verifier;
  made = λ k u q. cc;
  given = tt;
  sent = tt;
  agents = λ n. record {
    queue = rw ((e n).queue) tt;
    running = rw ((e n).running) tt;
    outbox = rw ((e n).outbox) tt;
  };
}

-- From a new store and nodes that have just started, over a network that may lose, repeat and
-- reorder messages, with nodes that come, go and retry, and as long as what each engine puts out for
-- a unit is what it may make of that unit's payload: the result text of every unit that is complete
-- is what an engine may make of the messages and parameters of that very unit.
pub results_are_sourced :
    (Makes : Payload → String → Type 0) (lib : Primitives) (settings : Settings)
    (metrics : Option FleetMetrics) (verifier : Option Verifier) (agents : ℕ → NodeAgent)
    (w : World)
    → ((n : ℕ) → IsEmpty (agents n))
    → Reaches lib settings Makes (opened metrics verifier agents) w
    → (k : ℕ) (u : WorkUnit) → lookup k w.store.units ≡ some u
    → u.state ≡ complete
    → (t : String) × (u.result_text ≡ some t) × Makes (payload u) t
results_are_sourced Makes lib settings metrics verifier agents w e r =
    (reaches-IsSourced Makes lib settings (opened metrics verifier agents) w r
      (opened-IsSourced Makes metrics verifier agents e)).made
