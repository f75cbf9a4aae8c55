-- ===== src/System/Answers.antt =====
-- A batch from its submission to its results, across the server and its nodes.
use fleet_lm.Base.{ℕ, String, Option, some, ◌≡◌, ◌≢◌, ◌⊎◌, refl, inl, inr, List, lookup}
use fleet_lm.Config.{Settings}
use fleet_lm.Metrics.{FleetMetrics}
use fleet_lm.Verification.{Primitives, Verifier}
use fleet_lm.Batch.Data.{WorkUnit, Request, Payload, UnitState, pending, leased, complete, failed}
use fleet_lm.Batch.History.{submits}
use fleet_lm.Batch.History
use fleet_lm.NodeAgent.{NodeAgent}
use fleet_lm.System.{World, calls, Reaches, stays, goes}
use fleet_lm.Batch.Requested.{payload_of, request_at, HoldsFor, submitted-HoldsFor, Moves-IsFor}
use fleet_lm.System.Provenance.{IsSourced}
use fleet_lm.System.Results.{
  IsEmpty, opened, opened-IsSourced, happens-Advances, reaches-IsSourced, results_are_sourced,
}

module _ (Makes : Payload → String → Type 0) (lib : Primitives) (settings : Settings) where
  reaches-HoldsFor :
      (w v : World) (batch_id unit_id j : ℕ) (req : Request)
      → Reaches lib settings Makes w v
      → IsSourced Makes w
      → HoldsFor batch_id unit_id j req w.store.units
      → HoldsFor batch_id unit_id j req v.store.units
  reaches-HoldsFor w _ batch_id unit_id j req stays i h = h
  reaches-HoldsFor w _ batch_id unit_id j req (goes r x) i h =
      let (u, q, f) = reaches-HoldsFor w _ batch_id unit_id j req r i h in
      let mid = reaches-IsSourced Makes lib settings w _ r i in
      let (u', q', m) = (happens-Advances Makes lib settings _ mid _ x).kept unit_id u q in
      (u', q', Moves-IsFor batch_id unit_id j req m f)

  reaches-append :
      (u v w : World)
      → Reaches lib settings Makes u v
      → Reaches lib settings Makes v w
      → Reaches lib settings Makes u w
  reaches-append u v _ r stays = r
  reaches-append u v _ r (goes q h) = goes (reaches-append u v _ r q) h

complete-cases : (s : UnitState) → (s ≡ complete) ⊎ (s ≢ complete)
complete-cases pending = inr (λ e. cc)
complete-cases leased = inr (λ e. cc)
complete-cases complete = inl refl
complete-cases failed = inr (λ e. cc)

module _ (lib : Primitives) (settings : Settings) where
  -- The world after a submission.
  abbrev pub submit : ℕ → ℕ → (ℕ → ℕ) → Option String → List Request → World → World
  submit now batch_id unit_id model requests w = record w {
    store = History.step lib settings (now, submits batch_id unit_id model requests) w.store;
  }

-- From a new store and nodes that have just started, over a network that may lose, repeat and
-- reorder messages, with nodes that come, go and retry, and as long as what each engine puts out for
-- a unit is what it may make of that unit's payload: when a list of requests has been submitted,
-- at least one and with new identifiers, then whatever happens next, the j-th of them still has its
-- unit in the store, in that batch and with index j, and once this unit is complete its result text
-- is what an engine may make of the messages and parameters of the j-th request.
pub requests_are_answered :
    (Makes : Payload → String → Type 0) (lib : Primitives) (settings : Settings)
    (metrics : Option FleetMetrics) (verifier : Option Verifier) (agents : ℕ → NodeAgent)
    (w v : World) (now batch_id : ℕ) (unit_id : ℕ → ℕ) (model : Option String)
    (requests : List Request)
    → ((n : ℕ) → IsEmpty (agents n))
    → Reaches lib settings Makes (opened metrics verifier agents) w
    → History.Allowed lib settings (submits batch_id unit_id model requests) w.store
    → Reaches lib settings Makes (submit lib settings now batch_id unit_id model requests w) v
    → (j : ℕ) (req : Request) → request_at requests j ≡ some req
    → (u : WorkUnit) × (lookup (unit_id j) v.store.units ≡ some u)
      × (u.batch_id ≡ batch_id)
      × (u.index ≡ j)
      × ((u.state ≢ complete)
          ⊎ ((t : String) × (u.result_text ≡ some t) × Makes (payload_of (unit_id j) req) t))
unfolding History.step
requests_are_answered Makes lib settings metrics verifier agents w v now batch_id unit_id model
      requests e r a r' j req at =
    let start = opened metrics verifier agents in
    let middle = submit lib settings now batch_id unit_id model requests w in
    let there = goes r (calls now (submits batch_id unit_id model requests) refl a) in
    let source =
      reaches-IsSourced Makes lib settings start middle there
        (opened-IsSourced Makes metrics verifier agents e) in
    let (u, q, f) =
      reaches-HoldsFor Makes lib settings middle v batch_id (unit_id j) j req r' source
        (submitted-HoldsFor now batch_id unit_id model a.1.distinct w.store requests j req at) in
    (
      u,
      q,
      f.home,
      f.place,
      elim (complete-cases u.state) [
        | inr open_or_failed ↦ inl open_or_failed
        | inl d ↦
            let (t, p, makes) =
              results_are_sourced Makes lib settings metrics verifier agents v e
                (reaches-append Makes lib settings start middle v there r') (unit_id j) u q d in
            inr (t, p, rw (← f.asked) makes)
      ],
    )
