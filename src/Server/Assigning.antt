-- ===== src/Server/Assigning.antt =====
-- What a node that asks for work is given.
use fleet_lm.Base.{
  ℕ, ◌≤◌, String, Option, some, ◌≡◌, refl, List, [], ◌∷◌, map, ◌==◌, Bool-cases, inl, inr, arith,
  length, All, Distinct, lookup,
}
use fleet_lm.Config.{Settings}
use fleet_lm.Verification.{Primitives}
use fleet_lm.Batch.Data.{WorkUnit, payload}
use fleet_lm.Batch.Submit.{ids}
use fleet_lm.Batch.Lease.{lease}
use fleet_lm.Batch.Valid.Defs.{Valid}
use fleet_lm.Batch.Leasing.Handed.{IsHanded, lease-IsHanded}
use fleet_lm.Server.App.{App}
use fleet_lm.Server.Messages.{work_request, work_assignment}
use fleet_lm.Server.Handle.{
  Handled, max_lease_per_request, field_or, capacity_of, model_of, assign, handle,
}

-- The units behind an answer to a request for work: no more than the node has room for, nor than
-- 64, no two the same, each leased to the node, for its model, and in the store so.
pub record IsAssigned (settings : Settings) (now node_id : ℕ) (model : Option String) (room : ℕ)
    (h : Handled) : Type 0 where
  pub units : List WorkUnit
  pub sent : h.replies ≡ work_assignment (map payload units) ∷ []
  pub within : length units ≤ room
  pub capped : length units ≤ max_lease_per_request
  pub distinct : Distinct (ids units)
  pub handed : All (IsHanded settings now node_id model) units
  pub kept : All (λ u. lookup u.id h.app.batch_store.units ≡ some u) units

module _ (lib : Primitives) (settings : Settings) (now node_id : ℕ) where
  assign-IsAssigned :
      (room : ℕ) (app : App)
      → Valid app.batch_store
      → room ≤ max_lease_per_request
      → IsAssigned settings now node_id
          (model_of node_id app.registry)
          room
          (assign lib settings now node_id room app)
  unfolding assign
  assign-IsAssigned room app v small = elim (Bool-cases (room == 0)) [
    | inl e ↦ rw e (record {
      units = [];
      sent = refl;
      within = omega arith;
      capped = omega arith;
      distinct = tt;
      handed = tt;
      kept = tt;
    })
    | inr e ↦
        let model = model_of node_id app.registry in
        let (bound, distinct, handed, kept) =
          lease-IsHanded settings now node_id model room app.batch_store v in
        rw e (record {
          units = (lease settings now node_id model room app.batch_store).0;
          sent = refl;
          within = bound;
          capped = omega arith;
          distinct = distinct;
          handed = handed;
          kept = kept;
        })
  ]

  -- With a valid store, a node that asks for work is sent units that are leased to it from now, fit
  -- the model it is registered with, are in the store so and all differ; there are at most as many
  -- as it has room for, one if it does not say, and never more than 64.
  pub work_request-IsAssigned :
      (capacity : Option ℕ) (app : App)
      → Valid app.batch_store
      → IsAssigned settings now node_id
          (model_of node_id app.registry)
          (field_or 1 capacity)
          (handle lib settings now node_id (work_request capacity) app)
  unfolding handle capacity_of
  work_request-IsAssigned capacity app v =
      let a = assign-IsAssigned (capacity_of capacity) app v (omega arith) in
      record {
        units = a.units;
        sent = a.sent;
        within = omega (arith, a.within);
        capped = a.capped;
        distinct = a.distinct;
        handed = a.handed;
        kept = a.kept;
      }
