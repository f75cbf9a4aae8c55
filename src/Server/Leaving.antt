-- ===== src/Server/Leaving.antt =====
-- What the end of a node's connection leaves of the node.
use fleet_lm.Base.{
  ℕ, true, false, none, some, ◌≡◌, refl, not, subst, sym, Option-cases, inl, inr, arith, contains,
  contains-append, lookup, lookup-map_values,
}
use fleet_lm.Batch.Data.{WorkUnit, requeued}
use fleet_lm.Batch.Requeue.{reclaimed, reclaim, requeue_where, held_by, release_node}
use fleet_lm.Batch.Valid.Defs.{Valid}
use fleet_lm.Batch.Valid.Requeueing.{contains-reclaimed}
use fleet_lm.Fleet.Registry.{get_node}
use fleet_lm.Fleet.Sweep.{IsConsistent, get_node-remove}
use fleet_lm.Session.Data.{
  InferenceSession, SessionState, pending, generating, complete, failed, is_active, is_closed,
}
use fleet_lm.Session.Inference.{put, fail}
use fleet_lm.Session.Manager.{get, served_by_node, fail_if_served, fail_sessions_for_node}
use fleet_lm.Server.App.{App, on_metrics, on_store, on_registry, on_sessions}
use fleet_lm.Server.Connection.{leave}

-- The node is not registered, holds no lease, and serves no session that is active.
pub record IsGone (node_id : ℕ) (app : App) : Type 0 where
  pub node : get_node node_id app.registry ≡ none
  pub units :
      (k : ℕ) (u : WorkUnit) → lookup k app.batch_store.units ≡ some u → held_by node_id u ≡ false
  pub sessions :
      (k : ℕ) (s : InferenceSession)
      → get k app.session_manager ≡ some s
      → served_by_node node_id s ≡ true
      → is_active s.state ≡ false

reclaim-held_by :
    (node_id : ℕ) (u : WorkUnit) → held_by node_id (reclaim (held_by node_id) u) ≡ false
unfolding reclaim requeued held_by
reclaim-held_by node_id u = ground arith

is_active-not_closed : (st : SessionState) → is_active st ≡ not (is_closed st)
unfolding is_active is_closed
is_active-not_closed pending = refl
is_active-not_closed generating = refl
is_active-not_closed complete = refl
is_active-not_closed failed = refl

fail_if_served-closed :
    (node_id : ℕ) (s : InferenceSession)
    → served_by_node node_id (fail_if_served node_id s) ≡ true
    → is_active (fail_if_served node_id s).state ≡ false
unfolding fail_if_served fail put is_active served_by_node
fail_if_served-closed node_id s h = ground (arith, is_active-not_closed s.state)

-- When a node's connection ends, the node is gone: it is not registered, none of its leases is left,
-- and no session that it served is active.
pub leave-IsGone :
    (now node_id : ℕ) (app : App)
    → IsConsistent app.registry
    → IsGone node_id (leave now node_id app)
unfolding leave on_metrics on_store on_registry on_sessions release_node requeue_where
    fail_sessions_for_node get
leave-IsGone now node_id app c = record {
  node = ground (arith, get_node-remove node_id node_id app.registry c);
  units = λ k u h. elim (Option-cases (lookup k app.batch_store.units)) [
    | inl absent ↦
        ground (arith, lookup-map_values k (reclaim (held_by node_id)) app.batch_store.units)
    | inr (w, at) ↦
        let was : u ≡ reclaim (held_by node_id) w =
          ground (arith, lookup-map_values k (reclaim (held_by node_id)) app.batch_store.units) in
        rw was (reclaim-held_by node_id w)
  ];
  sessions = λ k s h served. elim (Option-cases (get k app.session_manager)) [
    | inl absent ↦
        ground (arith, lookup-map_values k (fail_if_served node_id) app.session_manager.sessions)
    | inr (w, at) ↦
        let was : s ≡ fail_if_served node_id w =
          ground
            (arith, lookup-map_values k (fail_if_served node_id) app.session_manager.sessions) in
        subst (λ x. served_by_node node_id x ≡ true → is_active x.state ≡ false) (sym was)
          (fail_if_served-closed node_id w) served
  ];
}

-- When a node's connection ends, each unit that it held waits in the queue again, with the attempts
-- it has used.
pub leave-requeues :
    (now node_id k : ℕ) (u : WorkUnit) (app : App)
    → Valid app.batch_store
    → lookup k app.batch_store.units ≡ some u
    → held_by node_id u ≡ true
    → let s = (leave now node_id app).batch_store in
      (lookup k s.units ≡ some (requeued u)) × (contains k s.pending ≡ true)
unfolding leave on_metrics on_store on_registry on_sessions release_node requeue_where reclaim
leave-requeues now node_id k u app v h t = (
  ground (arith, lookup-map_values k (reclaim (held_by node_id)) app.batch_store.units),
  ground (
    arith,
    contains-append k app.batch_store.pending (reclaimed (held_by node_id) app.batch_store.units),
    contains-reclaimed (held_by node_id) k u app.batch_store.units h t (v.stored k u h).key,
  ),
)
