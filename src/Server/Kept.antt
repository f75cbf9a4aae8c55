-- ===== src/Server/Kept.antt =====
-- A rule for what holds of the server whatever reaches it: it is enough that each of the effects
-- that the handlers are made of keeps it.
use fleet_lm.Base.{
  ℕ, String, Bool, Option, none, some, List, [], ◌∷◌, ltb, ◌==◌, Bool-cases, Option-cases, inl, inr,
  lookup, length,
}
use fleet_lm.Config.{Settings}
use fleet_lm.Metrics.{FleetMetrics}
use fleet_lm.Verification.{Primitives}
use fleet_lm.Batch.Data.{BatchStore, Request}
use fleet_lm.Batch.Valid.Defs.{Valid}
use fleet_lm.Batch.Valid.Reporting.{complete-IsValid, fail-IsValid}
use fleet_lm.Batch.Valid.Requeueing.{release_node-IsValid, expire_leases-IsValid}
use fleet_lm.Batch.Valid.Leasing.{lease-IsValid}
use fleet_lm.Batch.Valid.Cancelling.{cancel_batch-IsValid}
use fleet_lm.Batch.Valid.Submitting.{IsFresh, create_batch-IsValid}
use fleet_lm.Fleet.Registry.{NodeRegistry}
use fleet_lm.Session.Manager.{on_session, fail_sessions_for_node}
use fleet_lm.Session.Stream.{NodeCall, pushes, completes, fails, apply}
use fleet_lm.Server.App
use fleet_lm.Server.App.{App, awaiting, joined, closed, on_sessions}
use fleet_lm.Server.Messages.{
  NodeMessage, RegisterMessage, register, heartbeat, model_loaded, generate_chunk,
  generate_complete, generate_error, work_request, work_result, work_failed, error, unknown, Frame,
  text, malformed, bytes, disconnect, Reply,
}
use fleet_lm.Server.Handle.{
  Handled, handled, raises, capacity_of, model_of, result_of, field_or, assign, handle,
}
use fleet_lm.Server.Connection
use fleet_lm.Server.Connection.{
  leave, join, bad_token, turn_away, enter, first_message, first_frame, end_connection,
  after_message, next_frame, on_connection, receive,
}
use fleet_lm.Server.Batches.{refuse, accept, post_batch, post_cancel}
use fleet_lm.Batch.Cancel
use fleet_lm.Server.Serve.{
  Event, opens, receives, drops, reaps, posts, cancels, reaper_round, serve,
}

-- Each effect keeps `P`; a change of the store does so where it keeps the store's invariant.
pub record Keeps (P : App → Type 0) : Type 0 where
  pub on_metrics : (f : FleetMetrics → FleetMetrics) (app : App) → P app → P (App.on_metrics f app)
  pub on_registry :
      (f : NodeRegistry → NodeRegistry) (app : App) → P app → P (App.on_registry f app)
  pub store :
      (new : BatchStore) (app : App)
      → (Valid app.batch_store → Valid new)
      → P app
      → P (record app { batch_store = new })
  pub on_call :
      (session_id : Option ℕ) (c : NodeCall) (app : App)
      → P app
      → P (on_sessions (on_session session_id (apply c)) app)
  pub on_loss :
      (node_id : ℕ) (app : App) → P app → P (on_sessions (fail_sessions_for_node node_id) app)
  pub set_connection :
      (ws : ℕ) (c : App.Connection) (app : App) → P app → P (Connection.set_connection ws c app)

-- What an event wants of `uuid4`: new identifiers for a batch.
abbrev pub Allowed : Event → App → Type 0
Allowed (posts batch_id unit_id model requests) app = IsFresh batch_id unit_id app.batch_store
Allowed _ app = Unit {0}

module _ (P : App → Type 0) (keeps : Keeps P) where
  leave-Keeps : (now node_id : ℕ) (app : App) → P app → P (leave now node_id app)
  unfolding leave App.on_store on_sessions
  leave-Keeps now node_id app p = keeps.on_metrics _ _ (
      keeps.on_registry _ _ (
        keeps.store _ _ (release_node-IsValid node_id app.batch_store)
          (keeps.on_loss node_id app p)))

  module _ (lib : Primitives) (settings : Settings) (now node_id : ℕ) where
    assign-Keeps :
        (capacity : ℕ) (app : App) → P app → P (assign lib settings now node_id capacity app).app
    unfolding assign
    assign-Keeps capacity app p = elim (Bool-cases (capacity == 0)) [
      | inl e ↦ rw e p
      | inr e ↦ rw e (
          keeps.store _ app
            (lease-IsValid settings now node_id (model_of node_id app.registry) capacity
              app.batch_store)
            p)
    ]

    handle-Keeps :
        (msg : NodeMessage) (app : App) → P app → P (handle lib settings now node_id msg app).app
    unfolding handle handled raises result_of apply App.on_store
    handle-Keeps (heartbeat cpu gpu sessions) app p = keeps.on_registry _ app p
    handle-Keeps (model_loaded none) app p = p
    handle-Keeps (model_loaded (some model)) app p =
        keeps.on_metrics _ _ (keeps.on_registry _ app p)
    handle-Keeps (generate_chunk session_id t) app p =
        keeps.on_call session_id (pushes (field_or "" t)) app p
    handle-Keeps (generate_complete session_id finish_reason prompt completion) app p =
        keeps.on_call session_id
          (completes (field_or "stop" finish_reason) (field_or 0 prompt) (field_or 0 completion))
          app p
    handle-Keeps (generate_error session_id message) app p =
        keeps.on_call session_id (fails (field_or "node generation error" message)) app p
    handle-Keeps (work_request capacity) app p = assign-Keeps (capacity_of capacity) app p
    handle-Keeps (work_result msg) app p = elim (Option-cases msg.unit_id) [
      | inl e ↦ rw e p
      | inr (unit_id, e) ↦ rw e (
          keeps.store _ app
            (complete-IsValid lib now node_id (result_of unit_id msg) app.batch_store) p)
    ]
    handle-Keeps (work_failed none message) app p = p
    handle-Keeps (work_failed (some unit_id) message) app p =
        keeps.store _ app
          (fail-IsValid settings now node_id unit_id (field_or "node reported failure" message)
            app.batch_store)
          p
    handle-Keeps (error message) app p = p
    handle-Keeps (register msg) app p = p
    handle-Keeps unknown app p = p

    module _ (ws : ℕ) where
      end_connection-Keeps :
          (app : App) → P app → P (end_connection lib settings now ws node_id app)
      unfolding end_connection
      end_connection-Keeps app p = keeps.set_connection ws closed _ (leave-Keeps now node_id app p)

      after_message-Keeps :
          (h : Handled) → P h.app → P (after_message lib settings now ws node_id h).0
      unfolding after_message
      after_message-Keeps h p = elim (Bool-cases h.raised) [
        | inl e ↦ rw e (end_connection-Keeps h.app p)
        | inr e ↦ rw e p
      ]

      next_frame-Keeps :
          (frame : Frame) (app : App)
          → P app
          → P (next_frame lib settings now ws node_id frame app).0
      unfolding next_frame
      next_frame-Keeps (text msg) app p =
          after_message-Keeps (handle lib settings now node_id msg app) (handle-Keeps msg app p)
      next_frame-Keeps malformed app p = end_connection-Keeps app p
      next_frame-Keeps bytes app p = p
      next_frame-Keeps disconnect app p = end_connection-Keeps app p

  module _ (compare_digest : String → String → Bool) (settings : Settings) (now ws : ℕ) where
    turn_away-Keeps :
        (replies : List Reply) (app : App)
        → P app
        → P (turn_away compare_digest settings ws replies app).0
    unfolding turn_away
    turn_away-Keeps replies app p = keeps.set_connection ws closed app p

    enter-Keeps :
        (msg : RegisterMessage) (node_id : Option ℕ) (app : App)
        → P app
        → P (enter compare_digest settings now ws msg node_id app).0
    unfolding enter join
    enter-Keeps msg none app p = turn_away-Keeps [] app p
    enter-Keeps msg (some node_id) app p =
        keeps.set_connection ws (joined node_id) _
          (keeps.on_metrics _ _ (keeps.on_registry _ app p))

    register-Keeps :
        (msg : RegisterMessage) (app : App)
        → P app
        → P (first_message compare_digest settings now ws (register msg) app).0
    unfolding first_message
    register-Keeps msg app p = elim (Bool-cases (bad_token compare_digest settings msg)) [
      | inl e ↦ rw e (turn_away-Keeps _ app p)
      | inr e ↦ rw e (enter-Keeps msg msg.node_id app p)
    ]

    first_frame-Keeps :
        (frame : Frame) (app : App)
        → P app
        → P (first_frame compare_digest settings now ws frame app).0
    unfolding first_frame first_message
    first_frame-Keeps (text (register msg)) app p = register-Keeps msg app p
    first_frame-Keeps (text (heartbeat cpu gpu sessions)) app p = turn_away-Keeps _ app p
    first_frame-Keeps (text (model_loaded model)) app p = turn_away-Keeps _ app p
    first_frame-Keeps (text (generate_chunk session_id t)) app p = turn_away-Keeps _ app p
    first_frame-Keeps (text (generate_complete session_id reason prompt completion)) app p =
        turn_away-Keeps _ app p
    first_frame-Keeps (text (generate_error session_id message)) app p = turn_away-Keeps _ app p
    first_frame-Keeps (text (work_request capacity)) app p = turn_away-Keeps _ app p
    first_frame-Keeps (text (work_result msg)) app p = turn_away-Keeps _ app p
    first_frame-Keeps (text (work_failed unit_id message)) app p = turn_away-Keeps _ app p
    first_frame-Keeps (text (error message)) app p = turn_away-Keeps _ app p
    first_frame-Keeps (text unknown) app p = turn_away-Keeps _ app p
    first_frame-Keeps malformed app p = turn_away-Keeps [] app p
    first_frame-Keeps bytes app p = turn_away-Keeps [] app p
    first_frame-Keeps disconnect app p = turn_away-Keeps [] app p

  module _ (compare_digest : String → String → Bool) (lib : Primitives) (settings : Settings) where
    receive-Keeps :
        (now ws : ℕ) (frame : Frame) (c : Option App.Connection) (app : App)
        → P app
        → P (on_connection compare_digest lib settings now ws frame c app).0
    unfolding on_connection
    receive-Keeps now ws frame (some awaiting) app p =
        first_frame-Keeps compare_digest settings now ws frame app p
    receive-Keeps now ws frame (some (joined node_id)) app p =
        next_frame-Keeps lib settings now node_id ws frame app p
    receive-Keeps now ws frame (some closed) app p = p
    receive-Keeps now ws frame none app p = p

    post-Keeps :
        (now batch_id : ℕ) (unit_id : ℕ → ℕ) (model : Option String) (requests : List Request)
        (app : App)
        → IsFresh batch_id unit_id app.batch_store
        → P app
        → P (post_batch settings now batch_id unit_id model requests app).app
    unfolding post_batch accept refuse
    post-Keeps now batch_id unit_id model [] app a p = p
    post-Keeps now batch_id unit_id model (r ∷ rs) app a p =
        elim (Bool-cases (ltb settings.max_batch_requests (length (r ∷ rs)))) [
          | inl e ↦ rw e p
          | inr e ↦ rw e (
              keeps.store _ app
                (create_batch-IsValid now batch_id unit_id model (r ∷ rs) app.batch_store (λ q. cc)
                  a)
                p)
        ]

    cancel-Keeps : (batch_id : ℕ) (app : App) → P app → P (post_cancel batch_id app).1
    unfolding post_cancel
    cancel-Keeps batch_id app p =
        elim (Bool-cases (Cancel.cancel_batch batch_id app.batch_store).0) [
          | inl e ↦ rw e (keeps.store _ app (cancel_batch-IsValid batch_id app.batch_store) p)
          | inr e ↦ rw e p
        ]

    pub serve-Keeps :
        (e : ℕ × Event) (app : App)
        → Allowed e.1 app
        → P app
        → P (serve compare_digest lib settings e app)
    unfolding serve reaper_round receive App.on_store
    serve-Keeps (now, opens ws) app a p = keeps.set_connection ws awaiting app p
    serve-Keeps (now, receives ws frame) app a p =
        receive-Keeps now ws frame (lookup ws app.connections) app p
    serve-Keeps (now, drops node_id) app a p = keeps.on_registry _ app p
    serve-Keeps (now, reaps) app a p =
        keeps.store _ app (expire_leases-IsValid now app.batch_store) p
    serve-Keeps (now, posts batch_id unit_id model requests) app a p =
        post-Keeps now batch_id unit_id model requests app a p
    serve-Keeps (now, cancels batch_id) app a p = cancel-Keeps batch_id app p
