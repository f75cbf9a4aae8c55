-- ===== src/Server/Serve.antt =====
-- The server as a whole: what reaches it from outside, one event at a time, as the event loop
-- serialises it, and the two background tasks of orchestrator/main.py.
use fleet_lm.Base.{ℕ, String, Bool, Option, List, [], ◌∷◌}
use fleet_lm.Config.{Settings}
use fleet_lm.Verification.{Primitives}
use fleet_lm.Batch.Data.{Request}
use fleet_lm.Batch.Requeue.{expire_leases}
use fleet_lm.Fleet.Registry.{remove}
use fleet_lm.Server.App.{App, awaiting, on_registry, on_store}
use fleet_lm.Server.Messages.{Frame}
use fleet_lm.Server.Connection.{set_connection, receive}
use fleet_lm.Server.Batches.{post_batch, post_cancel}

-- One round of `lease_reaper`.
unfoldable pub reaper_round : ℕ → App → App
reaper_round now = on_store λ s. (expire_leases now s).1

-- `heartbeat_monitor` awaits the close of a socket before each removal, so that a removal is an event
-- of its own; whom it names is left open here, and Fleet/Sweep says whom a round names.
pub data Event : Type 0 where
  opens : (ws : ℕ) → Event
  receives : (ws : ℕ) (frame : Frame) → Event
  drops : (node_id : ℕ) → Event
  reaps : Event
  posts : (batch_id : ℕ) (unit_id : ℕ → ℕ) (model : Option String) (requests : List Request) → Event
  cancels : (batch_id : ℕ) → Event

module _ (compare_digest : String → String → Bool) (lib : Primitives) (settings : Settings) where
  unfoldable pub serve : ℕ × Event → App → App
  serve (now, opens ws) app = set_connection ws awaiting app
  serve (now, receives ws frame) app = (receive compare_digest lib settings now ws frame app).0
  serve (now, drops node_id) app = on_registry (remove node_id) app
  serve (now, reaps) app = reaper_round now app
  serve (now, posts batch_id unit_id model requests) app =
      (post_batch settings now batch_id unit_id model requests app).app
  serve (now, cancels batch_id) app = (post_cancel batch_id app).1

  unfoldable pub serve_all : List (ℕ × Event) → App → App
  serve_all [] app = app
  serve_all (e ∷ es) app = serve_all es (serve e app)
