-- ===== src/Server/App.antt =====
-- orchestrator/main.py: what `lifespan` puts into `app.state`, and the connections that are open. The
-- store's metrics and verifier are the objects that `app.state` holds.
use mathlib.Core.Option
use fleet_lm.Base.{ℕ, Option, none, some, List, [], ◌∷◌, if◌then◌else◌, non_empty, Dict}
use fleet_lm.Config.{Settings}
use fleet_lm.Metrics.{FleetMetrics, fresh_metrics}
use fleet_lm.Verification.{Canary, Verifier, new_verifier}
use fleet_lm.Batch.Data.{BatchStore, new_store}
use fleet_lm.Fleet.Registry.{NodeRegistry, new_registry}
use fleet_lm.Session.Manager.{SessionManager}

-- How far the handler of a connection has come: it waits for the registration, serves a node, or
-- has left its loop.
pub data Connection : Type 0 where
  awaiting : Connection
  joined : ℕ → Connection
  closed : Connection

pub record App : Type 0 where
  pub registry : NodeRegistry
  pub session_manager : SessionManager
  pub batch_store : BatchStore
  pub connections : Dict Connection

-- The tests behind the reading of the file: `none` is a file that could not be read as canaries.
unfoldable pub verifier_of : Settings → Option (List Canary) → Option Verifier
verifier_of settings none = none
verifier_of settings (some []) = none
verifier_of settings (some (c ∷ cs)) =
    some (new_verifier (c ∷ cs) settings.canary_rate settings.canary_agreement_threshold)

unfoldable pub build_verifier : Settings → Option (List Canary) → Option Verifier
unfolding verifier_of
build_verifier settings loaded =
    if non_empty settings.canary_file then verifier_of settings loaded else none

unfoldable pub start_app : Settings → ℕ → Option (List Canary) → App
start_app settings now loaded = record {
  registry = new_registry;
  session_manager = record { sessions = [] };
  batch_store = new_store (some (fresh_metrics now)) (build_verifier settings loaded);
  connections = [];
}

-- A call on `app.state.metrics`.
unfoldable pub on_metrics : (FleetMetrics → FleetMetrics) → App → App
on_metrics f app = record app {
  batch_store = record app.batch_store { metrics = Option.map f app.batch_store.metrics };
}

unfoldable pub on_store : (BatchStore → BatchStore) → App → App
on_store f app = record app { batch_store = f app.batch_store }

unfoldable pub on_registry : (NodeRegistry → NodeRegistry) → App → App
on_registry f app = record app { registry = f app.registry }

unfoldable pub on_sessions : (SessionManager → SessionManager) → App → App
on_sessions f app = record app { session_manager = f app.session_manager }
