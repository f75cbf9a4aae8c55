-- ===== src/Server/Views.antt =====
-- orchestrator/main.py: the routes that only look at the state.
use mathlib.Core.Option
use fleet_lm.Base.{ℕ, Option}
use fleet_lm.Metrics.Report.{FleetSnapshot, fleet_snapshot}
use fleet_lm.Verification.Report.{VerifierSnapshot, verifier_snapshot}
use fleet_lm.Batch.Status.{StoreSummary}
use fleet_lm.Batch.Status
use fleet_lm.Fleet.Registry.{RegistrySummary, registry_summary}
use fleet_lm.Session.Manager.{active_count}
use fleet_lm.Server.App.{App}

pub record Health : Type 0 where
  pub nodes : RegistrySummary
  pub active_sessions : ℕ
  pub batches : StoreSummary

-- `GET /health`
unfoldable pub health : App → Health
health app = record {
  nodes = registry_summary app.registry;
  active_sessions = active_count app.session_manager;
  batches = Status.summary app.batch_store;
}

-- `GET /metrics`
unfoldable pub get_metrics : ℕ → App → Option FleetSnapshot
get_metrics now app = Option.map (fleet_snapshot now) app.batch_store.metrics

-- `GET /verification`: `none` is a server without canaries.
unfoldable pub get_verification : App → Option VerifierSnapshot
get_verification app = Option.map verifier_snapshot app.batch_store.verifier
