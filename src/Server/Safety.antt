-- ===== src/Server/Safety.antt =====
-- The invariant of the batch store, over everything that can reach the server.
use fleet_lm.Base.{ℕ, String, Bool, Option, List, [], ◌∷◌}
use fleet_lm.Config.{Settings}
use fleet_lm.Verification.{Primitives, Canary}
use fleet_lm.Batch.Valid.Defs.{Valid}
use fleet_lm.Batch.History.{new_store-IsValid}
use fleet_lm.Server.App.{App, start_app, on_metrics, on_registry, on_sessions}
use fleet_lm.Server.Connection.{set_connection}
use fleet_lm.Server.Serve.{Event, serve, serve_all}
use fleet_lm.Server.Kept.{Keeps, Allowed, serve-Keeps}

abbrev pub Sound : App → Type 0
Sound app = Valid app.batch_store

pub keeps_Sound : Keeps Sound
unfolding on_metrics on_registry on_sessions set_connection
keeps_Sound = record {
  on_metrics = λ f app v. v;
  on_registry = λ f app v. v;
  store = λ new app h v. h v;
  on_call = λ session_id c app v. v;
  on_loss = λ node_id app v. v;
  set_connection = λ ws c app v. v;
}

module _ (compare_digest : String → String → Bool) (lib : Primitives) (settings : Settings) where
  abbrev pub AllAllowed : List (ℕ × Event) → App → Type 0
  AllAllowed [] app = Unit {0}
  AllAllowed (e ∷ es) app =
      Allowed e.1 app × AllAllowed es (serve compare_digest lib settings e app)

  serve_all-Sound_from :
      (es : List (ℕ × Event)) (app : App)
      → AllAllowed es app
      → Sound app
      → Sound (serve_all compare_digest lib settings es app)
  unfolding serve_all
  serve_all-Sound_from [] app a v = v
  serve_all-Sound_from (e ∷ es) app a v =
      serve_all-Sound_from es (serve compare_digest lib settings e app) a.1
        (serve-Keeps Sound keeps_Sound compare_digest lib settings e app a.0 v)

  -- From its start, whatever messages, disconnects, submissions, cancellations and background
  -- rounds reach the server in whatever order, its batch store keeps the invariant, provided that
  -- `uuid4` draws new identifiers.
  pub serve_all-Sound :
      (es : List (ℕ × Event)) (now : ℕ) (loaded : Option (List Canary))
      → AllAllowed es (start_app settings now loaded)
      → Sound (serve_all compare_digest lib settings es (start_app settings now loaded))
  unfolding start_app
  serve_all-Sound es now loaded a =
      serve_all-Sound_from es (start_app settings now loaded) a (new_store-IsValid _ _)
