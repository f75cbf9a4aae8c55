-- ===== src/Fleet/Heartbeat.antt =====
-- orchestrator/fleet/heartbeat.py: one round of the monitor, with what other tasks do while it waits.
use fleet_lm.Base.{ℕ, ◌/◌, none, some, List, [], ◌∷◌, ◌==◌, if◌then◌else◌}
use fleet_lm.Config.{Settings}
use fleet_lm.Fleet.Registry.{NodeRegistry, remove, get_node, get_stale_nodes}

-- `settings.heartbeat_timeout_sec // 2 or 5`, in seconds.
unfoldable pub monitor_interval : Settings → ℕ
monitor_interval settings =
    let half = settings.heartbeat_timeout_sec / 2 in if half == 0 then 5 else half

-- The loop over the stale identifiers. The close of a node's socket is awaited before the node is
-- removed: `meanwhile node_id` is what the other tasks do to the registry in this time.
unfoldable pub evict : (ℕ → NodeRegistry → NodeRegistry) → List ℕ → NodeRegistry → NodeRegistry
evict meanwhile [] r = r
evict meanwhile (node_id ∷ stale) r =
    evict meanwhile stale
      (elim (get_node node_id r) [ none ↦ r | some _ ↦ remove node_id (meanwhile node_id r) ])

unfoldable pub monitor_round :
    Settings → ℕ → (ℕ → NodeRegistry → NodeRegistry) → NodeRegistry → NodeRegistry
monitor_round settings now meanwhile r = evict meanwhile (get_stale_nodes settings now none r) r
