-- ===== src/Fleet/Router.antt =====
-- orchestrator/fleet/router.py: the least-loaded node for an interactive request.
use fleet_lm.Base.{String, Option, none, some, List, [], ◌∷◌, ltb, if◌then◌else◌}
use fleet_lm.Fleet.Registry.{ConnectedNode, NodeRegistry, get_ready_nodes}

-- `min(candidates, key=active_sessions)`: the first of the least loaded.
unfoldable pub least_loaded : ConnectedNode → List ConnectedNode → ConnectedNode
least_loaded best [] = best
least_loaded best (n ∷ ns) =
    least_loaded (if ltb n.active_sessions best.active_sessions then n else best) ns

unfoldable pub pick_from : List ConnectedNode → Option ConnectedNode
pick_from [] = none
pick_from (n ∷ ns) = some (least_loaded n ns)

unfoldable pub pick_node : Option String → NodeRegistry → Option ConnectedNode
pick_node model r = pick_from (get_ready_nodes model r)
