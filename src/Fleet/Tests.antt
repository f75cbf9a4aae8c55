-- ===== src/Fleet/Tests.antt =====
-- The theorems about the fleet at concrete registries, and runs of the registry's methods.
use mathlib.Core.Option
use fleet_lm.Base.{
  ℕ, false, inl, inr, arith, lookup-modify, Option-cases, none, some, ◌≡◌, refl, [], ◌∷◌, filter,
  truthy, same_text, contains, lookup, insert, modify, keys, non_empty,
}
use fleet_lm.Config.{default_settings}
use fleet_lm.Fleet.Registry.{
  ConnectedNode, NodeRegistry, registering, ready, new_registry, add, get_node, on_object, on_node,
  update_heartbeat, set_model_loaded, node_objects, eligible, get_ready_nodes, is_stale,
  served_models, count, ready_count,
}
use fleet_lm.Fleet.Router.{least_loaded, pick_from, pick_node}
use fleet_lm.Fleet.Heartbeat.{monitor_round}
use fleet_lm.Fleet.Ready.{PicksLeast, pick_node-PicksLeast, get_ready_nodes_lem}
use fleet_lm.Fleet.Sweep.{IsApart, get_node-monitor_round}
use fleet_lm.Batch.Machine.{is_some}

abbrev joining : ℕ → ℕ → ConnectedNode
joining node_id ws = record {
  node_id = node_id;
  ws = ws;
  gpu_name = "M2";
  gpu_vram_mb = 16_000;
  runtime = "native";
  model_id = none;
  status = registering;
  last_heartbeat = 1_000_000;
  cpu_usage = 0;
  gpu_usage = 0;
  active_sessions = 0;
}

-- The definitions that the runs compute.
unfoldable program : Unit {0}
unfolding new_registry add set_model_loaded update_heartbeat on_node on_object lookup insert modify
    pick_node pick_from least_loaded get_ready_nodes node_objects filter truthy non_empty same_text
    served_models count ready_count get_node is_stale keys contains
program = tt

-- Two nodes serve the model, one another, and one has joined only.
abbrev four_nodes : NodeRegistry
unfolding program
four_nodes = update_heartbeat 20_000_000 1 0 0 2 (
    update_heartbeat 20_000_000 2 0 0 1 (
      set_model_loaded 3 "phi" (
        set_model_loaded 2 "llama" (
          set_model_loaded 1 "llama" (
            add (joining 4 14)
              (add (joining 3 13) (add (joining 2 12) (add (joining 1 11) new_registry))))))))

pick_node-PicksLeast_example :
    PicksLeast
      (pick_node (some "llama") four_nodes)
      (filter (eligible (some "llama")) (node_objects four_nodes.nodes four_nodes.objects))
pick_node-PicksLeast_example = pick_node-PicksLeast (some "llama") four_nodes

picks_second : Option.map (λ n. n.node_id) (pick_node (some "llama") four_nodes) ≡ some 2
unfolding program four_nodes
picks_second = refl

serves_two : served_models four_nodes ≡ "llama" ∷ "phi" ∷ []
unfolding program four_nodes
serves_two = refl

get_ready_nodes_lem_example :
    get_ready_nodes (some "phi") four_nodes
    ≡ filter (eligible (some "phi")) (node_objects four_nodes.nodes four_nodes.objects)
get_ready_nodes_lem_example = get_ready_nodes_lem (some "phi") four_nodes

counts_four : count four_nodes ≡ 4
unfolding program four_nodes
counts_four = refl

counts_three_ready : ready_count four_nodes ≡ 3
unfolding program four_nodes
counts_three_ready = refl

-- While the monitor waits for a socket to close, node 3 sends a heartbeat.
abbrev meanwhile : ℕ → NodeRegistry → NodeRegistry
meanwhile j = update_heartbeat 30_000_000 3 10 10 0

-- What the heartbeat does to the node's object.
abbrev beats : ConnectedNode → ConnectedNode
beats n = record n {
  last_heartbeat = 30_000_000;
  cpu_usage = 10;
  gpu_usage = 10;
  active_sessions = 0;
}

meanwhile-IsApart : IsApart 3 false meanwhile
unfolding update_heartbeat on_node on_object get_node
meanwhile-IsApart = record {
  unique = λ j r c. elim (Option-cases (lookup 3 r.nodes)) [
    | inl e ↦ rw (e, on_node) c
    | inr (ws, e) ↦ rw (e, on_node) (record { unique = c.unique })
  ];
  joins = λ j r g. elim (Option-cases (lookup 3 r.nodes)) [
    | inl e ↦ ground arith
    | inr (ws, e) ↦ ground (arith, lookup-modify ws ws beats r.objects)
  ];
  leaves = λ j r s g. cc;
}

get_node-monitor_round_example :
    is_some (get_node 3 (monitor_round default_settings 30_000_000 meanwhile four_nodes)) ≡ false
unfolding program four_nodes
get_node-monitor_round_example =
    get_node-monitor_round default_settings 30_000_000 3
      (record (joining 3 13) { model_id = some "phi"; status = ready }) meanwhile four_nodes
      (record { unique = (refl, (refl, (refl, (refl, tt)))) }) refl meanwhile-IsApart
