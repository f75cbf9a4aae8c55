-- ===== src/Fleet/Registry.antt =====
-- orchestrator/fleet/registry.py. Each connection makes one `ConnectedNode` object, which the
-- registry, the router's callers and the connection's handler share: `objects` holds it under the
-- connection's number, and `nodes` maps a node's identifier to that number.
use Prim.Native.Nat.{Ordering}
use Prim.Native.String.{compare}
use fleet_lm.Base.{
  ℕ, ◌*◌, ◌-◌, String, Bool, true, false, Option, none, some, List, [], ◌∷◌, ltb, ◌==◌,
  if◌then◌else◌, truthy, same_text, Dict, lookup, insert, erase, modify, length, filter, map,
  round_div,
}
use fleet_lm.Config.{Settings, second}

pub data NodeStatus : Type 0 where
  registering ready offline : NodeStatus

abbrev pub is_ready : NodeStatus → Bool
is_ready ready = true
is_ready _ = false

pub record ConnectedNode : Type 0 where
  pub node_id : ℕ
  pub ws : ℕ
  pub gpu_name : String
  pub gpu_vram_mb : ℕ
  pub runtime : String
  pub model_id : Option String
  pub status : NodeStatus
  pub last_heartbeat : ℕ
  pub cpu_usage : ℕ
  pub gpu_usage : ℕ
  pub active_sessions : ℕ

pub record NodeRegistry : Type 0 where
  pub nodes : Dict ℕ
  pub objects : Dict ConnectedNode

unfoldable pub new_registry : NodeRegistry
new_registry = record { nodes = []; objects = [] }

unfoldable pub add : ConnectedNode → NodeRegistry → NodeRegistry
add node r = record {
  nodes = insert node.node_id node.ws r.nodes;
  objects = insert node.ws node r.objects;
}

unfoldable pub remove : ℕ → NodeRegistry → NodeRegistry
remove node_id r = record r { nodes = erase node_id r.nodes }

unfoldable pub get_node : ℕ → NodeRegistry → Option ConnectedNode
get_node node_id r = elim (lookup node_id r.nodes) [ none ↦ none | some ws ↦ lookup ws r.objects ]

-- A change of the object behind a connection.
unfoldable pub on_object : ℕ → (ConnectedNode → ConnectedNode) → NodeRegistry → NodeRegistry
on_object ws f r = record r { objects = modify ws f r.objects }

-- A change of the object registered for a node, if there is one.
unfoldable pub on_node : ℕ → (ConnectedNode → ConnectedNode) → NodeRegistry → NodeRegistry
unfolding on_object
on_node node_id f r = elim (lookup node_id r.nodes) [ none ↦ r | some ws ↦ on_object ws f r ]

unfoldable pub update_heartbeat : ℕ → ℕ → ℕ → ℕ → ℕ → NodeRegistry → NodeRegistry
unfolding on_node
update_heartbeat now node_id cpu gpu sessions = on_node node_id λ n. record n {
  last_heartbeat = now;
  cpu_usage = cpu;
  gpu_usage = gpu;
  active_sessions = sessions;
}

unfoldable pub set_model_loaded : ℕ → String → NodeRegistry → NodeRegistry
unfolding on_node
set_model_loaded node_id model =
    on_node node_id λ n. record n { model_id = some model; status = ready }

-- `nodes.values()`, as objects.
unfoldable pub node_objects : Dict ℕ → Dict ConnectedNode → List ConnectedNode
node_objects [] objects = []
node_objects ((k, ws) ∷ nodes) objects =
    let rest = node_objects nodes objects in
    elim (lookup ws objects) [ none ↦ rest | some n ↦ n ∷ rest ]

-- The test that `get_ready_nodes` makes of a node.
unfoldable pub eligible : Option String → ConnectedNode → Bool
eligible model n =
    if is_ready n.status then if truthy model then same_text n.model_id model else true else false

unfoldable pub get_ready_nodes : Option String → NodeRegistry → List ConnectedNode
get_ready_nodes model r =
    let ready_nodes = filter (λ n. is_ready n.status) (node_objects r.nodes r.objects) in
    if truthy model then filter (λ n. same_text n.model_id model) ready_nodes else ready_nodes

-- `now - node.last_heartbeat > timeout`
unfoldable pub is_stale : ℕ → ℕ → ConnectedNode → Bool
is_stale now timeout n = ltb (second * timeout) (now - n.last_heartbeat)

-- `timeout or settings.heartbeat_timeout_sec`
unfoldable pub timeout_or : Settings → Option ℕ → ℕ
timeout_or settings none = settings.heartbeat_timeout_sec
timeout_or settings (some t) = if t == 0 then settings.heartbeat_timeout_sec else t

unfoldable pub stale_ids : ℕ → ℕ → Dict ℕ → Dict ConnectedNode → List ℕ
stale_ids now timeout [] objects = []
stale_ids now timeout ((k, ws) ∷ nodes) objects =
    let rest = stale_ids now timeout nodes objects in
    elim (lookup ws objects) [
      | none ↦ rest
      | some n ↦ if is_stale now timeout n then k ∷ rest else rest
    ]

unfoldable pub get_stale_nodes : Settings → ℕ → Option ℕ → NodeRegistry → List ℕ
get_stale_nodes settings now timeout r =
    stale_ids now (timeout_or settings timeout) r.nodes r.objects

-- Puts a text into a sorted list without doubles.
add_model : String → List String → List String
add_model m [] = m ∷ []
add_model m (x ∷ xs) = elim (compare m x) [
  | Ordering.lt ↦ m ∷ x ∷ xs
  | Ordering.eq ↦ x ∷ xs
  | Ordering.gt ↦ x ∷ add_model m xs
]

models_of : List ConnectedNode → List String
unfolding add_model
models_of [] = []
models_of (n ∷ ns) =
    let rest = models_of ns in
    elim n.model_id [ none ↦ rest | some m ↦ if truthy (some m) then add_model m rest else rest ]

-- `sorted({...})`
unfoldable pub served_models : NodeRegistry → List String
unfolding models_of
served_models r = models_of (get_ready_nodes none r)

unfoldable pub count : NodeRegistry → ℕ
count r = length r.nodes

unfoldable pub ready_count : NodeRegistry → ℕ
ready_count r = length (get_ready_nodes none r)

-- Usage in tenths, rounded.
pub record NodeSummary : Type 0 where
  pub id : ℕ
  pub gpu : String
  pub vram_mb : ℕ
  pub runtime : String
  pub model : Option String
  pub status : NodeStatus
  pub cpu : ℕ
  pub gpu_usage : ℕ
  pub active : ℕ

pub record RegistrySummary : Type 0 where
  pub total_nodes : ℕ
  pub ready_nodes : ℕ
  pub nodes : List NodeSummary

summarise : ConnectedNode → NodeSummary
summarise n = record {
  id = n.node_id;
  gpu = n.gpu_name;
  vram_mb = n.gpu_vram_mb;
  runtime = n.runtime;
  model = n.model_id;
  status = n.status;
  cpu = round_div n.cpu_usage 100_000;
  gpu_usage = round_div n.gpu_usage 100_000;
  active = n.active_sessions;
}

unfoldable pub registry_summary : NodeRegistry → RegistrySummary
unfolding summarise
registry_summary r = record {
  total_nodes = count r;
  ready_nodes = ready_count r;
  nodes = map summarise (node_objects r.nodes r.objects);
}
