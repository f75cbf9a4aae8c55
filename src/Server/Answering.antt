-- ===== src/Server/Answering.antt =====
-- What an interactive request meets, and what it leaves.
use mathlib.Core.Option
use fleet_lm.Base.{
  In, ℕ, String, Bool, true, false, Option, none, some, ◌≡◌, refl, ap, List, [], ◌==◌, Bool-cases,
  inl, inr, arith, All, Distinct, filter, lookup, insert, modify, keys, lookup-insert, lookup-erase,
  lookup-modify, insert-Distinct, lookup-insert_same,
}
use fleet_lm.Fleet.Registry.{ConnectedNode, on_object, eligible, node_objects}
use fleet_lm.Fleet.Router.{pick_node}
use fleet_lm.Fleet.Ready.{NoMoreThan, PicksLeast, pick_node-PicksLeast}
use fleet_lm.Session.Data.{InferenceSession}
use fleet_lm.Session.Manager.{get, create}
use fleet_lm.Session.Manager
use fleet_lm.Server.App.{App, on_registry, on_sessions}
use fleet_lm.Server.Completions.{
  ChatCompletionRequest, Dispatched, refuses, starts, one_more, one_less, forget, dispatch,
  dispatch_to, chat_completions,
}

-- The server as requests can tell: its nodes and its sessions.
pub record LooksLike (app app' : App) : Type 0 where
  pub nodes : app'.registry.nodes ≡ app.registry.nodes
  pub objects : (ws : ℕ) → lookup ws app'.registry.objects ≡ lookup ws app.registry.objects
  pub sessions : (k : ℕ) → get k app'.session_manager ≡ get k app.session_manager

one_less-one_more : (n : ConnectedNode) → one_less (one_more n) ≡ n
unfolding one_less one_more
one_less-one_more n = ap (λ a. record n { active_sessions = a }) (omega arith)

map-one_less : (o : Option ConnectedNode) → Option.map one_less (Option.map one_more o) ≡ o
map-one_less none = refl
map-one_less (some n) = ap some (one_less-one_more n)

-- A session that has just begun and is forgotten leaves no trace.
forget-create :
    (s : InferenceSession) (ws : ℕ) (app : App)
    → Distinct (keys app.session_manager.sessions)
    → get s.id app.session_manager ≡ none
    → LooksLike app
        (forget s.id ws (on_registry (on_object ws one_more) (on_sessions (create s) app)))
unfolding forget on_registry on_object on_sessions create Manager.remove get
forget-create s ws app u fresh = record {
  nodes = refl;
  objects = λ w. elim (Bool-cases (w == ws)) [
    | inl e ↦
        rw
          (
            lookup-modify w ws one_less (modify ws one_more app.registry.objects),
            lookup-modify w ws one_more app.registry.objects,
            e,
          )
          (map-one_less (lookup w app.registry.objects))
    | inr e ↦ ground (
      arith,
      lookup-modify w ws one_less (modify ws one_more app.registry.objects),
      lookup-modify w ws one_more app.registry.objects,
    )
  ];
  sessions = λ k. ground (
    arith,
    lookup-erase k s.id (insert s.id s app.session_manager.sessions)
        (insert-Distinct s.id s app.session_manager.sessions u),
    lookup-insert k s.id s app.session_manager.sessions,
  );
}

LooksLike-refl : (app : App) → LooksLike app app
LooksLike-refl app = record { nodes = refl; objects = λ ws. refl; sessions = λ k. refl }

-- The nodes on offer for a model.
abbrev pub on_offer : Option String → App → List ConnectedNode
on_offer model app = filter (eligible model) (node_objects app.registry.nodes app.registry.objects)

-- What a dispatch owes. An error answer changes nothing that a request can tell, and is a 503
-- only if no node is on offer. A session is stored, and names a node with the fewest sessions among
-- those on offer.
abbrev pub IsServed : ℕ → ChatCompletionRequest → App → Dispatched → Type 0
IsServed session_id req app (refuses status why app') =
    LooksLike app app' × (status ≡ 503 → on_offer req.model app ≡ [])
IsServed session_id req app (starts s ws app') =
    (get session_id app'.session_manager ≡ some s)
    × ((n : ConnectedNode) × In n (on_offer req.model app)
        × All (NoMoreThan n) (on_offer req.model app)
        × (s.node_id ≡ some n.node_id)
        × (ws ≡ n.ws))

module _ (session_id : ℕ) (req : ChatCompletionRequest) (app : App)
    (unique : Distinct (keys app.session_manager.sessions))
    (fresh : get session_id app.session_manager ≡ none) where
  dispatch-IsServed :
      (sent : Bool) (n : ConnectedNode)
      → PicksLeast (some n) (on_offer req.model app)
      → IsServed session_id req app (dispatch session_id req sent n app)
  unfolding dispatch on_registry on_sessions create get
  dispatch-IsServed true n p =
      (lookup-insert_same session_id _ app.session_manager.sessions, (n, p.0, p.1, refl, refl))
  dispatch-IsServed false n p = (forget-create _ n.ws app unique fresh, λ q. ground arith)

  dispatch_to-IsServed :
      (sent : Bool) (o : Option ConnectedNode)
      → PicksLeast o (on_offer req.model app)
      → IsServed session_id req app (dispatch_to session_id req sent o app)
  unfolding dispatch_to
  dispatch_to-IsServed sent none p = (LooksLike-refl app, λ _. p)
  dispatch_to-IsServed sent (some n) p = dispatch-IsServed sent n p

  -- Where `uuid4` draws a new identifier for the session, a chat completion is either refused, and
  -- then the nodes, their loads and the sessions are as before, with a 503 only if no node that is
  -- ready serves the model; or it starts a session, which is stored, at a node with the fewest
  -- sessions among those that are ready and serve the model.
  pub chat_completions-IsServed :
      (sent : Bool) → IsServed session_id req app (chat_completions session_id req sent app)
  unfolding chat_completions
  chat_completions-IsServed sent =
      dispatch_to-IsServed sent (pick_node req.model app.registry)
        (pick_node-PicksLeast req.model app.registry)
