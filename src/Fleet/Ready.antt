-- ===== src/Fleet/Ready.antt =====
-- Which nodes `get_ready_nodes` and `pick_node` offer.
use fleet_lm.Base.{
  ◌≤◌, String, Bool, true, false, Option, none, some, ◌≡◌, refl, List, [], ◌∷◌, arith, ltb,
  if◌then◌else◌, truthy, filter, All, In, here, there, Bool-cases, inl, inr,
}
use fleet_lm.Fleet.Registry.{ConnectedNode, NodeRegistry, eligible, node_objects, get_ready_nodes}
use fleet_lm.Fleet.Router.{least_loaded, pick_from, pick_node}

filter_twice {ℓ} :
    {A : Type ℓ} (p q both : A → Bool) (xs : List A)
    → ((a : A) → both a ≡ (if p a then q a else false))
    → filter q (filter p xs) ≡ filter both xs
unfolding filter
filter_twice p q both [] h = refl
filter_twice p q both (x ∷ xs) h = ground (arith, h x, filter_twice p q both xs h)

filter_ext {ℓ} :
    {A : Type ℓ} (p q : A → Bool) (xs : List A) → ((a : A) → p a ≡ q a) → filter p xs ≡ filter q xs
unfolding filter
filter_ext p q [] h = refl
filter_ext p q (x ∷ xs) h = ground (arith, h x, filter_ext p q xs h)

-- `get_ready_nodes` keeps exactly the registered nodes that are ready and, where a model is named,
-- serve that model: there is no fallback to another model.
pub get_ready_nodes_lem :
    (model : Option String) (r : NodeRegistry)
    → get_ready_nodes model r ≡ filter (eligible model) (node_objects r.nodes r.objects)
unfolding get_ready_nodes eligible
get_ready_nodes_lem model r = elim (Bool-cases (truthy model)) [
  | inl e ↦ rw e (filter_twice _ _ _ (node_objects r.nodes r.objects) (λ n. rw e refl))
  | inr e ↦ rw e (filter_ext _ _ (node_objects r.nodes r.objects) (λ n. rw e (ground arith)))
]

abbrev pub NoMoreThan : ConnectedNode → ConnectedNode → Type 0
NoMoreThan n m = n.active_sessions ≤ m.active_sessions

In-mono : (n m k : ConnectedNode) (ns : List ConnectedNode) → In n (m ∷ ns) → In n (m ∷ k ∷ ns)
In-mono n m k ns here = here
In-mono n m k ns (there p) = there (there p)

-- `least_loaded best ns` is one of the nodes it chose from, and no other has fewer sessions.
abbrev IsLeast : ConnectedNode → ConnectedNode → List ConnectedNode → Type 0
IsLeast n best ns = In n (best ∷ ns) × All (NoMoreThan n) (best ∷ ns)

chosen-IsLeast :
    (n best : ConnectedNode) (ns : List ConnectedNode) (b : Bool)
    → ltb n.active_sessions best.active_sessions ≡ b
    → IsLeast (least_loaded n ns) n ns
    → IsLeast (least_loaded best ns) best ns
    → IsLeast (least_loaded (if b then n else best) ns) best (n ∷ ns)
chosen-IsLeast n best ns true e (p, a) h = (there p, (ground (arith, a.0), a))
chosen-IsLeast n best ns false e h (p, a) =
    (In-mono (least_loaded best ns) best n ns p, (a.0, (ground (arith, a.0), a.1)))

least_loaded-IsLeast :
    (best : ConnectedNode) (ns : List ConnectedNode) → IsLeast (least_loaded best ns) best ns
unfolding least_loaded
least_loaded-IsLeast best [] = (here, (omega arith, tt))
least_loaded-IsLeast best (n ∷ ns) =
    chosen-IsLeast n best ns (ltb n.active_sessions best.active_sessions) refl
      (least_loaded-IsLeast n ns) (least_loaded-IsLeast best ns)

-- What the router owes: nothing only where nothing is on offer, and else a least-loaded node.
abbrev pub PicksLeast : Option ConnectedNode → List ConnectedNode → Type 0
PicksLeast none ns = ns ≡ []
PicksLeast (some n) ns = In n ns × All (NoMoreThan n) ns

pick_from-PicksLeast : (ns : List ConnectedNode) → PicksLeast (pick_from ns) ns
unfolding pick_from
pick_from-PicksLeast [] = refl
pick_from-PicksLeast (n ∷ ns) = least_loaded-IsLeast n ns

-- The router picks, among the registered nodes that are ready and serve the model named, one with
-- the fewest active sessions, and picks none only if there is no such node.
pub pick_node-PicksLeast :
    (model : Option String) (r : NodeRegistry)
    → PicksLeast (pick_node model r) (filter (eligible model) (node_objects r.nodes r.objects))
unfolding pick_node
pick_node-PicksLeast model r =
    rw (← get_ready_nodes_lem model r) (pick_from-PicksLeast (get_ready_nodes model r))
