-- ===== src/Fleet/Sweep.antt =====
-- What a round of the heartbeat monitor does to the registry.
use fleet_lm.Base.{
  ℕ, Bool, true, false, not, ◌∙◌, none, some, ◌≡◌, refl, List, [], ◌∷◌, arith, ◌==◌, if◌then◌else◌,
  Bool-cases, Option-cases, contains, Distinct, inl, inr, Dict, lookup, keys, lookup-erase,
  erase-Distinct,
}
use fleet_lm.Config.{Settings}
use fleet_lm.Batch.Machine.{is_some}
use fleet_lm.Fleet.Registry.{
  ConnectedNode, NodeRegistry, remove, get_node, is_stale, timeout_or, stale_ids, get_stale_nodes,
}
use fleet_lm.Fleet.Heartbeat.{evict, monitor_round}

-- Each registered node has an object, and no identifier is registered twice.
pub record IsConsistent (r : NodeRegistry) : Type 0 where
  pub unique : Distinct (keys r.nodes)

pub get_node-remove :
    (k j : ℕ) (r : NodeRegistry)
    → IsConsistent r
    → get_node k (remove j r) ≡ (if k == j then none else get_node k r)
unfolding get_node remove
get_node-remove k j r c = ground (arith, lookup-erase k j r.nodes c.unique)

remove-IsConsistent : (j : ℕ) (r : NodeRegistry) → IsConsistent r → IsConsistent (remove j r)
unfolding remove
remove-IsConsistent j r c = record { unique = erase-Distinct j r.nodes c.unique }

-- What other tasks do while sockets are closed: they name no node twice, they do not register the
-- node `k` anew, and where `stays` they do not unregister it.
pub record IsApart (k : ℕ) (stays : Bool) (meanwhile : ℕ → NodeRegistry → NodeRegistry)
    : Type 0 where
  pub unique : (j : ℕ) (r : NodeRegistry) → IsConsistent r → IsConsistent (meanwhile j r)
  pub joins : (j : ℕ) (r : NodeRegistry) → get_node k r ≡ none → get_node k (meanwhile j r) ≡ none
  pub leaves :
      (j : ℕ) (r : NodeRegistry)
      → stays ≡ true
      → is_some (get_node k r) ≡ true
      → is_some (get_node k (meanwhile j r)) ≡ true

module _ (k : ℕ) (meanwhile : ℕ → NodeRegistry → NodeRegistry) (stays : Bool)
    (apart : IsApart k stays meanwhile) where
  absent-evict :
      (stale : List ℕ) (r : NodeRegistry)
      → IsConsistent r
      → get_node k r ≡ none
      → get_node k (evict meanwhile stale r) ≡ none
  unfolding evict
  absent-evict [] r c g = g
  absent-evict (j ∷ stale) r c g = elim (Option-cases (get_node j r)) [
    | inl e ↦ rw (e, evict) (absent-evict stale r c g)
    | inr (n, e) ↦
        let c' = apart.unique j r c in
        rw (e, evict)
          (absent-evict stale (remove j (meanwhile j r)) (remove-IsConsistent j (meanwhile j r) c')
            (ground (arith, get_node-remove k j (meanwhile j r) c', apart.joins j r g)))
  ]

  evicted :
      (stale : List ℕ) (r : NodeRegistry)
      → IsConsistent r
      → contains k stale ≡ true
      → get_node k (evict meanwhile stale r) ≡ none
  unfolding evict contains
  evicted [] r c h = cc
  evicted (j ∷ stale) r c h = elim (Option-cases (get_node j r)) [
    | inl e ↦
        rw (e, evict)
          (elim (Bool-cases (k == j)) [
            | inl at ↦ let same : k ≡ j = ground arith in absent-evict stale r c (ground arith)
            | inr off ↦ evicted stale r c (ground arith)
          ])
    | inr (n, e) ↦
        let c' = apart.unique j r c in
        let gone = get_node-remove k j (meanwhile j r) c' in
        let c'' = remove-IsConsistent j (meanwhile j r) c' in
        rw (e, evict)
          (elim (Bool-cases (k == j)) [
            | inl at ↦ absent-evict stale (remove j (meanwhile j r)) c'' (ground arith)
            | inr off ↦ evicted stale (remove j (meanwhile j r)) c'' (ground arith)
          ])
  ]

  spared :
      (stale : List ℕ) (r : NodeRegistry)
      → IsConsistent r
      → stays ≡ true
      → contains k stale ≡ false
      → is_some (get_node k r) ≡ true
      → is_some (get_node k (evict meanwhile stale r)) ≡ true
  unfolding evict contains
  spared [] r c s h g = g
  spared (j ∷ stale) r c s h g = elim (Option-cases (get_node j r)) [
    | inl e ↦ rw (e, evict) (spared stale r c s (ground arith) g)
    | inr (n, e) ↦
        let c' = apart.unique j r c in
        let here = apart.leaves j r s g in
        rw (e, evict)
          (spared stale (remove j (meanwhile j r)) (remove-IsConsistent j (meanwhile j r) c') s
            (ground arith) (ground (arith, get_node-remove k j (meanwhile j r) c')))
  ]

unlisted-stale_ids :
    (now timeout k : ℕ) (nodes : Dict ℕ) (objects : Dict ConnectedNode)
    → contains k (keys nodes) ≡ false
    → contains k (stale_ids now timeout nodes objects) ≡ false
unfolding stale_ids keys contains
unlisted-stale_ids now timeout k [] objects c = refl
unlisted-stale_ids now timeout k ((j, v) ∷ nodes) objects c =
    let below = unlisted-stale_ids now timeout k nodes objects in
    elim (Option-cases (lookup v objects)) [
      | inl e ↦ ground (arith, below)
      | inr (m, e) ↦ ground (arith, below)
    ]

contains-stale_ids :
    (now timeout k ws : ℕ) (n : ConnectedNode) (nodes : Dict ℕ) (objects : Dict ConnectedNode)
    → Distinct (keys nodes)
    → lookup k nodes ≡ some ws
    → lookup ws objects ≡ some n
    → contains k (stale_ids now timeout nodes objects) ≡ is_stale now timeout n
unfolding stale_ids lookup keys contains
contains-stale_ids now timeout k ws n [] objects u h o = ground arith
contains-stale_ids now timeout k ws n ((j, v) ∷ nodes) objects u h o = elim (Bool-cases (k == j)) [
  | inl at ↦
      let same : k ≡ j = ground arith in
      let found : lookup v objects ≡ some n = ground arith in
      let absent : contains j (keys nodes) ≡ false = u.0 in
      ground (arith, found, unlisted-stale_ids now timeout k nodes objects)
  | inr off ↦
      let below = contains-stale_ids now timeout k ws n nodes objects u.1 (ground arith) o in
      elim (Option-cases (lookup v objects)) [
        | inl e ↦ ground (arith, below)
        | inr (m, e) ↦ ground (arith, below)
      ]
]

listed-stale :
    (settings : Settings) (now k : ℕ) (n : ConnectedNode) (r : NodeRegistry)
    → IsConsistent r
    → get_node k r ≡ some n
    → contains k (get_stale_nodes settings now none r)
      ≡ is_stale now settings.heartbeat_timeout_sec n
unfolding get_stale_nodes timeout_or get_node
listed-stale settings now k n r c g = elim (Option-cases (lookup k r.nodes)) [
  | inl e ↦ ground arith
  | inr (ws, e) ↦
      let object : lookup ws r.objects ≡ some n = ground arith in
      contains-stale_ids now settings.heartbeat_timeout_sec k ws n r.nodes r.objects c.unique e
        object
]

-- A round of the heartbeat monitor drops a registered node exactly if its last heartbeat was longer
-- ago than the timeout when the round began. While the round waits for sockets to close, other tasks
-- may do what they want, heartbeats of the node included, but that they name no node twice, do not
-- register this node anew, and do not unregister it unless it is dropped: a heartbeat that arrives
-- while the round waits does not save a node.
pub get_node-monitor_round :
    (settings : Settings) (now k : ℕ) (n : ConnectedNode)
    (meanwhile : ℕ → NodeRegistry → NodeRegistry) (r : NodeRegistry)
    → IsConsistent r
    → get_node k r ≡ some n
    → let stale = is_stale now settings.heartbeat_timeout_sec n in
      IsApart k (not stale) meanwhile
      → is_some (get_node k (monitor_round settings now meanwhile r)) ≡ not stale
unfolding monitor_round get_stale_nodes timeout_or
get_node-monitor_round settings now k n meanwhile r c g apart =
    let ids = get_stale_nodes settings now none r in
    let listed = listed-stale settings now k n r c g in
    elim (Bool-cases (is_stale now settings.heartbeat_timeout_sec n)) [
      | inl e ↦ rw (evicted k meanwhile _ apart ids r c (listed ∙ e), e) refl
      | inr e ↦ spared k meanwhile _ apart ids r c (rw e refl) (listed ∙ e) (rw g refl) ∙ rw e refl
    ]
