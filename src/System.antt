-- ===== src/System.antt =====
-- The server and its nodes as one system: what can happen next, one thing at a time, over a network
-- that may lose, repeat and reorder what it carries.
pub mod Nodes
pub mod Provenance
pub mod Results
pub mod Answers
mod Tests
use fleet_lm.Base.{
  ℕ, String, Bool, true, false, Option, ◌≡◌, List, [], ◌∷◌, ◌++◌, ◌==◌, if◌then◌else◌, truthy, In,
}
use fleet_lm.Config.{Settings}
use fleet_lm.Verification.{Primitives}
use fleet_lm.Batch.Data.{BatchStore, Payload}
use fleet_lm.Batch.History.{Call, submits, releases, expires, cancels}
use fleet_lm.Batch.History
use fleet_lm.Engine.{BatchOutput}
use fleet_lm.NodeAgent.{NodeAgent, Sent, work_result, work_failed, Decoded, raised, outputs}
use fleet_lm.NodeAgent.Backlog.{Step, is_assigned, finishes}
use fleet_lm.NodeAgent.Backlog
use fleet_lm.NodeAgent.Delivered.{frame_of}
use fleet_lm.Server.App.{App}
use fleet_lm.Server.Messages.{Reply, work_assignment, work_request}
use fleet_lm.Server.Handle.{Handled, handle}

-- The batch store, the assignments that the server has ever sent, the messages that the nodes have,
-- and the nodes' agents.
pub record World : Type 0 where
  pub store : BatchStore
  pub given : List (ℕ × List Payload)
  pub sent : List (ℕ × Sent)
  pub agents : ℕ → NodeAgent

abbrev pub set_agent : ℕ → NodeAgent → World → World
set_agent n a w = record w { agents = λ m. if m == n then a else w.agents m }

-- The assignments among what is sent to a node.
unfoldable pub assignments : ℕ → List Reply → List (ℕ × List Payload)
assignments n [] = []
assignments n (work_assignment units ∷ rs) = (n, units) ∷ assignments n rs
assignments n (_ ∷ rs) = assignments n rs

-- What is left of a message of a node that the server has handled.
abbrev pub serve_node : ℕ → Handled → World → World
serve_node n h w = record w {
  store = h.app.batch_store;
  given = assignments n h.replies ++ w.given;
}

-- A call on the store that no node's report makes.
abbrev pub is_own_call : Call → Bool
is_own_call (submits batch_id unit_id model requests) = true
is_own_call (releases node_id) = true
is_own_call expires = true
is_own_call (cancels batch_id) = true
is_own_call _ = false

-- A message that reports on a unit.
abbrev pub is_report : Sent → Bool
is_report (work_result unit_id text prompt_tokens completion_tokens model) = true
is_report (work_failed unit_id message) = true
is_report _ = false

module _ (Makes : Payload → String → Type 0) where
  -- The engine's outputs for a batch, where they are no errors, are what it may make of the units.
  abbrev pub Fits : List Payload → List BatchOutput → Type 0
  Fits (u ∷ us) (o ∷ os) = (truthy o.error ≡ false → Makes u o.text) × Fits us os
  Fits _ _ = Unit

  abbrev pub IsHonest : List Payload → Decoded → Type 0
  IsHonest us (raised message) = Unit
  IsHonest us (outputs model outs) = Fits us outs

  -- A step of a node by itself, with an honest engine.
  abbrev pub IsOwn : Step → NodeAgent → Type 0
  IsOwn (is_assigned units) a = ⊥
  IsOwn (finishes d) a = IsHonest a.running d
  IsOwn _ a = Unit

module _ (lib : Primitives) (settings : Settings) (Makes : Payload → String → Type 0) where
  -- `app` stands for the rest of the server, which the reports and requests of nodes also reach.
  pub data Happens (w : World) : World → Type 0 where
    calls :
        (now : ℕ) (c : Call)
        → is_own_call c ≡ true
        → History.Allowed lib settings c w.store
        → Happens w (record w { store = History.step lib settings (now, c) w.store })
    gives :
        (now n : ℕ) (capacity : Option ℕ) (app : App)
        → app.batch_store ≡ w.store
        → Happens w (serve_node n (handle lib settings now n (work_request capacity) app) w)
    arrives :
        (n : ℕ) (units : List Payload)
        → In (n, units) w.given
        → Happens w (set_agent n (Backlog.step (is_assigned units) (w.agents n)) w)
    acts :
        (n : ℕ) (x : Step)
        → IsOwn Makes x (w.agents n)
        → Happens w (set_agent n (Backlog.step x (w.agents n)) w)
    -- What is sent stays under way, also when its connection is lost.
    sends :
        (n : ℕ) (m : Sent)
        → In m (w.agents n).outbox
        → Happens w (record w { sent = (n, m) ∷ w.sent })
    reports :
        (now n cpu seconds : ℕ) (model_id : String) (m : Sent) (app : App)
        → app.batch_store ≡ w.store
        → In (n, m) w.sent
        → is_report m ≡ true
        → Happens w
            (serve_node n (handle lib settings now n (frame_of cpu seconds model_id m) app) w)

  pub data Reaches (w : World) : World → Type 0 where
    stays : Reaches w w
    goes : {v x : World} → Reaches w v → Happens v x → Reaches w x
