-- ===== src/Batch/Data.antt =====
-- orchestrator/batch.py: work units, batches and the state of `BatchStore`. An identifier is a
-- number, since the program only compares identifiers.
use fleet_lm.Base.{
  ℕ, ◌+◌, String, Bool, true, false, Option, none, List, [], Dict, or_text, or_else,
}
use fleet_lm.Metrics.{FleetMetrics}
use fleet_lm.Verification.{Verifier}

pub data UnitState : Type 0 where
  pending leased complete failed : UnitState

pub data BatchState : Type 0 where
  in_progress completed cancelled : BatchState

pub record Message : Type 0 where
  pub role : String
  pub content : String

-- One entry of the submitted `requests`; the temperature is in millionths.
pub record Request : Type 0 where
  pub messages : List Message
  pub model : Option String
  pub max_tokens : ℕ
  pub temperature : ℕ

pub record WorkUnit : Type 0 where
  pub id : ℕ
  pub batch_id : ℕ
  pub index : ℕ
  pub messages : List Message
  pub model : Option String
  pub max_tokens : ℕ
  pub temperature : ℕ
  pub state : UnitState
  pub attempts : ℕ
  pub node_id : Option ℕ
  pub lease_expires_at : ℕ
  pub created_at : ℕ
  pub leased_at : ℕ
  pub result_text : Option String
  pub error : Option String
  pub prompt_tokens : ℕ
  pub completion_tokens : ℕ
  pub served_by : Option String

pub record Payload : Type 0 where
  pub unit_id : ℕ
  pub messages : List Message
  pub max_tokens : ℕ
  pub temperature : ℕ

unfoldable pub payload : WorkUnit → Payload
payload u = record {
  unit_id = u.id;
  messages = u.messages;
  max_tokens = u.max_tokens;
  temperature = u.temperature;
}

-- The part of a result line that depends on how the unit ended.
pub data Outcome : Type 0 where
  response : (content : String) (prompt completion total : ℕ) (model : Option String) → Outcome
  error : (message : String) → Outcome

pub record ResultRecord : Type 0 where
  pub index : ℕ
  pub unit_id : ℕ
  pub status : UnitState
  pub attempts : ℕ
  pub outcome : Outcome

unfoldable pub outcome_of : UnitState → WorkUnit → Outcome
outcome_of complete u =
    response (or_text u.result_text "") u.prompt_tokens u.completion_tokens
      (u.prompt_tokens + u.completion_tokens) (or_else u.served_by u.model)
outcome_of _ u = error (or_text u.error "unknown error")

unfoldable pub result_record : WorkUnit → ResultRecord
unfolding outcome_of
result_record u = record {
  index = u.index;
  unit_id = u.id;
  status = u.state;
  attempts = u.attempts;
  outcome = outcome_of u.state u;
}

pub record Batch : Type 0 where
  pub id : ℕ
  pub model : Option String
  pub created_at : ℕ
  pub state : BatchState
  pub unit_ids : List ℕ
  pub completed_at : Option ℕ
  pub canary_unit_ids : List ℕ

-- The store holds the fleet's metrics and verifier, which the other components reach through it.
pub record BatchStore : Type 0 where
  pub batches : Dict Batch
  pub units : Dict WorkUnit
  pub pending : List ℕ
  pub metrics : Option FleetMetrics
  pub verifier : Option Verifier

-- `BatchStore.__init__`
unfoldable pub new_store : Option FleetMetrics → Option Verifier → BatchStore
new_store metrics verifier = record {
  batches = [];
  units = [];
  pending = [];
  metrics = metrics;
  verifier = verifier;
}

-- `state in (PENDING, LEASED)`
abbrev pub is_open : UnitState → Bool
is_open pending = true
is_open leased = true
is_open _ = false

abbrev pub is_pending : UnitState → Bool
is_pending pending = true
is_pending _ = false

abbrev pub is_leased : UnitState → Bool
is_leased leased = true
is_leased _ = false

abbrev pub is_in_progress : BatchState → Bool
is_in_progress in_progress = true
is_in_progress _ = false

abbrev pub is_cancelled : BatchState → Bool
is_cancelled cancelled = true
is_cancelled _ = false

-- A unit back in the queue, as a failure, a lost node or an expired lease leaves it.
unfoldable pub requeued : WorkUnit → WorkUnit
requeued u = record u { state = pending; node_id = none; lease_expires_at = 0 }
