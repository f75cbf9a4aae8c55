-- ===== src/Server/Messages.antt =====
-- orchestrator/protocol.py: the messages of a node's socket. A field that a message may lack is
-- an `Option`; a field of the wrong JSON type, which the code would pass on, is left out.
use fleet_lm.Base.{ℕ, String, Option, List}
use fleet_lm.Batch.Data.{Payload}

pub record RegisterMessage : Type 0 where
  pub node_id : Option ℕ
  pub gpu_name : Option String
  pub gpu_vram_mb : Option ℕ
  pub runtime : Option String
  pub model_id : Option String
  pub join_token : Option String

pub record WorkResultMessage : Type 0 where
  pub unit_id : Option ℕ
  pub text : Option String
  pub prompt_tokens : Option ℕ
  pub completion_tokens : Option ℕ
  pub generation_sec : Option ℕ
  pub model : Option String

pub data NodeMessage : Type 0 where
  register : RegisterMessage → NodeMessage
  heartbeat : (cpu_usage gpu_usage active_sessions : Option ℕ) → NodeMessage
  model_loaded : (model_id : Option String) → NodeMessage
  generate_chunk : (session_id : Option ℕ) (text : Option String) → NodeMessage
  generate_complete :
      (session_id : Option ℕ) (finish_reason : Option String)
      (prompt_tokens completion_tokens : Option ℕ)
      → NodeMessage
  generate_error : (session_id : Option ℕ) (message : Option String) → NodeMessage
  work_request : (capacity : Option ℕ) → NodeMessage
  work_result : WorkResultMessage → NodeMessage
  work_failed : (unit_id : Option ℕ) (message : Option String) → NodeMessage
  error : (message : Option String) → NodeMessage
  unknown : NodeMessage

-- What a socket delivers: a text that is a message, a text that is none, bytes, or its end.
pub data Frame : Type 0 where
  text : NodeMessage → Frame
  malformed : Frame
  bytes : Frame
  disconnect : Frame

-- What the handler sends back.
pub data Reply : Type 0 where
  serve_model : (model_id : String) → Reply
  work_assignment : (units : List Payload) → Reply
  refused : (message : String) → Reply
