-- ===== src/Shared/Events.antt =====
-- The commands and events of src/shared/mpsc.h. Signed counters and row ids that the program never
-- makes negative are natural numbers.
use a.Base.{ℕ, Bool, List, Bytes}

pub data ResourceType : Type 0 where
  llm_stream tool_output terminal_stream tool_invocation : ResourceType

pub data Command : Type 0 where
  submit_goal : Bytes → Command
  cancel shutdown : Command
  set_session : ℕ → Bytes → Command
  list_sessions : ℕ → Command
  resume_session : Bytes → Command
  load_resource : ResourceType → ℕ → ℕ → ℕ → Command

pub record SessionMessage : Type 0 where
  pub role : Bytes
  pub content : Bytes
  pub tool_call_id : Bytes
  pub name : Bytes
  pub result_json : Bytes
  pub created_at : ℕ

pub record SessionEntry : Type 0 where
  pub uuid : Bytes
  pub db_id : ℕ
  pub started_at : Bytes
  pub message_count : ℕ

-- Each constructor has the fields of its struct, in order.
pub data Event : Type 0 where
  llm_start : (stream_id round_seq : ℕ) → Event
  llm_chunk : (stream_id seq : ℕ) (text : Bytes) (is_final : Bool) → Event
  llm_complete : (stream_id : ℕ) (finish_reason : Bytes) → Event
  tool_start : (invocation_id : ℕ) (tool_call_id tool_name arguments : Bytes) → Event
  tool_chunk : (invocation_id seq : ℕ) (text stream_type : Bytes) → Event
  tool_end : (invocation_id exit_code total_bytes : ℕ) (output_preview : Bytes) → Event
  complete : (session_id : ℕ) (summary : Bytes) → Event
  error : (source : Bytes) (context_id : ℕ) (message : Bytes) → Event
  session_ready : (db_id : ℕ) (uuid : Bytes) → Event
  session_list : List SessionEntry → Event
  session_history : (db_id : ℕ) (uuid : Bytes) (found : Bool) → List SessionMessage → Event
  load_resource_result : (id : ℕ) (contents : Bytes) → Event
