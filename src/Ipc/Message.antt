-- ===== src/Ipc/Message.antt =====
-- `Message`, `serialize` and `deserialize` of src/ipc/ipc_protocol.{h,cpp}.
pub mod RoundTrip
use mathlib.Core.Option
use a.Base.{
  ℕ, Bool, true, false, not, List, [], ◌∷◌, ◌++◌, Option, none, some, Bytes, codes, ℤ, pos, is_zero,
  is_empty, if◌then◌else◌,
}
use a.Base.Fault.{◌>>=◌}
use a.Shared.Json.{Json}

pub record Message (J : Type 0) : Type 0 where
  pub message_type : Bytes
  pub pid : ℤ
  pub session_uuid : Bytes
  pub workdir : Bytes
  pub hostname : Bytes
  pub agents : J
  pub status : Bytes
  pub error : Bytes
  pub reason : Bytes
  pub tool_call_id : Bytes
  pub prompt : Bytes
  pub stream_id : ℤ
  pub chunk_seq : ℤ
  pub chunk_direction : Bytes
  pub chunk_data : Bytes
  pub terminal_id : Bytes
  pub context_type : Bytes
  pub context_id : Bytes
  pub cwd : Bytes

-- the return codes 0, -1 and -2 of `deserialize`
pub data Parsed (J : Type 0) : Type 0 where
  ok : Message J → Parsed J
  no_json no_type : Parsed J

module _ {J : Type 0} (json : Json J) where
  -- if (!s.empty()) j[k] = s; if (n != 0) j[k] = n;
  text_field : Bytes → Option J
  text_field s = if is_empty s then none else some (json.text s)

  int_field : ℤ → Option J
  int_field n = if is_zero n then none else some (json.int n)

  json_field : J → Option J
  json_field j = if json.is_null j then none else some j

  -- the keys in the order of the assignments, with what is assigned, if it is
  pub fields : Message J → List (Bytes × Option J)
  unfolding text_field int_field json_field
  fields m =
      (codes "type", some (json.text m.message_type))
      ∷ (codes "pid", int_field m.pid)
      ∷ (codes "session", text_field m.session_uuid)
      ∷ (codes "wd", text_field m.workdir)
      ∷ (codes "hostname", text_field m.hostname)
      ∷ (codes "agents", json_field m.agents)
      ∷ (codes "status", text_field m.status)
      ∷ (codes "error", text_field m.error)
      ∷ (codes "reason", text_field m.reason)
      ∷ (codes "toolCallId", text_field m.tool_call_id)
      ∷ (codes "prompt", text_field m.prompt)
      ∷ (codes "streamId", int_field m.stream_id)
      ∷ (codes "chunkSeq", int_field m.chunk_seq)
      ∷ (codes "chunkDirection", text_field m.chunk_direction)
      ∷ (codes "chunkData", text_field m.chunk_data)
      ∷ (codes "terminalId", text_field m.terminal_id)
      ∷ (codes "contextType", text_field m.context_type)
      ∷ (codes "contextId", text_field m.context_id)
      ∷ (codes "cwd", text_field m.cwd)
      ∷ []

  pub assign : List (Bytes × Option J) → J → J
  assign [] j = j
  assign ((k, none) ∷ rest) j = assign rest j
  assign ((k, some v) ∷ rest) j = assign rest (json.set k v j)

  -- `none` where `dump` throws
  unfoldable pub serialize : Message J → Option Bytes
  unfolding assign fields
  serialize m = Option.map (λ s. s ++ codes "\n") (json.dump (assign (fields m) json.object))

  -- if (j.contains(k) && j[k].is_string()) field = j[k], over the default
  read_text : J → Bytes → Bytes
  read_text j k = elim (json.find j k >>= json.as_text) [ none ↦ [] | some s ↦ s ]

  read_int : J → Bytes → ℤ
  read_int j k = elim (json.find j k >>= json.as_int) [ none ↦ pos 0 | some n ↦ n ]

  read_json : J → Bytes → J
  read_json j k = elim (json.find j k) [ none ↦ json.null | some v ↦ v ]

  pub read_message : Bytes → J → Message J
  unfolding read_text read_int read_json
  read_message message_type j = record {
    message_type = message_type;
    pid = read_int j (codes "pid");
    session_uuid = read_text j (codes "session");
    workdir = read_text j (codes "wd");
    hostname = read_text j (codes "hostname");
    agents = read_json j (codes "agents");
    status = read_text j (codes "status");
    error = read_text j (codes "error");
    reason = read_text j (codes "reason");
    tool_call_id = read_text j (codes "toolCallId");
    prompt = read_text j (codes "prompt");
    stream_id = read_int j (codes "streamId");
    chunk_seq = read_int j (codes "chunkSeq");
    chunk_direction = read_text j (codes "chunkDirection");
    chunk_data = read_text j (codes "chunkData");
    terminal_id = read_text j (codes "terminalId");
    context_type = read_text j (codes "contextType");
    context_id = read_text j (codes "contextId");
    cwd = read_text j (codes "cwd");
  }

  read_typed : J → Parsed J
  unfolding read_message
  read_typed j = elim (json.find j (codes "type") >>= json.as_text) [
    | none ↦ no_type
    | some t ↦ ok (read_message t j)
  ]

  pub deserialize : Bytes → Parsed J
  unfolding read_typed
  deserialize line = elim (json.parse line) [ none ↦ no_json | some j ↦ read_typed j ]
