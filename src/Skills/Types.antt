-- ===== src/Skills/Types.antt =====
-- Tool definitions of src/skills/skills.h and src/shared/agent_interfaces.h, and the skill manager as
-- its clients use it. `J` stands for nlohmann::json, `W` for all that a tool may read or change.
use a.Base.{ℕ, Bool, List, Option, Bytes, ℤ}

pub data TrustLevel : Type 0 where
  high medium low : TrustLevel

pub record SkillTool (J : Type 0) : Type 0 where
  pub name : Bytes
  pub description : Bytes
  pub command : Bytes
  pub input_mode : Bytes
  pub input_schema : J
  pub output_schema : J
  pub docker_image : Bytes
  pub trust_level : TrustLevel
  pub apt_dependencies : List Bytes
  pub system_tool : Bool
  pub default_tool : Bool
  pub timeout_secs : ℤ
  pub parameters : J
  pub sub_command : Bytes
  pub streaming : Bool

pub data SkillNamespace : Type 0 where
  system local github : SkillNamespace

pub record ValidatorBinding : Type 0 where
  pub tool_name : Bytes
  pub transform : Option Bytes

pub record Prompt : Type 0 where
  pub name : Bytes
  pub description : Bytes
  pub prompt : Bytes
  pub dependencies : List Bytes
  pub validators : List ValidatorBinding
  pub chain : List Bytes
  pub compose_file : Bytes
  pub apt_dependencies : List Bytes
  pub ns : Bytes
  pub component : Bytes
  pub parallel_validators : Bool

pub record CompatBridge : Type 0 where
  pub tool_name : Bytes
  pub since : Bytes
  pub bridge_command : Bytes
  pub description : Bytes

pub record SkillManifest (J : Type 0) : Type 0 where
  pub name : Bytes
  pub version : Bytes
  pub description : Bytes
  pub ns : SkillNamespace
  pub source_url : Bytes
  pub commit_hash : Bytes
  pub tools : List (SkillTool J)
  pub prompts : List Prompt
  pub compat : List CompatBridge
  pub dependencies : List (Bytes × Bytes)
  pub sub_modules : List Bytes

-- What a look-up gives, or its return code.
pub data Lookup (A : Type 0) : Type 0 where
  found : A → Lookup A
  failed : ℤ → Lookup A

pub record ToolInvocation (J : Type 0) : Type 0 where
  pub qualified_name : Bytes
  pub params : J
  pub records_seq : Bool
  pub tool_call_id : Bytes
  pub sub_session_id : ℕ

-- A call returns its text, or leaves by a std::exception with its `what()`.
pub data Execution : Type 0 where
  returned threw : Bytes → Execution

-- `get_tool` is `getTool`, `none` for any return code but 0; `execute` is `executeToolWithMeta`.
pub record Manager (J W : Type 0) : Type 0 where
  pub get_tool : Bytes → W → Option (SkillTool J)
  pub execute : ToolInvocation J → W → Execution × W
