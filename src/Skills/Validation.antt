-- ===== src/Skills/Validation.antt =====
-- The replay of recorded tool calls: src/skills/validation_engine.cpp, whose verdict is in
-- Validation/Verdicts. How a process runs is the argument `run`.
pub mod Verdicts
pub mod Replays
pub mod Missing
use a.Base.{
  ℕ, suc, ◌+◌, Bool, true, false, not, ◌||◌, List, [], ◌∷◌, ◌++◌, map, Option, none, some, Bytes,
  codes, ℤ, pos, negsuc, is_zero, show_int, is_empty, bytes_eq, ltb, if◌then◌else◌,
}
use a.Shared.Json.{Json}
use a.Executor.Runner.{CommandResult}
use a.Skills.Types.{SkillNamespace, system, local, github, SkillTool, SkillManifest, CompatBridge}
use a.Skills.Names.{parse_qualified_name}
use a.Skills.Loader.{Loader, get_manifest}
use a.Skills.Removal.{ensure_ns}

pub record InvocationRow : Type 0 where
  pub id : ℤ
  pub message_id : ℤ
  pub skill_id : ℤ
  pub tool_name : Bytes
  pub params_json : Bytes
  pub output_json : Bytes
  pub timestamp : ℤ

pub record InvocationRecord (J : Type 0) : Type 0 where
  pub tool_name : Bytes
  pub params : J
  pub output : J
  pub timestamp : ℤ

-- what a command gave: the return code -1, an exception, or a value
pub data Output (J : Type 0) : Type 0 where
  no_output raised : Output J
  output_is : J → Output J

ns_type : SkillNamespace → ℤ
ns_type system = pos 0
ns_type local = pos 1
ns_type github = pos 2

ns_of_string : Bytes → SkillNamespace
ns_of_string ns =
    if bytes_eq ns (codes "system")
    then system
    else if bytes_eq ns (codes "local")
    then local
    else github

unfoldable pub find_replayed : {J : Type 0} → Bytes → List (SkillTool J) → Option (SkillTool J)
find_replayed name [] = none
find_replayed name (t ∷ ts) = if bytes_eq t.name name then some t else find_replayed name ts

module _ {J : Type 0} (json : Json J) where
  -- text that is no JSON stands for itself
  unfoldable pub parsed : Bytes → J
  parsed s = elim (json.parse s) [ some j ↦ j | none ↦ json.text s ]

  load_record : InvocationRow → InvocationRecord J
  unfolding parsed
  load_record row = record {
    tool_name = row.tool_name;
    params = parsed row.params_json;
    output = parsed row.output_json;
    timestamp = row.timestamp;
  }

  pub load_logs :
      {W : Type 0}
      → Option (ℤ → Bytes → W → List InvocationRow × W)
      → Bytes
      → Bytes
      → W
      → List (InvocationRecord J) × W
  unfolding ns_type ns_of_string load_record
  load_logs none ns component w = ([], w)
  load_logs (some load_invocations) ns component w =
      let (rows, after) = load_invocations (ns_type (ns_of_string ns)) component w in
      (map load_record rows, after)

module _ {J W : Type 0} (json : Json J) (same : J → J → Bool)
    (run : Bytes → Bytes → ℤ → W → CommandResult × W) where
  unfoldable pub replay_output : CommandResult → J
  unfolding parsed
  replay_output res =
      if res.timed_out || not (is_zero res.exit_code)
      then json.text res.stderr
      else parsed json res.stdout

  unfoldable pub input_of : J → Option Bytes
  input_of params = elim (json.as_text params) [ some s ↦ some s | none ↦ json.dump params ]

  unfoldable pub replay_record : InvocationRecord J → List (SkillTool J) → W → Output J × W
  unfolding find_replayed input_of replay_output
  replay_record r tools w = elim (find_replayed r.tool_name tools) [
    | none ↦ (no_output, w)
    | some tool ↦ elim (input_of r.params) [
      | none ↦ (raised, w)
      | some input ↦
          let (res, after) = run tool.command input (pos 30) w in
          (output_is (replay_output res), after)
    ]
  ]

  -- the parameters are dumped, also those that are a text, and a timeout is not looked at
  unfoldable pub apply_bridge : CompatBridge → J → W → Output J × W
  unfolding parsed
  apply_bridge bridge params w = elim (json.dump params) [
    | none ↦ (raised, w)
    | some input ↦
        let (res, after) = run bridge.bridge_command input (pos 30) w in
        (if is_zero res.exit_code then output_is (parsed json res.stdout) else no_output, after)
  ]
