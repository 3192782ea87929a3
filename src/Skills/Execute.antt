-- ===== src/Skills/Execute.antt =====
-- The execution of a tool by its qualified name: `executeToolWithMeta` and the
-- handler registry of src/skills/skill_manager.cpp. Handlers, runners and the store act on a world
-- `W`, in which the tool state is.
pub mod Handlers
pub mod Streaming
use a.Base.{
  ℕ, suc, ◌+◌, Bool, true, false, not, ◌&&◌, ◌||◌, List, [], ◌∷◌, ◌++◌, Option, none, some, Bytes,
  codes, ℤ, pos, negsuc, is_empty, bytes_eq, nat_eq, ltb, if◌then◌else◌, lookup, insert, bytes_key,
}
use a.Base.Fault.{◌>>=◌}
use a.Shared.Json.{Json}
use a.Skills.Types.{TrustLevel, SkillTool, Lookup, found, failed}
use a.Skills.Names.{parse_qualified_name}
use a.Skills.Loader.{Loader}
use a.Skills.Loader

-- the tool that a runner takes
pub record Tool : Type 0 where
  pub name : Bytes
  pub description : Bytes
  pub command : Bytes
  pub input_mode : Bytes
  pub docker_image : Bytes
  pub trust_level : TrustLevel
  pub apt_dependencies : List Bytes
  pub timeout_secs : ℤ

pub skill_tool_to_tool : {J : Type 0} → SkillTool J → Tool
skill_tool_to_tool st = record {
  name = st.name;
  description = st.description;
  command = st.command;
  input_mode = st.input_mode;
  docker_image = st.docker_image;
  trust_level = st.trust_level;
  apt_dependencies = st.apt_dependencies;
  timeout_secs = st.timeout_secs;
}

pub record HandlerResult : Type 0 where
  pub output : Bytes
  pub recommended_tools : List Bytes

-- a handler is called with the parameters and the subcommand, and may leave by an exception
abbrev pub Handler : Type 0 → Type 0 → Type 0
Handler J W = J → Bytes → W → Option HandlerResult × W

-- what `run` returns is JSON, unless it throws; `run_streaming` gives the handle of the stream
pub record Runner (J W : Type 0) : Type 0 where
  pub run : Tool → J → W → Option J × W
  pub run_streaming : Tool → J → W → ℕ × W

-- the store's calls: the session, the sub-session, the number, role, content, call and tool of a message;
-- the kind and name of a skill; the message, skill, tool, parameters and output of an invocation
pub record Recorder (W : Type 0) : Type 0 where
  pub append_message : ℕ → Option ℕ → ℕ → Bytes → Bytes → Bytes → Bytes → W → ℕ × W
  pub ensure_skill : ℕ → Bytes → W → ℕ × W
  pub append_invocation : ℕ → ℕ → Bytes → Bytes → Bytes → W → W

pub record Manager (J W : Type 0) : Type 0 where
  pub loader : Loader J
  pub handlers : List (Bytes × Handler J W)
  pub tool_runner : Option (Runner J W)
  pub docker_runner : Option (Runner J W)
  pub persistence : Option (Recorder W)
  pub session_db_id : ℕ

-- what an execution leaves: its result, unless it left by an exception, and the counter of the caller, if
-- it has one
pub record Executed (W : Type 0) : Type 0 where
  pub result : Option HandlerResult
  pub seq : Option ℕ
  pub world : W

ns_to_type : Bytes → ℕ
ns_to_type ns =
    if bytes_eq ns (codes "system") then 0 else if bytes_eq ns (codes "local") then 1 else 2

module _ {J W : Type 0} where
  pub register_handler : Bytes → Handler J W → Manager J W → Manager J W
  register_handler qualified_name handler mgr = record mgr {
    handlers = insert qualified_name handler mgr.handlers;
  }

  pub set_recording_session : ℕ → Manager J W → Manager J W
  set_recording_session session_db_id mgr = record mgr { session_db_id = session_db_id }

  pub get_tool : Bytes → Manager J W → Lookup (SkillTool J)
  get_tool qualified_name mgr = elim (parse_qualified_name qualified_name) [
    | none ↦ failed (negsuc 1)
    | some (ns, (component, tool_name)) ↦ Loader.get_tool mgr.loader ns component tool_name
  ]

  -- the name in three parts, if it is not the name itself
  alias_handler : Bytes → Manager J W → Option (Handler J W)
  alias_handler qualified_name mgr = elim (parse_qualified_name qualified_name) [
    | none ↦ none
    | some (ns, (comp, name)) ↦
        let qn3 = ns ++ codes "_" ++ comp ++ codes "_" ++ name in
        if is_empty name || bytes_eq qn3 qualified_name then none else lookup qn3 mgr.handlers
  ]

  -- the subcommand of a tool that overrides its name
  sub_command : Bytes → Bytes → Manager J W → Bytes
  unfolding get_tool
  sub_command qualified_name name mgr = elim (get_tool qualified_name mgr) [
    | failed _ ↦ name
    | found tool ↦ if is_empty tool.sub_command then name else tool.sub_command
  ]

  wildcard_handler : Bytes → Manager J W → Option (Handler J W × Bytes)
  unfolding sub_command
  wildcard_handler qualified_name mgr = elim (parse_qualified_name qualified_name) [
    | none ↦ none
    | some (ns, (comp, name)) ↦ elim (lookup (ns ++ codes "_" ++ comp ++ codes "_*") mgr.handlers) [
      | none ↦ none
      | some handler ↦ some (handler, sub_command qualified_name name mgr)
    ]
  ]

  -- the handler of a call and its subcommand: exact, under the name in three parts, for the component
  pub find_handler : Bytes → Manager J W → Option (Handler J W × Bytes)
  unfolding alias_handler wildcard_handler
  find_handler qualified_name mgr = elim (lookup qualified_name mgr.handlers) [
    | some handler ↦ some (handler, [])
    | none ↦ elim (alias_handler qualified_name mgr) [
      | some handler ↦ some (handler, [])
      | none ↦ wildcard_handler qualified_name mgr
    ]
  ]

  -- the runner of containers for a tool with an image, if there is one
  pub runner_for : SkillTool J → Manager J W → Option (Runner J W)
  runner_for tool mgr = elim (mgr.docker_runner) [
    | none ↦ mgr.tool_runner
    | some docker ↦ if is_empty tool.docker_image then mgr.tool_runner else some docker
  ]

abbrev plain_result : Bytes → HandlerResult
plain_result output = record { output = output; recommended_tools = [] }

-- the text of what a runner returned; `dump` may throw
text_of : {J : Type 0} → Json J → J → Option Bytes
text_of json r = elim (json.as_text r) [ some s ↦ some s | none ↦ json.dump r ]

abbrev sub_session : ℕ → Option ℕ
sub_session id = if nat_eq id 0 then none else some id

module _ {J W : Type 0} (json : Json J) where
  run_tool : Runner J W → SkillTool J → J → W → Option HandlerResult × W
  unfolding text_of
  run_tool runner tool params w =
      let (r, after) = runner.run (skill_tool_to_tool tool) params w in
      ((do j ← r; output ← text_of json j; some (plain_result output)), after)

  -- the parts 3 to 5 of a call, for a tool without a handler
  run_defined : Bytes → J → Manager J W → W → Option HandlerResult × W
  unfolding run_tool runner_for
  run_defined qualified_name params mgr w = elim (get_tool qualified_name mgr) [
    | failed _ ↦ (some (plain_result (codes "ERROR: tool not found: " ++ qualified_name)), w)
    | found tool ↦
        let ran : Option HandlerResult × W = elim mgr.tool_runner [
          | none ↦ (
            some (
                plain_result
                  (codes "ERROR: no ToolRunner available for command tool: " ++ qualified_name)),
            w,
          )
          | some runner ↦ elim (runner_for tool mgr) [
            | none ↦ run_tool runner tool params w
            | some chosen ↦ run_tool chosen tool params w
          ]
        ] in
        if tool.system_tool
        then (
          some (
              plain_result
                (codes "ERROR: no C++ handler registered for system tool: " ++ qualified_name)),
          w,
        )
        else ran
  ]

  pub run_call : Bytes → J → Manager J W → W → Option HandlerResult × W
  unfolding find_handler run_defined
  run_call qualified_name params mgr w = elim (find_handler qualified_name mgr) [
    | some (handler, sub) ↦ handler params sub w
    | none ↦ run_defined qualified_name params mgr w
  ]

  -- the row of the invocation; `params.dump()` may throw, after the message was written
  record_invocation : Recorder W → Bytes → J → ℕ → Bytes → W → Option W × W
  unfolding ns_to_type
  record_invocation store qualified_name params msg_id output w =
      elim (parse_qualified_name qualified_name) [
        | none ↦ (some w, w)
        | some (ns, (comp, name)) ↦
            let (skill_id, known) = store.ensure_skill (ns_to_type ns) comp w in
            elim (json.dump params) [
              | none ↦ (none, known)
              | some text ↦
                  let after = store.append_invocation msg_id skill_id name text output known in
                  (some after, after)
            ]
      ]

  -- the label `record`, with the counter one up
  record_result :
      Recorder W → Manager J W → Bytes → J → ℕ → Bytes → ℕ → HandlerResult → W → Executed W
  unfolding record_invocation
  record_result store mgr qualified_name params seq tool_call_id sub hr w =
      let (msg_id, written) =
        store.append_message mgr.session_db_id (sub_session sub) seq (codes "tool") hr.output
          tool_call_id qualified_name w in
      let (done, last) = record_invocation store qualified_name params msg_id hr.output written in
      record {
        result = elim done [ none ↦ none | some _ ↦ some hr ];
        seq = some (suc seq);
        world = last;
      }

  pub execute_tool_with_meta : Bytes → J → Option ℕ → Bytes → ℕ → Manager J W → W → Executed W
  unfolding run_call record_result
  execute_tool_with_meta qualified_name params seq tool_call_id sub mgr w =
      let (ran, after) = run_call qualified_name params mgr w in
      elim ran [
        | none ↦ record { result = none; seq = seq; world = after }
        | some hr ↦
            let unrecorded : Executed W = record { result = some hr; seq = seq; world = after } in
            elim mgr.persistence [
              | none ↦ unrecorded
              | some store ↦ elim seq [
                | none ↦ unrecorded
                | some n ↦
                    if ltb 0 mgr.session_db_id
                    then record_result store mgr qualified_name params n tool_call_id sub hr after
                    else unrecorded
              ]
            ]
      ]

  pub execute_tool : Bytes → J → Manager J W → W → Executed W
  unfolding execute_tool_with_meta
  execute_tool qualified_name params mgr w =
      execute_tool_with_meta qualified_name params none [] 0 mgr w
