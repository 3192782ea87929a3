-- ===== src/Skills/Execute/Streaming.antt =====
-- The execution of a tool with streamed output: `executeToolStreaming` of src/skills/skill_manager.cpp.
use a.Base.{
  ℕ, suc, [], ◌++◌, Option, none, some, Bytes, codes, ltb, if◌then◌else◌, lookup, bytes_key,
}
use a.Shared.Json.{Json}
use a.Skills.Types.{SkillTool, found, failed}
use a.Skills.Execute.{
  skill_tool_to_tool, Handler, Runner, Recorder, Manager, get_tool, wildcard_handler, runner_for,
  sub_session, record_invocation,
}

-- the handle is `some none` where nothing streams on, and `none` for an exception
pub record Streamed (W : Type 0) : Type 0 where
  pub handle : Option (Option ℕ)
  pub seq : Option ℕ
  pub world : W

module _ {J W : Type 0} where
  -- a streamed call does not try the name in three parts
  pub find_streaming_handler : Bytes → Manager J W → Option (Handler J W × Bytes)
  unfolding wildcard_handler
  find_streaming_handler qualified_name mgr = elim (lookup qualified_name mgr.handlers) [
    | some handler ↦ some (handler, [])
    | none ↦ wildcard_handler qualified_name mgr
  ]

module _ {J W : Type 0} (json : Json J) where
  -- the row of a streamed call, which has no message and no output yet
  record_streaming : Recorder W → Manager J W → Bytes → J → ℕ → ℕ → Bytes → ℕ → W → Streamed W
  unfolding record_invocation
  record_streaming store mgr qualified_name params handle seq tool_call_id sub w =
      let (msg_id, written) =
        store.append_message mgr.session_db_id (sub_session sub) seq (codes "tool") [] tool_call_id
          qualified_name w in
      let (done, last) = record_invocation json store qualified_name params 0 [] written in
      record {
        handle = elim done [ none ↦ none | some _ ↦ some (some handle) ];
        seq = some (suc seq);
        world = last;
      }

  -- a chunk that is all there is to stream
  chunk_only : (Bytes → Bytes → W → W) → Bytes → Option ℕ → W → Streamed W
  chunk_only on_chunk text seq w = record {
    handle = some none;
    seq = seq;
    world = on_chunk text (codes "stdout") w;
  }

  stream_tool :
      Runner J W → SkillTool J → Bytes → J → Option ℕ → Bytes → ℕ → Manager J W → W → Streamed W
  unfolding record_streaming
  stream_tool runner tool qualified_name params seq tool_call_id sub mgr w =
      let (handle, after) = runner.run_streaming (skill_tool_to_tool tool) params w in
      let unrecorded : Streamed W = record {
        handle = some (some handle);
        seq = seq;
        world = after;
      } in
      elim mgr.persistence [
        | none ↦ unrecorded
        | some store ↦ elim seq [
          | none ↦ unrecorded
          | some n ↦
              if ltb 0 mgr.session_db_id
              then record_streaming store mgr qualified_name params handle n tool_call_id sub after
              else unrecorded
        ]
      ]

  -- the parts 3 and 4 of a streamed call
  stream_defined :
      (Bytes → Bytes → W → W) → Bytes → J → Option ℕ → Bytes → ℕ → Manager J W → W → Streamed W
  unfolding chunk_only stream_tool runner_for
  stream_defined on_chunk qualified_name params seq tool_call_id sub mgr w =
      elim (get_tool qualified_name mgr) [
        | failed _ ↦ chunk_only on_chunk (codes "ERROR: tool not found: " ++ qualified_name) seq w
        | found tool ↦
            let started : Streamed W = elim (runner_for tool mgr) [
              | none ↦ chunk_only on_chunk (codes "ERROR: no ToolRunner available") seq w
              | some runner ↦
                  stream_tool runner tool qualified_name params seq tool_call_id sub mgr w
            ] in
            if tool.system_tool
            then chunk_only on_chunk
                (codes "ERROR: system tools do not support streaming: " ++ qualified_name) seq w
            else started
      ]

  pub execute_tool_streaming :
      (Bytes → Bytes → W → W) → Bytes → J → Option ℕ → Bytes → ℕ → Manager J W → W → Streamed W
  unfolding find_streaming_handler chunk_only stream_defined
  execute_tool_streaming on_chunk qualified_name params seq tool_call_id sub mgr w =
      elim (find_streaming_handler qualified_name mgr) [
        | none ↦ stream_defined on_chunk qualified_name params seq tool_call_id sub mgr w
        | some (handler, subcommand) ↦
            let (ran, after) = handler params subcommand w in
            elim ran [
              | none ↦ record { handle = none; seq = seq; world = after }
              | some hr ↦ chunk_only on_chunk hr.output seq after
            ]
      ]
