-- ===== src/Core/Driven.antt =====
-- DrivenCore (src/core/driven_core.cpp, driven_core.h): the state machine that takes a goal through
-- model requests and tool turns. `J` is nlohmann::json and `W` all that lies outside the core:
-- provider, skill manager, database and file system, reached through the interface `Env`.
pub mod State
pub mod Tools
pub mod Results
use a.Base.{
  ℕ, suc, ◌+◌, Bool, true, false, not, ◌&&◌, List, [], ◌∷◌, ◌++◌, map, Option, none, some, Bytes,
  codes, show_nat, ltb, leb, is_empty, if◌then◌else◌, lookup, bytes_key,
}
use a.Shared.Events.{
  Event, llm_start, llm_chunk, llm_complete, tool_start, tool_chunk, tool_end, complete, error,
}
use a.Core.Text.{sanitize_utf8}
use State.{
  CoreState, idle, awaiting_llm, executing_tools, ToolCall, PendingToolCall, Message, Shared, Env,
  Core, Ran, ended, raised, and_then, or_raise,
}

abbrev pub max_turns : ℕ
max_turns = 25

module _ {J W : Type 0} (env : Env J W) where
  -- if (m_persistence && m_sessionDbId > 0) m_persistence->appendMessage(..., m_seq++, ...)
  unfoldable pub append_message : Option ℕ → Bytes → Bytes → Bytes → Bytes → Core J W → Core J W
  append_message sub role content tool_calls tool_call_id c =
      if env.has_persistence && ltb 0 c.session_db_id
      then record c {
        shared = record {
          seq = suc c.shared.seq;
          outside =
              env.append_message c.session_db_id sub c.shared.seq role content tool_calls
                tool_call_id c.shared.outside;
        };
      }
      else c

  unfoldable pub save_system_prompt : Bytes → Core J W → Ran (Core J W)
  save_system_prompt prompt c =
      let saved : Ran (Core J W) =
        or_raise (env.save_system_prompt c.session_db_id prompt c.tool_schemas c.shared.outside)
          (λ w. ended (record c {
            system_prompt_persisted = true;
            shared = record c.shared { outside = w };
          })) in
      if env.has_persistence && (ltb 0 c.session_db_id && not c.system_prompt_persisted)
      then saved
      else ended c

  -- xStartLlmRequest(true), the only way in which it is called
  unfoldable pub start_llm_request : Core J W → Ran (Core J W)
  unfolding save_system_prompt
  start_llm_request c =
      let prompt = env.base_prompt c.persona_name c.shared.outside in
      and_then (save_system_prompt prompt c) (λ saved.
        or_raise (env.start_request prompt saved.messages saved.tool_schemas saved.shared.outside)
          (λ w.
            ended (record saved {
              state = awaiting_llm;
              shared = record saved.shared { outside = w };
            })))

  unfoldable pub build_tool_schemas : Core J W → Core J W
  build_tool_schemas c =
      let built = env.build_schemas c.persona_skills c.persona_tools c.shared.outside in
      record c { tool_schemas = built.0; dispatch = built.1 }

  -- the goal as a message from the user, and the fields of the last goal reset
  unfoldable pub open_goal : Bytes → Core J W → Core J W
  open_goal goal c = record c {
    turn_count = 0;
    accum_text = [];
    pending = [];
    sub_session_id = 0;
    messages =
        c.messages
        ++ record { role = codes "user"; content = goal; tool_call_id = []; tool_calls = [] } ∷ [];
  }

  unfoldable pub submit_goal : Bytes → Core J W → Ran (Core J W)
  unfolding build_tool_schemas append_message start_llm_request open_goal
  submit_goal goal c =
      let started =
        start_llm_request
          (append_message none (codes "user") goal [] [] (build_tool_schemas (open_goal goal c))) in
      elim c.state [ idle ↦ started | _ ↦ ended c ]

  pub finish_goal : Bytes → Core J W → Core J W
  unfolding append_message
  finish_goal text c =
      let safe = sanitize_utf8 text in
      let told =
        append_message (some c.sub_session_id) (codes "assistant") safe [] []
          (record c { last_result = safe }) in
      record told { tool_schemas = []; pending = []; accum_text = []; state = idle }

  pub fail_goal : Bytes → Core J W → Core J W
  unfolding append_message
  fail_goal message c =
      let told =
        append_message (some c.sub_session_id) (codes "assistant") message [] []
          (record c { last_result = codes "ERROR: " ++ message }) in
      record told { tool_schemas = []; pending = []; accum_text = []; state = idle }

  unfoldable pub cancel : Core J W → Core J W
  cancel c = record c {
    state = idle;
    messages = [];
    tool_schemas = [];
    pending = [];
    accum_text = [];
    shared = record c.shared { outside = env.provider_cancel c.shared.outside };
  }

  -- json::parse(ts.arguments), or the text itself where that throws
  parsed_arguments : Bytes → J
  parsed_arguments text = elim (env.parse_json text) [ none ↦ env.text_json text | some j ↦ j ]

  -- the calls are dumped where they are stored
  start_tools : Core J W → Ran (Core J W)
  unfolding append_message
  start_tools c =
      let busy = record c { state = executing_tools } in
      let told : Ran (Core J W) = or_raise (env.dump_calls c.pending) (λ calls.
        ended (append_message (some c.sub_session_id) (codes "assistant") [] calls [] busy)) in
      if env.has_persistence && ltb 0 c.session_db_id then told else ended busy

  handle_complete : Bytes → Core J W → Ran (Core J W)
  unfolding start_tools finish_goal
  handle_complete summary c =
      if not (is_empty c.pending)
      then start_tools c
      else if not (is_empty c.accum_text)
      then ended (finish_goal c.accum_text c)
      else ended (finish_goal summary c)

  -- the body of the loop of xHandleLlmEvents
  pub handle_llm_event : Event → Core J W → Ran (Core J W)
  unfolding handle_complete parsed_arguments fail_goal
  handle_llm_event (llm_chunk _ _ text _) c = ended (record c { accum_text = c.accum_text ++ text })
  handle_llm_event (tool_start _ tool_call_id tool_name arguments) c = ended (record c {
    pending =
        c.pending
        ++ record { id = tool_call_id; name = tool_name; arguments = parsed_arguments arguments }
          ∷ [];
  })
  handle_llm_event (complete _ summary) c = handle_complete summary c
  handle_llm_event (error _ _ message) c = ended (fail_goal message c)
  handle_llm_event _ c = ended c

  pub handle_llm_events : List Event → Core J W → Ran (Core J W)
  unfolding handle_llm_event
  handle_llm_events [] c = ended c
  handle_llm_events (ev ∷ rest) c = and_then (handle_llm_event ev c) (handle_llm_events rest)
