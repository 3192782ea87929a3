-- ===== src/Tests/Turns.antt =====
-- The turns of the agent core at concrete inputs.
use a.Base.{
  ◌⊎◌, ℕ, ◌≡◌, refl, true, false, List, [], ◌∷◌, ◌++◌, arith, Bytes, codes, starts_with, bytes_eq,
  lookup,
}
use a.Shared.Events.{Event, llm_start, llm_chunk, llm_complete, complete}
use a.Skills.Types.{ToolInvocation}
use a.Executor.Graph.{classify_tool, run_sequential}
use a.Core.Text.{sanitize_utf8, truncate_for_llm}
use a.Core.Driven.State.{idle, awaiting_llm, Core, ended, raised, and_then, Holds, Throws}
use a.Core.Driven.{
  submit_goal, cancel, start_llm_request, save_system_prompt, append_message, open_goal,
  build_tool_schemas, handle_llm_events,
}
use a.Core.Driven.Results.{is_plain, streamed_result}
use a.Core.Driven.Tools.{
  execute_tools, tick, assistant_message, tool_message, has_error, invocation_of,
}
use a.Core.Driven.Tools.Answers.{shown_outputs}
use a.Core.Driven.Tools.Turns.{TurnDone, Started, execute_tools_lem}
use a.Core.Driven.Tools.Invariant.{IsValid, IsValidAfter, Reaches, Reaches-tick}
use a.Core.Driven.Tools.Mixups.{swapped_answers, shifted_errors}
use a.Tests.Toys.{toy_env, echo, core_with, two_calls, pending_call}

execute_tools_lem_example :
    (events : List Event) × (last : Core Bytes ℕ) × (execute_tools toy_env (core_with 3 two_calls)
      ≡ and_then (start_llm_request toy_env last) (λ d. ended (events, d)))
    × TurnDone toy_env (core_with 3 two_calls) last
    × Holds (Throws toy_env) (Started toy_env last) (start_llm_request toy_env last)
execute_tools_lem_example =
    execute_tools_lem toy_env (core_with 3 two_calls) (omega arith) (omega arith)

abbrev start : Core Bytes ℕ
start = core_with 3 two_calls

start-IsValid : IsValid start
start-IsValid = record { busy = λ e. omega arith; turns = omega arith }

-- the core with a goal that was given to it after a cancel
abbrev again : Core Bytes ℕ
again = record (cancel toy_env start) {
  state = awaiting_llm;
  turn_count = 0;
  sub_session_id = 0;
  messages =
      record { role = codes "user"; content = codes "again"; tool_call_id = []; tool_calls = [] }
      ∷ [];
}

Reaches-tick_example :
    ((r : List Event × Core Bytes ℕ) × (tick toy_env again ≡ ended r) × IsValidAfter toy_env r)
    ⊎ ((tick toy_env again ≡ raised) × Throws toy_env)
unfolding submit_goal cancel start_llm_request save_system_prompt append_message open_goal
    build_tool_schemas
Reaches-tick_example =
    Reaches-tick toy_env start again start-IsValid
      (Reaches.submitted (codes "again") (Reaches.cancelled Reaches.here) refl)

abbrev waiting : Core Bytes ℕ
waiting = record (core_with 0 []) { state = awaiting_llm }

-- two chunks, the last of them final, as the decoder sends them
abbrev answer_events : List Event
answer_events =
    llm_start 1 1
    ∷ llm_chunk 1 1 (codes "Hel") false
    ∷ llm_chunk 1 2 (codes "lo") true
    ∷ llm_complete 1 (codes "stop")
    ∷ []

streamed_result_example :
    (d : Core Bytes ℕ) × (handle_llm_events toy_env (answer_events ++ complete 0 [] ∷ []) waiting
      ≡ ended d)
    × (d.last_result ≡ sanitize_utf8 (codes "Hello"))
    × (d.state ≡ idle)
    × (d.accum_text ≡ [])
    × (d.messages ≡ [])
unfolding is_plain
streamed_result_example = streamed_result toy_env answer_events 0 [] waiting refl refl refl

swapped_answers_example :
    (events : List Event) × (last : Core Bytes ℕ) × (execute_tools toy_env start
      ≡ and_then (start_llm_request toy_env last) (λ d. ended (events, d)))
    × (last.messages
        ≡ assistant_message toy_env start
          ∷ tool_message
              (sanitize_utf8 (truncate_for_llm (codes "contents")))
              (pending_call (codes "a") (codes "local_deploy") (codes "deployed"))
          ∷ tool_message
              (sanitize_utf8 (truncate_for_llm (codes "deployed")))
              (pending_call (codes "b") (codes "system_fs_read") (codes "contents"))
          ∷ [])
unfolding invocation_of classify_tool starts_with bytes_eq lookup
swapped_answers_example =
    swapped_answers toy_env echo start
      (pending_call (codes "a") (codes "local_deploy") (codes "deployed"))
      (pending_call (codes "b") (codes "system_fs_read") (codes "contents")) (codes "deployed")
      (codes "contents") start.shared start.shared refl refl (omega arith) refl refl refl refl refl
      refl

abbrev read : Bytes → ToolInvocation Bytes
read result = record {
  qualified_name = codes "system_fs_read";
  params = result;
  records_seq = true;
  tool_call_id = [];
  sub_session_id = 0;
}

shifted_errors_example :
    let br =
      (run_sequential toy_env.os toy_env.manager
        (read (codes "contents") ∷ read (codes "ERROR: no file") ∷ [])
        start.shared).0 in
    (shown_outputs br 0 br.outputs
      ≡ sanitize_utf8 (truncate_for_llm (codes "ERROR: no file\ncontents"))
        ∷ sanitize_utf8 (truncate_for_llm (codes "ERROR: no file"))
        ∷ [])
    × (has_error br 0 ≡ true)
    × (has_error br 1 ≡ false)
unfolding starts_with
shifted_errors_example =
    shifted_errors toy_env echo (read (codes "contents")) (read (codes "ERROR: no file"))
      start.shared start.shared start.shared (codes "contents") (codes "ERROR: no file") refl refl
      refl refl refl
