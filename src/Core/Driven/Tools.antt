-- ===== src/Core/Driven/Tools.antt =====
-- `xExecuteTools` and `tick` of DrivenCore. A read of `m_pendingToolCalls` out of range is `none` in
-- the loops over the results, and the end `out_of_range` of the call.
pub mod Answers
pub mod Turns
pub mod Invariant
pub mod Mixups
pub mod Forward
use a.Base.{
  ℕ, zero, suc, ◌+◌, Bool, true, false, not, ◌&&◌, List, [], ◌∷◌, ◌++◌, map, Option, none, some,
  Bytes, codes, show_nat, ltb, leb, is_empty, length, take, get_elem?, if◌then◌else◌, lookup,
  bytes_key,
}
use a.Base.Fault.{◌>>=◌}
use a.Shared.Events.{Event, tool_chunk, tool_end, complete}
use a.Skills.Types.{ToolInvocation}
use a.Executor.Graph.{BatchResult, build_batches, execute_batches}
use a.Core.Text.{sanitize_utf8, truncate_for_llm}
use a.Core.Driven.State.{
  CoreState, idle, awaiting_llm, executing_tools, ToolCall, PendingToolCall, Message, Shared, Env,
  Core, Ran, ended, out_of_range, and_then, or_raise,
}
use a.Core.Driven.{max_turns, append_message, start_llm_request, fail_goal, handle_llm_events}

abbrev pub to_call : {J : Type 0} → PendingToolCall J → ToolCall J
to_call p = record { id = p.id; name = p.name; arguments = p.arguments }

-- br.errors[i] where there is one, and the empty text elsewhere
error_at : BatchResult → ℕ → Bytes
error_at br i = elim (get_elem? br.errors i) [ none ↦ [] | some e ↦ e ]

pub has_error : BatchResult → ℕ → Bool
unfolding error_at
has_error br i = not (is_empty (error_at br i))

-- what the model is shown for one output
pub safe_output : BatchResult → ℕ → Bytes → Bytes
unfolding has_error
safe_output br i output =
    sanitize_utf8 (
      truncate_for_llm (if has_error br i then error_at br i ++ (codes "\n" ++ output) else output))

preview : ℕ → Bytes → Bytes
preview size text = if ltb size (length text) then take size text ++ codes "..." else take size text

abbrev pub tool_message : {J : Type 0} → Bytes → PendingToolCall J → Message J
tool_message safe ptc = record {
  role = codes "tool";
  content = safe;
  tool_call_id = ptc.id;
  tool_calls = [];
}

-- the two counters of the loop, the events so far, and the core
pub record Progress (J W : Type 0) : Type 0 where
  pub next_invocation_id : ℕ
  pub inv_idx : ℕ
  pub events : List Event
  pub core : Core J W

module _ {J W : Type 0} (env : Env J W) where
  -- a pending call under its qualified name, if the dispatch table has one
  unfoldable pub invocation_of : Core J W → PendingToolCall J → ToolInvocation J
  invocation_of c p = record {
    qualified_name = elim (lookup p.name c.dispatch) [ none ↦ p.name | some qn ↦ qn ];
    params = p.arguments;
    records_seq = true;
    tool_call_id = p.id;
    sub_session_id = c.sub_session_id;
  }

  pub output_events : ℕ → ℕ → Bool → Bytes → List Event
  unfolding preview
  output_events size invocation_id failed safe =
      (if is_empty safe then [] else tool_chunk invocation_id 1 safe (codes "stdout") ∷ [])
      ++ tool_end invocation_id (if failed then 1 else 0) (length safe) (preview size safe) ∷ []

  -- the body of the inner loop, once `ptc` is read
  answer : BatchResult → ℕ → Bytes → PendingToolCall J → Progress J W → Progress J W
  unfolding output_events
  answer br i output ptc pr =
      let safe = safe_output br i output in
      let c = pr.core in
      record {
        next_invocation_id = suc pr.next_invocation_id;
        inv_idx = suc pr.inv_idx;
        events =
            pr.events
            ++ output_events c.output_preview_size pr.next_invocation_id (has_error br i) safe;
        core =
            append_message env (some c.sub_session_id) (codes "tool") safe [] ptc.id
              (record c { messages = c.messages ++ tool_message safe ptc ∷ [] });
      }

  pub answer_outputs : BatchResult → ℕ → List Bytes → Progress J W → Option (Progress J W)
  unfolding answer
  answer_outputs br i [] pr = some pr
  answer_outputs br i (output ∷ rest) pr = do
    ptc ← get_elem? pr.core.pending pr.inv_idx
    answer_outputs br (suc i) rest (answer br i output ptc pr)

  pub answer_batches : List BatchResult → Progress J W → Option (Progress J W)
  answer_batches [] pr = some pr
  answer_batches (br ∷ rest) pr = do
    next ← answer_outputs br 0 br.outputs pr
    answer_batches rest next

  pub assistant_message : Core J W → Message J
  assistant_message c = record {
    role = codes "assistant";
    content = [];
    tool_call_id = [];
    tool_calls = map to_call c.pending;
  }

  -- the batches of results of the pending calls, and the world behind them
  pub run_pending : Core J W → List BatchResult × Shared W
  run_pending c =
      execute_batches env.os env.manager 4 (build_batches (map (invocation_of c) c.pending))
        c.shared

  -- the core when the first output is about to be answered
  pub before_answers : Core J W → Progress J W
  unfolding assistant_message
  before_answers c = record {
    next_invocation_id = 1;
    inv_idx = 0;
    events = [];
    core = record c {
      messages = c.messages ++ assistant_message c ∷ [];
      shared = (run_pending c).1;
    };
  }

  pub turn_error : Bytes
  turn_error = codes "ERROR: max tool call turns (" ++ (show_nat max_turns ++ codes ") exceeded")

  -- the core that the next request is made of
  pub next_turn : Core J W → Core J W
  next_turn c = record c { turn_count = suc c.turn_count; pending = []; accum_text = [] }

  -- an exception of the request loses the events
  pub end_turn : Progress J W → Ran (List Event × Core J W)
  unfolding next_turn
  end_turn pr = and_then (start_llm_request env (next_turn pr.core)) (λ d. ended (pr.events, d))

  pub execute_tools : Core J W → Ran (List Event × Core J W)
  unfolding end_turn turn_error
  execute_tools c =
      if is_empty c.pending
      then ended ([], record c { state = idle })
      else if leb max_turns c.turn_count
      then ended ([], fail_goal env turn_error c)
      else elim (answer_batches (run_pending c).0 (before_answers c)) [
        | none ↦ out_of_range
        | some pr ↦ end_turn pr
      ]

  -- the loop over the provider's events that are passed on
  pub forward : Core J W → List Event → List Event
  forward c [] = []
  forward c (complete session_id summary ∷ rest) =
      let shown =
        complete c.session_db_id
          (if is_empty summary && not (is_empty c.last_result) then c.last_result else summary) in
      elim c.state [ idle ↦ shown ∷ forward c rest | _ ↦ forward c rest ]
  forward c (ev ∷ rest) = ev ∷ forward c rest

  -- the branches of `tick`, on the state
  tick_at : CoreState → Core J W → Ran (List Event × Core J W)
  tick_at idle c = ended ([], c)
  tick_at awaiting_llm c = or_raise (env.provider_tick c.shared.outside) (λ got.
      and_then
        (handle_llm_events env got.0 (record c { shared = record c.shared { outside = got.1 } }))
        (λ handled. ended (forward handled got.0, handled)))
  tick_at executing_tools c = execute_tools c

  pub tick : Core J W → Ran (List Event × Core J W)
  unfolding tick_at
  tick c = tick_at c.state c
