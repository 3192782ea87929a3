-- ===== src/Core/Driven/Tools/Turns.antt =====
-- A tool turn as a whole: it never faults, answers all calls, and there are at most `max_turns`.
use a.Base.{
  none, if_elim, ◌&&◌, not, ltb, suc, ◌≤◌, ◌<◌, ◌≡◌, refl, ap, sym, ◌∙◌, total, length-map,
  length-flatten, true, false, List, [], ◌∷◌, ◌++◌, map, some, arith, Bytes, codes, append_assoc,
  length, leb, is_empty_of_pos,
}
use a.Shared.Events.{Event}
use a.Executor.Graph.{build_batches}
use a.Executor.Graph.Batches.{length-flatten-build_batches}
use a.Executor.Graph.Execute.{length-execute_batches}
use a.Core.Driven.State.{
  Env, Throws, Core, idle, awaiting_llm, Ran, ended, and_then, or_raise, Holds, Holds-and_then,
  Holds-or_raise, Holds-map, CoreState,
}
use a.Core.Driven.{
  append_message, start_llm_request, fail_goal, max_turns, save_system_prompt, submit_goal,
  open_goal, build_tool_schemas,
}
use a.Core.Driven.Tools.{
  invocation_of, Progress, run_pending, before_answers, assistant_message, next_turn, end_turn,
  execute_tools, answer_batches, turn_error,
}
use a.Core.Driven.Tools.Answers.{
  shown_batches, length-shown_batches, replies, answer_batches-Answered,
}

module _ {J W : Type 0} (env : Env J W) where
  -- the texts that answer the pending calls
  abbrev pub shown_for : Core J W → List Bytes
  shown_for c = shown_batches (run_pending env c).0

  length-shown_for : (c : Core J W) → length (shown_for c) ≡ length c.pending
  unfolding run_pending
  length-shown_for c =
      let calls = map (invocation_of env c) c.pending in
      length-shown_batches (run_pending env c).0
      ∙ ap total (length-execute_batches env.os env.manager 4 (build_batches calls) c.shared)
      ∙ sym (length-flatten (build_batches calls))
      ∙ length-flatten-build_batches calls
      ∙ length-map (invocation_of env c) c.pending

  pub record TurnDone (c d : Core J W) : Type 0 where
    pub messages :
        d.messages ≡ c.messages ++ (assistant_message env c ∷ replies (shown_for c) c.pending)
    pub answered : length (shown_for c) ≡ length c.pending
    pub turn_count : d.turn_count ≡ suc c.turn_count
    pub pending : d.pending ≡ []
    pub accum_text : d.accum_text ≡ []

  pub record Started (c d : Core J W) : Type 0 where
    pub messages : d.messages ≡ c.messages
    pub turn_count : d.turn_count ≡ c.turn_count
    pub state : d.state ≡ awaiting_llm
    pub pending : d.pending ≡ c.pending
    pub accum_text : d.accum_text ≡ c.accum_text

  record Saved (c d : Core J W) : Type 0 where
    pub messages : d.messages ≡ c.messages
    pub turn_count : d.turn_count ≡ c.turn_count
    pub pending : d.pending ≡ c.pending
    pub accum_text : d.accum_text ≡ c.accum_text

  save_system_prompt-Saved :
      (prompt : Bytes) (c : Core J W)
      → Holds (Throws env) (Saved c) (save_system_prompt env prompt c)
  unfolding save_system_prompt
  save_system_prompt-Saved prompt c =
      let kept : Saved c c = record {
        messages = refl;
        turn_count = refl;
        pending = refl;
        accum_text = refl;
      } in
      let store : W → Ran (Core J W) = λ w.
        ended
          (record c { system_prompt_persisted = true; shared = record c.shared { outside = w } }) in
      if_elim (Holds (Throws env) (Saved c))
        (env.has_persistence && (ltb 0 c.session_db_id && not c.system_prompt_persisted))
        (or_raise (env.save_system_prompt c.session_db_id prompt c.tool_schemas c.shared.outside)
          store)
        (ended c)
        (λ _.
          Holds-or_raise (Throws env) (Saved c)
            (env.save_system_prompt c.session_db_id prompt c.tool_schemas c.shared.outside) store
            (Throws.schemas c.session_db_id prompt c.tool_schemas c.shared.outside)
            (λ w. record { messages = refl; turn_count = refl; pending = refl; accum_text = refl }))
        (λ _. kept)

  -- a request that is started changes only the state, the world and what is known to be stored
  pub start_llm_request-Started :
      (c : Core J W) → Holds (Throws env) (Started c) (start_llm_request env c)
  unfolding start_llm_request
  start_llm_request-Started c =
      let prompt = env.base_prompt c.persona_name c.shared.outside in
      let start : Core J W → Ran (Core J W) = λ saved.
        or_raise (env.start_request prompt saved.messages saved.tool_schemas saved.shared.outside)
          (λ w. ended (record saved {
            state = awaiting_llm;
            shared = record saved.shared { outside = w };
          })) in
      Holds-and_then (Throws env) (Saved c) (Started c) (save_system_prompt env prompt c) start
        (save_system_prompt-Saved prompt c)
        (λ saved same.
          Holds-or_raise (Throws env) (Started c)
            (env.start_request prompt saved.messages saved.tool_schemas saved.shared.outside)
            (λ w.
              ended (record saved {
                state = awaiting_llm;
                shared = record saved.shared { outside = w };
              }))
            (Throws.request prompt saved.messages saved.tool_schemas saved.shared.outside)
            (λ w. record {
              messages = same.messages;
              turn_count = same.turn_count;
              state = refl;
              pending = same.pending;
              accum_text = same.accum_text;
            }))

  choose-Safe :
      (s : CoreState) (a b : Ran (Core J W))
      → Holds (Throws env) (λ _. Unit) a
      → Holds (Throws env) (λ _. Unit) b
      → Holds (Throws env) (λ _. Unit) (let r : Ran (Core J W) = elim s [ idle ↦ a | _ ↦ b ] in r)
  choose-Safe idle a b v w = v
  choose-Safe _ a b v w = w

  pub submit_goal-Safe :
      (goal : Bytes) (c : Core J W) → Holds (Throws env) (λ _. Unit) (submit_goal env goal c)
  unfolding submit_goal
  submit_goal-Safe goal c =
      let told =
        append_message env none (codes "user") goal [] []
          (build_tool_schemas env (open_goal env goal c)) in
      choose-Safe c.state (start_llm_request env told) (ended c)
        (Holds-map (Throws env) (Started told) (λ _. Unit) (start_llm_request env told)
          (start_llm_request-Started told) (λ d h. tt))
        tt

  -- the branch of a turn, once the outputs are answered
  execute_tools_branch :
      (c : Core J W) (pr : Progress J W)
      → 0 < length c.pending
      → c.turn_count < max_turns
      → answer_batches env (run_pending env c).0 (before_answers env c) ≡ some pr
      → execute_tools env c ≡ end_turn env pr
  unfolding execute_tools
  execute_tools_branch c pr h k ends =
      let early : leb max_turns c.turn_count ≡ false = ground arith in
      rw (is_empty_of_pos c.pending h, early, ends)

  -- With calls pending and turns left, `xExecuteTools` makes no read out of range, whatever the tools
  -- do. It adds the assistant's message with the calls and then one tool message to each call, under
  -- the ids of the calls in their order; it counts the turn, clears what was pending and starts the
  -- request to the model with that. It throws exactly when the request does, as on an answer that
  -- cannot be dumped; if the request starts, it returns, waits for the model, and keeps all that.
  pub execute_tools_lem :
      (c : Core J W)
      → 0 < length c.pending
      → c.turn_count < max_turns
      → (events : List Event) × (last : Core J W) × (execute_tools env c
          ≡ and_then (start_llm_request env last) (λ d. ended (events, d)))
        × TurnDone c last
        × Holds (Throws env) (Started last) (start_llm_request env last)
  unfolding execute_tools end_turn next_turn before_answers
  execute_tools_lem c some_pending turns_left =
      let count = length-shown_for c in
      let (pr, ends, done) =
        answer_batches-Answered env (run_pending env c).0 (before_answers env c) [] c.pending refl
          refl (omega (arith, count)) in
      let last = next_turn env pr.core in
      (
        pr.events,
        last,
        execute_tools_branch c pr some_pending turns_left ends,
        record {
          messages =
              done.messages
              ∙ append_assoc c.messages (assistant_message env c ∷ [])
                  (replies (shown_for c) c.pending);
          answered = count;
          turn_count = ap suc done.turn_count;
          pending = refl;
          accum_text = refl;
        },
        start_llm_request-Started last,
      )

  fail_goal-Kept :
      (message : Bytes) (c : Core J W)
      → ((fail_goal env message c).state ≡ idle)
        × ((fail_goal env message c).turn_count ≡ c.turn_count)
  unfolding fail_goal append_message
  fail_goal-Kept message c = ground arith

  -- At the limit of turns the goal is given up: the core is idle, no tool is run, and the text of the
  -- result has its prefix twice. The list of events is empty, so nothing that listens to the events
  -- learns that the goal has ended.
  pub execute_tools_limit :
      (c : Core J W)
      → 0 < length c.pending
      → max_turns ≤ c.turn_count
      → (execute_tools env c ≡ ended ([], fail_goal env (turn_error env) c))
        × ((fail_goal env (turn_error env) c).state ≡ idle)
        × ((fail_goal env (turn_error env) c).last_result ≡ codes "ERROR: " ++ turn_error env)
        × ((fail_goal env (turn_error env) c).messages ≡ c.messages)
  unfolding execute_tools fail_goal append_message
  execute_tools_limit c h k =
      let late : leb max_turns c.turn_count ≡ true = ground arith in
      (rw (is_empty_of_pos c.pending h, late), ground arith, ground arith, ground arith)
