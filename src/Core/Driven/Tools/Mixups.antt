-- ===== src/Core/Driven/Tools/Mixups.antt =====
-- Two ways in which the answers of a turn do not go to the calls that they belong to.
use a.Base.{
  ◌≡◌, refl, ap, ◌∙◌, true, false, List, [], ◌∷◌, ◌++◌, some, arith, Bytes, codes, starts_with,
  is_empty, length, ◌<◌,
}
use a.Shared.Events.{Event}
use a.Skills.Types.{ToolInvocation, returned, Manager}
use a.Executor.Graph.{reader, read_write, classify_tool, execute_batches, run_sequential}
use a.Executor.Graph.Batches.{build_batches_swaps}
use a.Executor.Graph.Execute.{execute_batch_single, run_sequential_second_fails}
use a.Core.Text.{sanitize_utf8, truncate_for_llm}
use a.Core.Driven.State.{PendingToolCall, Shared, Env, Core, ended, and_then}
use a.Core.Driven.{max_turns, start_llm_request}
use a.Core.Driven.Tools.{
  invocation_of, run_pending, execute_tools, assistant_message, tool_message, safe_output,
  has_error,
}
use a.Core.Driven.Tools.Answers.{shown_outputs, shown_batches, replies}
use a.Core.Driven.Tools.Turns.{execute_tools_lem}

-- the texts of two results without errors, the later call first
abbrev shown_two : Bytes → Bytes → List Bytes
shown_two out_a out_b = shown_batches (
    record { outputs = out_b ∷ []; errors = [] }
    ∷ record { outputs = out_a ∷ []; errors = [] }
    ∷ [])

shown_two_lem :
    {J : Type 0} (a b : PendingToolCall J) (out_a out_b : Bytes)
    → replies (shown_two out_a out_b) (a ∷ b ∷ [])
      ≡ tool_message (sanitize_utf8 (truncate_for_llm out_b)) a
        ∷ tool_message (sanitize_utf8 (truncate_for_llm out_a)) b
        ∷ []
unfolding shown_batches shown_outputs safe_output
shown_two_lem a b out_a out_b = refl

module _ {J W : Type 0} (env : Env J W) (m : Manager J (Shared W)) where
  swapped_batches :
      (c : Core J W) (a b : PendingToolCall J) (out_a out_b : Bytes) (s t : Shared W)
      → env.manager ≡ some m
      → c.pending ≡ a ∷ b ∷ []
      → classify_tool (invocation_of env c a).qualified_name ≡ read_write
      → classify_tool (invocation_of env c b).qualified_name ≡ reader
      → m.execute (invocation_of env c b) c.shared ≡ (returned out_b, s)
      → m.execute (invocation_of env c a) s ≡ (returned out_a, t)
      → starts_with (codes "ERROR:") out_a ≡ false
      → starts_with (codes "ERROR:") out_b ≡ false
      → (run_pending env c).0
        ≡ record { outputs = out_b ∷ []; errors = [] }
          ∷ record { outputs = out_a ∷ []; errors = [] }
          ∷ []
  unfolding run_pending execute_batches invocation_of
  swapped_batches c a b out_a out_b s t has calls ka kb rb ra fa fb = rw (
    calls,
    build_batches_swaps (invocation_of env c a) (invocation_of env c b) ka kb,
    execute_batch_single env.os env.manager 4 m (invocation_of env c b) c.shared s out_b has rb fb,
    execute_batch_single env.os env.manager 4 m (invocation_of env c a) s t out_a has ra fa,
  )

  -- The answers of a turn go to the wrong calls: where the model calls a read-write tool `a` and then
  -- a reader `b`, and both succeed, `b` runs first, and the output of `b` becomes the tool message
  -- under the id of `a`, and that of `a` the one under the id of `b`, in the messages of the request
  -- that the turn ends with.
  pub swapped_answers :
      (c : Core J W) (a b : PendingToolCall J) (out_a out_b : Bytes) (s t : Shared W)
      → env.manager ≡ some m
      → c.pending ≡ a ∷ b ∷ []
      → c.turn_count < max_turns
      → classify_tool (invocation_of env c a).qualified_name ≡ read_write
      → classify_tool (invocation_of env c b).qualified_name ≡ reader
      → m.execute (invocation_of env c b) c.shared ≡ (returned out_b, s)
      → m.execute (invocation_of env c a) s ≡ (returned out_a, t)
      → starts_with (codes "ERROR:") out_a ≡ false
      → starts_with (codes "ERROR:") out_b ≡ false
      → (events : List Event) × (last : Core J W) × (execute_tools env c
          ≡ and_then (start_llm_request env last) (λ d. ended (events, d)))
        × (last.messages
            ≡ c.messages
              ++ (assistant_message env c
                  ∷ tool_message (sanitize_utf8 (truncate_for_llm out_b)) a
                  ∷ tool_message (sanitize_utf8 (truncate_for_llm out_a)) b
                  ∷ []))
  swapped_answers c a b out_a out_b s t has calls turns ka kb rb ra fa fb =
      let two_calls : 0 < length c.pending = rw calls (omega arith) in
      let (events, last, ran, done, starts) = execute_tools_lem env c two_calls turns in
      let batches = swapped_batches c a b out_a out_b s t has calls ka kb rb ra fa fb in
      (
        events,
        last,
        ran,
        done.messages
            ∙ ap (λ r. c.messages ++ (assistant_message env c ∷ r))
                (ap (λ r. replies (shown_batches r) c.pending) batches
                  ∙ ap (replies (shown_two out_a out_b)) calls
                  ∙ shown_two_lem a b out_a out_b),
      )

error_not_empty : (text : Bytes) → starts_with (codes "ERROR:") text ≡ true → is_empty text ≡ false
unfolding starts_with
error_not_empty [] h = cc
error_not_empty (c ∷ text) h = refl

-- The errors of a batch go to the wrong calls: of two readers that run one after the other, the first
-- with a result and the second with an error, the first is shown, and reported as failed, with the
-- error of the second in front of its own output, and the second is reported as a success.
pub shifted_errors :
    {J W : Type 0} (env : Env J W) (m : Manager J (Shared W)) (x y : ToolInvocation J)
    (s t u : Shared W) (text failure : Bytes)
    → env.manager ≡ some m
    → m.execute x s ≡ (returned text, t)
    → m.execute y t ≡ (returned failure, u)
    → starts_with (codes "ERROR:") text ≡ false
    → starts_with (codes "ERROR:") failure ≡ true
    → let br = (run_sequential env.os env.manager (x ∷ y ∷ []) s).0 in
      (shown_outputs br 0 br.outputs
        ≡ sanitize_utf8 (truncate_for_llm (failure ++ (codes "\n" ++ text)))
          ∷ sanitize_utf8 (truncate_for_llm failure)
          ∷ [])
      × (has_error br 0 ≡ true)
      × (has_error br 1 ≡ false)
unfolding shown_outputs safe_output
shifted_errors env m x y s t u text failure has first second fine bad =
    let e =
      run_sequential_second_fails env.os env.manager m x y s t u text failure has first second fine
        bad in
    rw e (rw (error_not_empty failure bad) refl, rw (error_not_empty failure bad) refl, refl)
