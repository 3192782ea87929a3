-- ===== src/Core/Driven/Results.antt =====
-- The result of a goal that the model answers with text.
use a.Base.{
  ℕ, ◌≡◌, refl, ap, sym, ◌∙◌, Bool, true, false, List, [], ◌∷◌, ◌++◌, arith, Bytes, append_assoc,
  append-nil, is_empty, every,
}
use a.Shared.Events.{Event, llm_chunk, tool_start, complete, error}
use a.Core.Text.{sanitize_utf8}
use a.Llm.Decoder.Stream.{token, tokens}
use a.Core.Driven.State.{idle, Env, Core, ended, and_then}
use a.Core.Driven.{
  append_message, finish_goal, handle_complete, handle_llm_event, handle_llm_events,
}

-- neither a tool call nor an end of the goal
unfoldable pub is_plain : Event → Bool
is_plain (tool_start _ _ _ _) = false
is_plain (complete _ _) = false
is_plain (error _ _ _) = false
is_plain _ = true

module _ {J W : Type 0} (env : Env J W) where
  with_text : Core J W → Bytes → Core J W
  with_text c text = record c { accum_text = text }

  plain_event :
      (ev : Event) (c : Core J W)
      → is_plain ev ≡ true
      → handle_llm_event env ev c ≡ ended (with_text c (c.accum_text ++ token ev))
  unfolding handle_llm_event is_plain with_text
  plain_event (llm_chunk _ _ text _) c h = refl
  plain_event (tool_start _ _ _ _) c h = cc
  plain_event (complete _ _) c h = cc
  plain_event (error _ _ _) c h = cc
  plain_event _ c h = ap (λ t. ended (record c { accum_text = t })) (sym (append-nil c.accum_text))

  -- events without a tool call or an end only add their texts
  plain_events :
      (evs rest : List Event) (c : Core J W)
      → every is_plain evs ≡ true
      → handle_llm_events env (evs ++ rest) c
        ≡ handle_llm_events env rest (with_text c (c.accum_text ++ tokens evs))
  unfolding handle_llm_events with_text
  plain_events [] rest c h =
      ap (λ t. handle_llm_events env rest (record c { accum_text = t }))
        (sym (append-nil c.accum_text))
  plain_events (ev ∷ evs) rest c h =
      ap (λ m. and_then m (handle_llm_events env (evs ++ rest))) (plain_event ev c (ground arith))
      ∙ plain_events evs rest (with_text c (c.accum_text ++ token ev)) (ground arith)
      ∙ ap (λ t. handle_llm_events env rest (record c { accum_text = t }))
          (append_assoc c.accum_text (token ev) (tokens evs))

  -- A response of the model that calls no tool finishes the goal: after any events but tool calls,
  -- ends and errors, with chunks of text among them, final ones too, a `Complete` returns without an
  -- exception where no tool call is pending and not all of the text is empty. The result is the
  -- sanitized text of all the chunks in order, after what was there; the pieces are gone from the core,
  -- which is idle, and the messages that the next request is made of are as they were, without the
  -- answer.
  pub streamed_result :
      (evs : List Event) (session_id : ℕ) (summary : Bytes) (c : Core J W)
      → every is_plain evs ≡ true
      → c.pending ≡ []
      → is_empty (c.accum_text ++ tokens evs) ≡ false
      → (d : Core J W) × (handle_llm_events env (evs ++ complete session_id summary ∷ []) c
          ≡ ended d)
        × (d.last_result ≡ sanitize_utf8 (c.accum_text ++ tokens evs))
        × (d.state ≡ idle)
        × (d.accum_text ≡ [])
        × (d.messages ≡ c.messages)
  unfolding handle_llm_events handle_llm_event handle_complete finish_goal append_message with_text
  streamed_result evs session_id summary c plain none_pending some_text =
      let text = c.accum_text ++ tokens evs in
      (
        finish_goal env text (with_text c text),
        plain_events evs (complete session_id summary ∷ []) c plain
            ∙ rw (handle_llm_events, handle_llm_event, handle_complete, none_pending, some_text)
                refl,
        ground arith,
        ground arith,
        ground arith,
        ground arith,
      )
