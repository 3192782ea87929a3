-- ===== src/Llm/Decoder/Process/Modes.antt =====
-- No line of a response changes the mode of the decoder: `xFlushLine` of src/llm/response_decoder.cpp
-- and all that it calls.
use a.Base.{
  ◌≡◌, refl, ◌∙◌, Bool, true, false, not, ◌&&◌, List, [], ◌∷◌, Option, none, some, Bytes, codes,
  pos, if_elim, if◌then◌else◌, Option-cases, inl, inr, arith, is_empty, leb, length, bytes_eq,
  starts_with, drop, ◌||◌, ◌++◌,
}
use a.Shared.Json.{Json}
use a.Llm.Decoder.State.{Resources, Decoder, Fed, fed, threw, ◌>>=◌, or_throw, after}
use a.Shared.Events.{tool_start, llm_complete, complete}
use a.Llm.Decoder.Emit.{
  push, append_to_writer, emit_start, send_chunk, emit_chunk, close_writer, flush_text,
}
use a.Llm.Decoder.Process.{
  accumulate, error_message, fail_with, function_text, emit_tool_call, emit_tool_calls,
  message_calls, message_field, text_or_empty, finish, take_content, take_tool_call,
  take_tool_calls, delta_calls, finish_tool_calls, take_delta, take_choice, first_choice,
  process_chunk, take_payload, flush_line,
}

module _ {W : Type 0} where
  -- a call that leaves the mode as it was, exception or not
  pub record KeepsMode (d : Decoder W) (r : Fed W) : Type 0 where
    pub same : (after r).mode ≡ d.mode

  pub keeps-then :
      (d : Decoder W) (m : Fed W) (f : Decoder W → Fed W)
      → KeepsMode d m
      → ((e : Decoder W) → KeepsMode e (f e))
      → KeepsMode d (m >>= f)
  keeps-then d (fed e) f h k = record { same = (k e).same ∙ h.same }
  keeps-then d (threw e) f h k = record { same = h.same }

  keeps-or_throw :
      {A : Type 0} (d : Decoder W) (o : Option A) (k : A → Fed W)
      → ((a : A) → KeepsMode d (k a))
      → KeepsMode d (or_throw o d k)
  keeps-or_throw d none k h = record { same = refl }
  keeps-or_throw d (some a) k h = h a

module _ {J W : Type 0} (json : Json J) (res : Resources W) where
  emit_start-mode : (d : Decoder W) → (emit_start res d).mode ≡ d.mode
  unfolding emit_start
  emit_start-mode d = ground arith

  append_to_writer-mode :
      (text : Bytes) (d : Decoder W) → (append_to_writer res text d).mode ≡ d.mode
  unfolding append_to_writer
  append_to_writer-mode text d = ground arith

  send_chunk-mode : (is_final : Bool) (d : Decoder W) → (send_chunk res is_final d).mode ≡ d.mode
  unfolding send_chunk append_to_writer
  send_chunk-mode is_final d = ground arith

  emit_chunk-mode : (is_final : Bool) (d : Decoder W) → (emit_chunk res is_final d).mode ≡ d.mode
  unfolding emit_chunk
  emit_chunk-mode is_final d =
      if_elim (λ e. Decoder.mode e ≡ d.mode) (is_empty d.text_buffer && not is_final) d
        (send_chunk res is_final (emit_start res d)) (λ _. refl)
        (λ _. send_chunk-mode is_final (emit_start res d) ∙ emit_start-mode d)

  close_writer-mode : (d : Decoder W) → (close_writer res d).mode ≡ d.mode
  unfolding close_writer
  close_writer-mode d = ground arith

  flush_text-mode : (d : Decoder W) → (flush_text res true d).mode ≡ d.mode
  unfolding flush_text
  flush_text-mode d =
      if_elim (λ e. Decoder.mode e ≡ d.mode) (is_empty d.text_buffer && false) d
        (close_writer res (emit_chunk res true d)) (λ _. refl)
        (λ _. close_writer-mode (emit_chunk res true d) ∙ emit_chunk-mode true d)

  emit_tool_call-mode : (tc : J) (d : Decoder W) → KeepsMode d (emit_tool_call json res tc d)
  unfolding emit_tool_call
  emit_tool_call-mode tc d = elim (Option-cases (json.value_text tc (codes "id") [])) [
    | inl e ↦ rw (emit_tool_call, e) (record { same = refl })
    | inr (id, e) ↦ elim (Option-cases (function_text json res tc (codes "name"))) [
      | inl f ↦ rw (emit_tool_call, e, f) (record { same = refl })
      | inr (name, f) ↦ elim (Option-cases (function_text json res tc (codes "arguments"))) [
        | inl g ↦ rw (emit_tool_call, e, f, g) (record { same = refl })
        | inr (args, g) ↦
            rw (emit_tool_call, e, f, g)
              (record {
                same =
                    if_elim (λ r. Decoder.mode r ≡ d.mode) (is_empty name) d
                      (push (tool_start 0 id name args) d) (λ _. refl) (λ _. refl);
              })
      ]
    ]
  ]

  emit_tool_calls-mode :
      (tcs : List J) (d : Decoder W) → KeepsMode d (emit_tool_calls json res tcs d)
  unfolding emit_tool_calls
  emit_tool_calls-mode [] d = record { same = refl }
  emit_tool_calls-mode (tc ∷ rest) d =
      keeps-then d (emit_tool_call json res tc d) (emit_tool_calls json res rest)
        (emit_tool_call-mode tc d) (emit_tool_calls-mode rest)

  flushed : Decoder W → Decoder W
  flushed d = flush_text res true (record d { is_complete = true })

  finish-mode :
      (reason : Bytes) (choice : J) (d : Decoder W) → KeepsMode d (finish json res reason choice d)
  unfolding finish flushed
  finish-mode reason choice d =
      let begun = push (llm_complete (flushed d).stream_id reason) (flushed d) in
      let calls = emit_tool_calls json res (message_calls json res choice) begun in
      let content = text_or_empty json res (message_field json res choice (codes "content")) in
      keeps-then d calls (λ e. or_throw content e (λ text. fed (push (complete 0 text) e)))
        (record {
          same =
              (emit_tool_calls-mode (message_calls json res choice) begun).same
              ∙ flush_text-mode (record d { is_complete = true });
        })
        (λ e.
          keeps-or_throw e content (λ text. fed (push (complete 0 text) e))
            (λ text. record { same = refl }))

  take_content-mode : (delta : J) (d : Decoder W) → KeepsMode d (take_content json res delta d)
  unfolding take_content
  take_content-mode delta d =
      elim (Option-cases (text_or_empty json res (json.find delta (codes "content")))) [
        | inl e ↦ rw (take_content, e) (record { same = refl })
        | inr (text, e) ↦
            let more = record d { text_buffer = d.text_buffer ++ text } in
            let sent =
              if leb d.token_flush_size (length more.text_buffer)
              then emit_chunk res false more
              else more in
            rw (take_content, e)
              (record {
                same =
                    if_elim (λ r. Decoder.mode r ≡ d.mode) (is_empty text) d sent (λ _. refl)
                      (λ _.
                        if_elim (λ r. Decoder.mode r ≡ d.mode)
                          (leb d.token_flush_size (length more.text_buffer))
                          (emit_chunk res false more) more (λ _. emit_chunk-mode false more)
                          (λ _. refl));
              })
      ]

  take_tool_call-mode : (tc : J) (d : Decoder W) → KeepsMode d (take_tool_call json res tc d)
  unfolding take_tool_call accumulate
  take_tool_call-mode tc d = elim (Option-cases (json.value_int tc (codes "index") (pos 0))) [
    | inl n ↦ rw (take_tool_call, n) (record { same = refl })
    | inr (index, n) ↦ elim (Option-cases (json.value_text tc (codes "id") [])) [
      | inl e ↦ rw (take_tool_call, n, e) (record { same = refl })
      | inr (id, e) ↦ elim (Option-cases (function_text json res tc (codes "name"))) [
        | inl f ↦ rw (take_tool_call, n, e, f) (record { same = refl })
        | inr (name, f) ↦ elim (Option-cases (function_text json res tc (codes "arguments"))) [
          | inl g ↦ rw (take_tool_call, n, e, f, g) (record { same = refl })
          | inr (args, g) ↦ rw (take_tool_call, n, e, f, g) (record { same = refl })
        ]
      ]
    ]
  ]

  take_tool_calls-mode :
      (tcs : List J) (d : Decoder W) → KeepsMode d (take_tool_calls json res tcs d)
  unfolding take_tool_calls
  take_tool_calls-mode [] d = record { same = refl }
  take_tool_calls-mode (tc ∷ rest) d =
      keeps-then d (take_tool_call json res tc d) (take_tool_calls json res rest)
        (take_tool_call-mode tc d) (take_tool_calls-mode rest)

  finish_tool_calls-mode : (d : Decoder W) → (finish_tool_calls json res d).mode ≡ d.mode
  unfolding finish_tool_calls
  finish_tool_calls-mode d = flush_text-mode d

  take_delta-mode :
      (ends : Bool) (choice : J) (d : Decoder W) → KeepsMode d (take_delta json res ends choice d)
  unfolding take_delta
  take_delta-mode ends choice d =
      let from : (delta : J)
          → KeepsMode d (
              take_content json res delta d >>= λ d'.
              take_tool_calls json res (delta_calls json res delta) d' >>= λ d''.
              fed (if ends then finish_tool_calls json res d'' else d'')) =
        λ delta. keeps-then d _ _ (take_content-mode delta d) (λ e.
          keeps-then e _ _ (take_tool_calls-mode (delta_calls json res delta) e) (λ g. record {
            same =
                if_elim (λ h. Decoder.mode h ≡ g.mode) ends (finish_tool_calls json res g) g
                  (λ _. finish_tool_calls-mode g) (λ _. refl);
          })) in
      elim (Option-cases (json.find choice (codes "delta"))) [
        | inr (delta, e) ↦ rw (take_delta, e) (from delta)
        | inl e ↦ elim (Option-cases (json.find choice (codes "message"))) [
          | inr (message, m) ↦ rw (take_delta, e, m) (from message)
          | inl m ↦ rw (take_delta, e, m) (record { same = refl })
        ]
      ]

  take_choice-mode : (choice : J) (d : Decoder W) → KeepsMode d (take_choice json res choice d)
  unfolding take_choice
  take_choice-mode choice d =
      elim (Option-cases (text_or_empty json res (json.find choice (codes "finish_reason")))) [
        | inl e ↦ rw (take_choice, e) (record { same = refl })
        | inr (reason, e) ↦
            let closed = record d { is_complete = true } in
            let others =
              if bytes_eq reason (codes "tool_calls")
              then take_delta json res true choice closed
              else take_delta json res false choice d in
            rw (take_choice, e)
              (if_elim (KeepsMode d)
                (bytes_eq reason (codes "stop") || bytes_eq reason (codes "length"))
                (finish json res reason choice d) others (λ _. finish-mode reason choice d)
                (λ _.
                  if_elim (KeepsMode d) (bytes_eq reason (codes "tool_calls"))
                    (take_delta json res true choice closed) (take_delta json res false choice d)
                    (λ _. record { same = (take_delta-mode true choice closed).same })
                    (λ _. take_delta-mode false choice d)))
      ]

  process_chunk-mode : (j : J) (d : Decoder W) → KeepsMode d (process_chunk json res j d)
  unfolding process_chunk fail_with
  process_chunk-mode j d = elim (Option-cases (json.find j (codes "error"))) [
    | inr (e, there) ↦ elim (Option-cases (error_message json res e)) [
      | inl m ↦ rw (process_chunk, there, m) (record { same = refl })
      | inr (message, m) ↦ rw (process_chunk, there, m) (record { same = flush_text-mode d })
    ]
    | inl none_there ↦ elim (Option-cases (first_choice json res j)) [
      | inl no_choice ↦ rw (process_chunk, none_there, no_choice) (record { same = refl })
      | inr (choice, there) ↦ rw (process_chunk, none_there, there) (take_choice-mode choice d)
    ]
  ]

  take_payload-mode :
      (payload : Bytes) (d : Decoder W) → KeepsMode d (take_payload json res payload d)
  unfolding take_payload
  take_payload-mode payload d = elim (Option-cases (json.parse payload)) [
    | inl e ↦ rw (take_payload, e) (record { same = refl })
    | inr (j, e) ↦ rw (take_payload, e) (process_chunk-mode j d)
  ]

  pub flush_line-mode : (line : Bytes) (d : Decoder W) → KeepsMode d (flush_line json res line d)
  unfolding flush_line
  flush_line-mode line d =
      let done = record d { is_complete = true } in
      let still : KeepsMode d (fed d) = record { same = refl } in
      let payload =
        if is_empty (drop 6 line) then fed d else take_payload json res (drop 6 line) d in
      let behind = if not (starts_with (codes "data: ") line) then fed d else payload in
      if_elim (KeepsMode d) (is_empty line) (fed d)
        (if bytes_eq line (codes "data: [DONE]") then fed (flush_text res true done) else behind)
        (λ _. still)
        (λ _.
          if_elim (KeepsMode d) (bytes_eq line (codes "data: [DONE]"))
            (fed (flush_text res true done)) behind (λ _. record { same = flush_text-mode done })
            (λ _.
              if_elim (KeepsMode d) (not (starts_with (codes "data: ") line)) (fed d) payload
                (λ _. still)
                (λ _.
                  if_elim (KeepsMode d) (is_empty (drop 6 line)) (fed d)
                    (take_payload json res (drop 6 line) d) (λ _. still)
                    (λ _. take_payload-mode (drop 6 line) d))))
