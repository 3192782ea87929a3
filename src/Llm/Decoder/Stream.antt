-- ===== src/Llm/Decoder/Stream.antt =====
-- The text and the tool calls of a response, and its end: src/llm/response_decoder.cpp.
use a.Base.{
  int_eq, int_eq_iff, suc, Bool, true, false, List, [], ◌∷◌, ◌++◌, some, Bytes, codes, arith,
  is_empty, ◌≡◌, refl, ap, sym, ◌∙◌, if◌then◌else◌, append_assoc, append-nil, ℤ, bytes_eq, length,
  leb,
}
use a.Shared.Json.{Json}
use a.Shared.Events.{Event, llm_start, llm_chunk}
use a.Llm.Decoder.{feed, feed_byte, feed_bytes}
use a.Llm.Decoder.Emit.{
  append_to_writer, emit_start, send_chunk, emit_chunk, close_writer, flush_text,
}
use a.Llm.Decoder.Process.{text_or_empty, call_at, store_call, accumulate, take_content, flush_line}
use a.Llm.Decoder.State.{Resources, Decoder, fed, AccumToolCall}

-- the text of an event of the stream
abbrev pub token : Event → Bytes
token (llm_chunk _ _ text _) = text
token _ = []

abbrev pub tokens : List Event → Bytes
tokens [] = []
tokens (ev ∷ rest) = token ev ++ tokens rest

tokens-append : (a b : List Event) → tokens (a ++ b) ≡ tokens a ++ tokens b
tokens-append [] b = refl
tokens-append (ev ∷ a) b =
    ap (λ t. token ev ++ t) (tokens-append a b)
    ∙ sym (append_assoc (token ev) (tokens a) (tokens b))

tokens_snoc : (a : List Event) (ev : Event) → tokens (a ++ ev ∷ []) ≡ tokens a ++ token ev
tokens_snoc a ev = tokens-append a (ev ∷ []) ∙ ap (λ t. tokens a ++ t) (append-nil (token ev))

-- all text that the decoder took so far: sent on in chunks, or still buffered
abbrev pub text_so_far : {W : Type 0} → Decoder W → Bytes
text_so_far d = tokens d.events ++ d.text_buffer

module _ {W : Type 0} (res : Resources W) where
  emit_start_text :
      (d : Decoder W)
      → (tokens (emit_start res d).events ≡ tokens d.events)
        × ((emit_start res d).text_buffer ≡ d.text_buffer)
  unfolding emit_start
  emit_start_text d = ground (
    arith,
    tokens_snoc d.events (llm_start d.stream_id d.round_seq),
    tokens_snoc d.events (llm_start (res.create d.world).0 d.round_seq),
    append-nil (tokens d.events),
  )

  send_chunk_text :
      (is_final : Bool) (d : Decoder W) → text_so_far (send_chunk res is_final d) ≡ text_so_far d
  unfolding send_chunk append_to_writer
  send_chunk_text is_final d =
      let ev = llm_chunk d.stream_id (suc d.chunk_seq) d.text_buffer is_final in
      ground (arith, tokens_snoc d.events ev, append-nil (tokens (d.events ++ ev ∷ [])))

  emit_chunk_text :
      (is_final : Bool) (d : Decoder W) → text_so_far (emit_chunk res is_final d) ≡ text_so_far d
  unfolding emit_chunk
  emit_chunk_text is_final d =
      ground (arith, send_chunk_text is_final (emit_start res d), emit_start_text d)

  -- The final flush sends all buffered text: after it the tokens of the events are all text so far.
  pub flush_text-tokens : (d : Decoder W) → tokens (flush_text res true d).events ≡ text_so_far d
  unfolding flush_text emit_chunk send_chunk close_writer
  flush_text-tokens d =
      ground (arith, emit_chunk_text true d, append-nil (tokens (emit_chunk res true d).events))

call_at-store_call :
    (i j : ℤ) (tc : AccumToolCall) (m : List (ℤ × AccumToolCall))
    → call_at j (store_call i tc m) ≡ (if int_eq i j then tc else call_at j m)
call_at-store_call i j tc [] = refl
call_at-store_call i j tc ((k, other) ∷ m) =
    ground (arith, int_eq_iff i j, int_eq_iff k j, int_eq_iff k i, call_at-store_call i j tc m)

-- Merging a piece of a streamed tool call into the map extends the arguments of its index by the
-- new piece and leaves those of every other index as they were.
pub accumulate_args :
    {W : Type 0} (i j : ℤ) (id name args : Bytes) (d : Decoder W)
    → (call_at j (accumulate i id name args d).accum_tool_calls).args
      ≡ (call_at j d.accum_tool_calls).args ++ (if int_eq i j then args else [])
unfolding accumulate
accumulate_args i j id name args d = ground (
  arith,
  call_at-store_call i j
      (record {
        id = if is_empty id then (call_at i d.accum_tool_calls).id else id;
        name = if is_empty name then (call_at i d.accum_tool_calls).name else name;
        args = (call_at i d.accum_tool_calls).args ++ args;
      })
      d.accum_tool_calls,
  int_eq_iff i j,
  append-nil (call_at j d.accum_tool_calls).args,
)

module _ {J W : Type 0} (json : Json J) (res : Resources W) where
  text_or_empty-some :
      (v : J) (text : Bytes)
      → json.is_null v ≡ false
      → json.as_text v ≡ some text
      → text_or_empty json res (some v) ≡ some text
  unfolding text_or_empty
  text_or_empty-some v text not_null is_text = ground arith

  -- A piece of text that the model streams is neither lost nor reordered: when the "content" of a
  -- delta is a text, the tokens that were sent on and the buffer hold, in order, what they held
  -- before and then that text, whether or not the buffer reached the threshold.
  pub take_content_text :
      (delta v : J) (text : Bytes) (d : Decoder W)
      → json.find delta (codes "content") ≡ some v
      → json.is_null v ≡ false
      → json.as_text v ≡ some text
      → (d' : Decoder W) × (take_content json res delta d ≡ fed d')
        × (text_so_far d' ≡ text_so_far d ++ text)
  unfolding take_content
  take_content_text delta v text d found not_null is_text =
      let more = record d { text_buffer = d.text_buffer ++ text } in
      let read : text_or_empty json res (json.find delta (codes "content")) ≡ some text =
        ap (text_or_empty json res) found ∙ text_or_empty-some v text not_null is_text in
      rw read (
        if is_empty text
            then d
            else if leb d.token_flush_size (length more.text_buffer)
            then emit_chunk res false more
            else more,
        refl,
        ground (
          arith,
          emit_chunk_text res false more,
          append_assoc (tokens d.events) d.text_buffer text,
          append-nil (text_so_far d),
        ),
      )

  -- The events depend on where the network cuts the response: a decoder that is complete, in SSE
  -- mode, between lines and with its start sent ignores the line that marks the end of the stream if
  -- it is a chunk of its own, but in the chunk that completed it the same line makes one more final
  -- chunk event.
  done_after_complete :
      (d : Decoder W)
      → let d' = record d { buffer = []; is_complete = true; start_emitted = true } in
        (feed json res (codes "data: [DONE]" ++ 10 ∷ []) d' ≡ fed d')
        × ((d'' : Decoder W) × (feed_bytes json res (codes "data: [DONE]" ++ 10 ∷ []) d' ≡ fed d'')
            × (d''.events
                ≡ d.events ++ llm_chunk d.stream_id (suc d.chunk_seq) d.text_buffer true ∷ []))
  unfolding feed feed_bytes feed_byte flush_line flush_text emit_chunk send_chunk close_writer
      emit_start append_to_writer bytes_eq
  done_after_complete d = (refl, (_, refl, ground arith))
