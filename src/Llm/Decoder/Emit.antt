-- ===== src/Llm/Decoder/Emit.antt =====
-- The events that ResponseDecoder makes: `xEmitStart`, `xEmitChunk` and `xFlushText` of
-- src/llm/response_decoder.cpp.
use a.Base.{suc, Bool, true, not, ◌&&◌, [], ◌∷◌, ◌++◌, none, some, Bytes, is_empty, if◌then◌else◌}
use a.Shared.Events.{Event, llm_start, llm_chunk}
use a.Llm.Decoder.State.{Resources, Decoder}

abbrev pub push : {W : Type 0} → Event → Decoder W → Decoder W
push ev d = record d { events = d.events ++ ev ∷ [] }

module _ {W : Type 0} (res : Resources W) where
  -- xEmitStart
  unfoldable pub emit_start : Decoder W → Decoder W
  emit_start d =
      let made = res.create d.world in
      let opened =
        if d.has_provider
        then record d { writer = some made.0; stream_id = made.0; world = made.1 }
        else d in
      if d.start_emitted
      then d
      else push (llm_start opened.stream_id d.round_seq) (record opened { start_emitted = true })

  unfoldable pub append_to_writer : Bytes → Decoder W → Decoder W
  append_to_writer text d = elim d.writer [
    | none ↦ d
    | some id ↦ record d { world = res.append id text d.world }
  ]

  -- the body of xEmitChunk behind its guard
  unfoldable pub send_chunk : Bool → Decoder W → Decoder W
  unfolding append_to_writer
  send_chunk is_final d =
      let sent =
        push (llm_chunk d.stream_id (suc d.chunk_seq) d.text_buffer is_final)
          (record d { chunk_seq = suc d.chunk_seq }) in
      let kept = if is_empty d.text_buffer then sent else append_to_writer d.text_buffer sent in
      record kept { text_buffer = [] }

  unfoldable pub emit_chunk : Bool → Decoder W → Decoder W
  unfolding send_chunk emit_start
  emit_chunk is_final d =
      if is_empty d.text_buffer && not is_final then d else send_chunk is_final (emit_start d)

  unfoldable pub close_writer : Decoder W → Decoder W
  close_writer d = elim d.writer [ none ↦ d | some id ↦ record d { world = res.close id d.world } ]

  unfoldable pub flush_text : Bool → Decoder W → Decoder W
  unfolding emit_chunk close_writer
  flush_text is_final d =
      let sent = emit_chunk is_final d in
      if is_empty d.text_buffer && not is_final
      then d
      else if is_final
      then close_writer sent
      else sent
