-- ===== src/Llm/Decoder.antt =====
-- ResponseDecoder (src/llm/response_decoder.{h,cpp}). A type error of nlohmann::json leaves `feed` and
-- `events` as an exception, with the decoder as it was then; only parse errors are caught.
pub mod State
pub mod Emit
pub mod Process
pub mod Chunks
pub mod Stream
use a.Base.{
  ℕ, zero, suc, ◌+◌, Bool, true, false, not, ◌&&◌, List, [], ◌∷◌, ◌++◌, Option, none, some, Bytes,
  codes, is_empty, nat_eq, starts_with, if◌then◌else◌,
}
use a.Shared.Events.{Event, complete, error}
use a.Shared.Json.{Json}
use State.{Mode, unknown, sse, json_body, Resources, Decoder, Fed, fed, threw, ◌>>=◌, or_throw}
use Process.{process_chunk, flush_line, first_choice}

pub reset : {W : Type 0} → Decoder W → Decoder W
reset d = record d {
  buffer = [];
  text_buffer = [];
  mode = unknown;
  is_complete = false;
  accum_tool_calls = [];
  events = [];
  start_emitted = false;
  stream_id = 0;
  chunk_seq = 0;
  writer = none;
}

-- the mode, once there is one
detect : {W : Type 0} → Bytes → Decoder W → Decoder W
detect text d = elim d.mode [
  | unknown ↦ record d { mode = if starts_with (codes "data: ") text then sse else json_body }
  | _ ↦ d
]

module _ {J W : Type 0} (json : Json J) (res : Resources W) where
  -- one turn of the loop over the bytes in SSE mode
  feed_byte : ℕ → Decoder W → Fed W
  feed_byte c d =
      if nat_eq c 10
      then (flush_line json res d.buffer d >>= λ d'. fed (record d' { buffer = [] }))
      else fed (record d { buffer = d.buffer ++ c ∷ [] })

  unfoldable pub feed_bytes : Bytes → Decoder W → Fed W
  unfolding feed_byte
  feed_bytes [] d = fed d
  feed_bytes (c ∷ s) d = feed_byte c d >>= feed_bytes s

  feed_in : Mode → Bytes → Decoder W → Fed W
  feed_in sse text d = feed_bytes text d
  feed_in _ text d = fed (record d { buffer = d.buffer ++ text })

  unfoldable pub feed : Bytes → Decoder W → Fed W
  unfolding feed_in detect
  feed text d =
      let d' = detect text d in
      let read = feed_in d'.mode text d' in
      if d.is_complete then fed d else if is_empty text then fed d else read

  -- {"choices": [{"message": ..., "finish_reason": ...}]} of the first choice; `none` where it throws
  wrap_choice : J → Option J
  wrap_choice choice = elim (json.at (codes "message") choice) [
    | none ↦ none
    | some message ↦ elim (json.value_text choice (codes "finish_reason") (codes "stop")) [
      | none ↦ none
      | some reason ↦ some (
          json.set (codes "choices")
            (json.array (
              json.set (codes "finish_reason") (json.text reason)
                (json.set (codes "message") message json.object)
              ∷ []))
            json.object)
    ]
  ]

  add_event : Event → Decoder W → Decoder W
  add_event ev d = record d { events = d.events ++ ev ∷ [] }

  take_body : J → Decoder W → Fed W
  unfolding wrap_choice add_event
  take_body j d = elim (first_choice json res j) [
    | some choice ↦ or_throw (wrap_choice choice) d (λ wrapped. process_chunk json res wrapped d)
    | none ↦ or_throw (json.dump j) d (λ text. fed (add_event (complete 0 text) d))
  ]

  -- xFlushBuffer
  pub flush_buffer : Decoder W → Fed W
  unfolding take_body
  flush_buffer d =
      let body : Fed W = elim (json.parse d.buffer) [
        | none ↦
            fed (add_event (error (codes "decoder") 0 (codes "Failed to parse LLM response")) d)
        | some j ↦ take_body j d
      ] in
      if is_empty d.buffer
      then fed d
      else body >>= λ d'. fed (record d' { is_complete = true; buffer = [] })

  -- The events so far, which are taken out of the decoder.
  pub events : Decoder W → List Event × Fed W
  unfolding flush_buffer
  events d =
      let flushed : Fed W = elim d.mode [
        | json_body ↦ (if d.is_complete then fed d else flush_buffer d)
        | _ ↦ fed d
      ] in
      elim flushed [
        | fed d' ↦ (d'.events, fed (record d' { events = [] }))
        | threw d' ↦ ([], threw d')
      ]
