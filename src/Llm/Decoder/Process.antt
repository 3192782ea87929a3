-- ===== src/Llm/Decoder/Process.antt =====
-- The parsing of one line and one chunk: `xFlushLine` and `xProcessJsonChunk` of
-- src/llm/response_decoder.cpp.
pub mod Modes
use a.Base.{
  int_eq, to_int, Bool, true, false, not, ◌||◌, List, [], ◌∷◌, ◌++◌, Option, none, some, Bytes,
  codes, ℤ, pos, leb, is_empty, length, bytes_eq, starts_with, drop, if◌then◌else◌,
}
use a.Shared.Events.{Event, llm_complete, tool_start, complete, error}
use a.Shared.Json.{Json}
use a.Llm.Decoder.State.{AccumToolCall, Resources, Decoder, Fed, fed, ◌>>=◌, or_throw}
use a.Llm.Decoder.Emit.{push, emit_chunk, flush_text}

-- what the map holds for an index, and the empty entry that [] makes
abbrev pub call_at : ℤ → List (ℤ × AccumToolCall) → AccumToolCall
call_at i [] = record { id = []; name = []; args = [] }
call_at i ((j, tc) ∷ rest) = if int_eq j i then tc else call_at i rest

abbrev pub store_call : ℤ → AccumToolCall → List (ℤ × AccumToolCall) → List (ℤ × AccumToolCall)
store_call i tc [] = (i, tc) ∷ []
store_call i tc ((j, other) ∷ rest) =
    if int_eq j i then (i, tc) ∷ rest else (j, other) ∷ store_call i tc rest

-- auto& acc = m_accumToolCalls[index]; set what is new, append the arguments
unfoldable pub accumulate : {W : Type 0} → ℤ → Bytes → Bytes → Bytes → Decoder W → Decoder W
accumulate index id name args d =
    let acc = call_at index d.accum_tool_calls in
    record d {
      accum_tool_calls =
          store_call index
            (record {
              id = if is_empty id then acc.id else id;
              name = if is_empty name then acc.name else name;
              args = acc.args ++ args;
            })
            d.accum_tool_calls;
    }

module _ {J W : Type 0} (json : Json J) (res : Resources W) where
  -- the text of an "error" value
  error_message : J → Option Bytes
  error_message e = elim (json.as_text e) [
    | some m ↦ some m
    | none ↦ elim (json.find e (codes "message")) [
      | none ↦ some (codes "API error")
      | some m ↦ if json.is_object e then json.as_text m else some (codes "API error")
    ]
  ]

  fail_with : Bytes → Decoder W → Decoder W
  fail_with message d =
      let flushed = flush_text res true d in
      record (push (error (codes "api") flushed.stream_id message) flushed) { is_complete = true }

  -- id, name and arguments of one tool call; `none` where `value` throws
  function_text : J → Bytes → Option Bytes
  function_text tc key = elim (json.find tc (codes "function")) [
    | none ↦ some []
    | some f ↦ json.value_text f key []
  ]

  emit_tool_call : J → Decoder W → Fed W
  unfolding function_text
  emit_tool_call tc d = or_throw (json.value_text tc (codes "id") []) d (λ id.
      or_throw (function_text tc (codes "name")) d (λ name.
        or_throw (function_text tc (codes "arguments")) d
          (λ args. fed (if is_empty name then d else push (tool_start 0 id name args) d))))

  emit_tool_calls : List J → Decoder W → Fed W
  unfolding emit_tool_call
  emit_tool_calls [] d = fed d
  emit_tool_calls (tc ∷ rest) d = emit_tool_call tc d >>= emit_tool_calls rest

  -- choice["message"][key], where it is there
  message_field : J → Bytes → Option J
  message_field choice key = elim (json.find choice (codes "message")) [
    | none ↦ none
    | some m ↦ json.find m key
  ]

  message_calls : J → List J
  unfolding message_field
  message_calls choice = elim (message_field choice (codes "tool_calls")) [
    | none ↦ []
    | some v ↦ elim (json.as_items v) [ none ↦ [] | some items ↦ items ]
  ]

  -- the text of a field that is there and not null
  unfoldable pub text_or_empty : Option J → Option Bytes
  text_or_empty none = some []
  text_or_empty (some v) = if json.is_null v then some [] else json.as_text v

  -- the branch for the finish reasons "stop" and "length"
  finish : Bytes → J → Decoder W → Fed W
  unfolding emit_tool_calls message_calls message_field text_or_empty
  finish reason choice d =
      let flushed = flush_text res true (record d { is_complete = true }) in
      emit_tool_calls (message_calls choice) (push (llm_complete flushed.stream_id reason) flushed)
      >>= λ d'.
          or_throw (text_or_empty (message_field choice (codes "content"))) d'
            (λ content. fed (push (complete 0 content) d'))

  -- streamed or whole text: buffered, and sent on at the threshold
  unfoldable pub take_content : J → Decoder W → Fed W
  unfolding text_or_empty
  take_content delta d = or_throw (text_or_empty (json.find delta (codes "content"))) d (λ text.
      let more = record d { text_buffer = d.text_buffer ++ text } in
      fed (
        if is_empty text
        then d
        else if leb d.token_flush_size (length more.text_buffer)
        then emit_chunk res false more
        else more))

  take_tool_call : J → Decoder W → Fed W
  unfolding function_text accumulate
  take_tool_call tc d = or_throw (json.value_int tc (codes "index") (pos 0)) d (λ index.
      or_throw (json.value_text tc (codes "id") []) d (λ id.
        or_throw (function_text tc (codes "name")) d (λ name.
          or_throw (function_text tc (codes "arguments")) d
            (λ args. fed (accumulate (to_int index) id name args d)))))

  take_tool_calls : List J → Decoder W → Fed W
  unfolding take_tool_call
  take_tool_calls [] d = fed d
  take_tool_calls (tc ∷ rest) d = take_tool_call tc d >>= take_tool_calls rest

  delta_calls : J → List J
  delta_calls delta = elim (json.find delta (codes "tool_calls")) [
    | none ↦ []
    | some v ↦ elim (json.as_items v) [ none ↦ [] | some items ↦ items ]
  ]

  -- the events of the accumulated calls that have a name
  named_calls : List (ℤ × AccumToolCall) → List Event
  named_calls [] = []
  named_calls ((index, tc) ∷ rest) =
      if is_empty tc.name
      then named_calls rest
      else tool_start 0 tc.id tc.name tc.args ∷ named_calls rest

  -- the finish reason "tool_calls", once the last delta is taken
  finish_tool_calls : Decoder W → Decoder W
  unfolding named_calls
  finish_tool_calls d =
      let flushed = flush_text res true d in
      let ended = push (llm_complete flushed.stream_id (codes "tool_calls")) flushed in
      push (complete 0 []) (record ended {
        events = ended.events ++ named_calls (res.visit ended.accum_tool_calls);
        accum_tool_calls = [];
      })

  -- delta, or else message; with neither the chunk ends here
  take_delta : Bool → J → Decoder W → Fed W
  unfolding take_content take_tool_calls delta_calls finish_tool_calls
  take_delta has_calls_finish choice d =
      let from = λ (delta : J). take_content delta d >>= λ d'.
      take_tool_calls (delta_calls delta) d' >>= λ d''.
      fed (if has_calls_finish then finish_tool_calls d'' else d'') in
      elim (json.find choice (codes "delta")) [
        | some delta ↦ from delta
        | none ↦ elim (json.find choice (codes "message")) [
          | some message ↦ from message
          | none ↦ fed d
        ]
      ]

  take_choice : J → Decoder W → Fed W
  unfolding finish take_delta text_or_empty
  take_choice choice d =
      or_throw (text_or_empty (json.find choice (codes "finish_reason"))) d (λ reason.
        let ends = take_delta true choice (record d { is_complete = true }) in
        if bytes_eq reason (codes "stop") || bytes_eq reason (codes "length")
        then finish reason choice d
        else if bytes_eq reason (codes "tool_calls")
        then ends
        else take_delta false choice d)

  -- choices[0], where "choices" is a list that is not empty
  unfoldable pub first_choice : J → Option J
  first_choice j = elim (json.find j (codes "choices")) [
    | none ↦ none
    | some v ↦ elim (json.as_items v) [
      | none ↦ none
      | some items ↦ elim items [ [] ↦ none | c ∷ _ ↦ some c ]
    ]
  ]

  unfoldable pub process_chunk : J → Decoder W → Fed W
  unfolding error_message fail_with take_choice first_choice
  process_chunk j d = elim (json.find j (codes "error")) [
    | some e ↦ or_throw (error_message e) d (λ message. fed (fail_with message d))
    | none ↦ elim (first_choice j) [ none ↦ fed d | some choice ↦ take_choice choice d ]
  ]

  -- the text behind "data: "
  take_payload : Bytes → Decoder W → Fed W
  unfolding process_chunk
  take_payload payload d = elim (json.parse payload) [ none ↦ fed d | some j ↦ process_chunk j d ]

  -- xFlushLine
  unfoldable pub flush_line : Bytes → Decoder W → Fed W
  unfolding take_payload
  flush_line line d =
      if is_empty line
      then fed d
      else if bytes_eq line (codes "data: [DONE]")
      then fed (flush_text res true (record d { is_complete = true }))
      else if not (starts_with (codes "data: ") line)
      then fed d
      else if is_empty (drop 6 line)
      then fed d
      else take_payload (drop 6 line) d
