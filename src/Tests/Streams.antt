-- ===== src/Tests/Streams.antt =====
-- The decoder of model responses at concrete inputs.
use a.Base.{bytes_eq, ℕ, suc, ◌≡◌, refl, true, false, [], ◌++◌, none, Bytes, codes, pos}
use a.Llm.Decoder.State.{Resources, Decoder, sse, fed}
use a.Llm.Decoder.Emit.{flush_text}
use a.Llm.Decoder.Process.{call_at, accumulate, take_content}
use a.Llm.Decoder.Chunks.{feed-append}
use a.Llm.Decoder.{feed, feed_bytes}
use a.Llm.Decoder.Stream.{
  tokens, text_so_far, accumulate_args, take_content_text, flush_text-tokens,
}
use a.Tests.Toys.{text, field, empty, toy_json}

abbrev store : Resources ℕ
store = record {
  create = λ w. (w, suc w);
  append = λ id text w. w;
  close = λ id w. w;
  visit = λ entries. entries;
}

abbrev decoder : Bytes → Decoder ℕ
decoder line = record {
  buffer = line;
  mode = sse;
  is_complete = false;
  has_provider = true;
  writer = none;
  token_flush_size = 4;
  stream_id = 0;
  round_seq = 0;
  chunk_seq = 0;
  text_buffer = [];
  start_emitted = false;
  accum_tool_calls = [];
  events = [];
  world = 1;
}

feed-append_example :
    ((decoder (codes "data: {")).mode ≡ sse)
    × (feed toy_json store (codes "data: {" ++ codes "}\n") (decoder [])
        ≡ feed toy_json store (codes "}\n") (decoder (codes "data: {")))
unfolding feed feed_bytes
feed-append_example =
    feed-append toy_json store (codes "data: {") (codes "}\n") (decoder [])
      (decoder (codes "data: {")) refl refl refl

take_content_text_example :
    (d' : Decoder ℕ) × (take_content toy_json store
        (field (codes "content") (text (codes "hello")) empty)
        (decoder [])
      ≡ fed d')
    × (text_so_far d' ≡ codes "hello")
unfolding bytes_eq
take_content_text_example =
    take_content_text toy_json store (field (codes "content") (text (codes "hello")) empty)
      (text (codes "hello")) (codes "hello") (decoder []) refl refl refl

abbrev with_text : Decoder ℕ
with_text = record (decoder []) { text_buffer = codes "rest" }

flush_text-tokens_example : tokens (flush_text store true with_text).events ≡ codes "rest"
flush_text-tokens_example = flush_text-tokens store with_text

accumulate_args_example :
    (call_at (pos 1) (accumulate (pos 1) [] [] (codes "{}") (decoder [])).accum_tool_calls).args
    ≡ codes "{}"
accumulate_args_example = accumulate_args (pos 1) (pos 1) [] [] (codes "{}") (decoder [])
