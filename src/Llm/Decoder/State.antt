-- ===== src/Llm/Decoder/State.antt =====
-- The state of the decoder, the writers of src/shared/resource_provider.h, and exceptions.
use a.Base.{ℕ, Bool, List, Option, none, some, Bytes, ℤ}
use a.Shared.Events.{Event}

pub data Mode : Type 0 where
  unknown sse json_body : Mode

pub record AccumToolCall : Type 0 where
  pub id : Bytes
  pub name : Bytes
  pub args : Bytes

-- `create`, `append` and `close` of the resource provider and its writers, by the id of a writer.
-- `visit` is the order in which the standard library walks the entries of the map of tool calls.
pub record Resources (W : Type 0) : Type 0 where
  pub create : W → ℕ × W
  pub append : ℕ → Bytes → W → W
  pub close : ℕ → W → W
  pub visit : List (ℤ × AccumToolCall) → List (ℤ × AccumToolCall)

pub record Decoder (W : Type 0) : Type 0 where
  pub buffer : Bytes
  pub mode : Mode
  pub is_complete : Bool
  pub has_provider : Bool
  pub writer : Option ℕ
  pub token_flush_size : ℕ
  pub stream_id : ℕ
  pub round_seq : ℕ
  pub chunk_seq : ℕ
  pub text_buffer : Bytes
  pub start_emitted : Bool
  pub accum_tool_calls : List (ℤ × AccumToolCall)
  pub events : List Event
  pub world : W

-- The end of a member function: by a return, or by an exception.
pub data Fed (W : Type 0) : Type 0 where
  fed threw : Decoder W → Fed W

infixl 5 ◌>>=◌
abbrev pub ◌>>=◌ : {W : Type 0} → Fed W → (Decoder W → Fed W) → Fed W
fed d >>= f = f d
threw d >>= f = threw d

-- a value that is read, or an exception
abbrev pub or_throw : {A W : Type 0} → Option A → Decoder W → (A → Fed W) → Fed W
or_throw none d k = threw d
or_throw (some a) d k = k a

-- the state of the decoder after the call, exception or not
abbrev pub after : {W : Type 0} → Fed W → Decoder W
after (fed d) = d
after (threw d) = d
