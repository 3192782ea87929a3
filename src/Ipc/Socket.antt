-- ===== src/Ipc/Socket.antt =====
-- `BufferedSocket` and `recvMessage` of src/ipc/ipc_protocol.{h,cpp}: the reading of messages from a
-- stream socket. What poll and recv answer is an argument of each call.
pub mod Framing
use a.Base.{
  ℕ, zero, suc, ◌+◌, Bool, true, false, List, [], ◌∷◌, ◌++◌, Option, none, some, Bytes, nat_eq, ltb,
  length, if◌then◌else◌,
}
use a.Shared.Json.{Json}
use a.Ipc.Message.{Message, Parsed, ok, deserialize}

-- `fd` is `none` for -1.
pub record BufferedSocket : Type 0 where
  pub fd : Option ℕ
  pub buffer : Bytes

pub data RecvResult (J : Type 0) : Type 0 where
  recv_ok : Message J → RecvResult J
  recv_again recv_err : RecvResult J

abbrev pub max_buffer : ℕ
max_buffer = 65536

-- What the system answers to one call: poll fails, times out, or the descriptor is readable, and then
-- recv fails or ends, or gives at most READ_CHUNK bytes.
pub data Ready : Type 0 where
  poll_failed timed_out recv_failed : Ready
  received : Bytes → Ready

abbrev pub before : ℕ → Option (Bytes × Bytes) → Option (Bytes × Bytes)
before c none = none
before c (some (l, rest)) = some (c ∷ l, rest)

-- m_buffer.find('\n'), substr and erase: the text before the first newline, and what is behind it
unfoldable pub cut_line : Bytes → Option (Bytes × Bytes)
cut_line [] = none
cut_line (c ∷ s) = if nat_eq c 10 then some ([], s) else before c (cut_line s)

-- The part of `recv` before `deserialize`: a line, or why there is none, and the buffer left.
pub data Got : Type 0 where
  line : Bytes → Got
  again failed : Got

scan : Bytes → Got × Bytes
scan buffer = elim (cut_line buffer) [ none ↦ (again, buffer) | some (l, rest) ↦ (line l, rest) ]

-- steps 3 to 5: append what is there, guard the size, look for a newline
take_chunk : Bytes → Bytes → Got × Bytes
unfolding scan
take_chunk buffer chunk =
    if ltb max_buffer (length (buffer ++ chunk)) then (failed, []) else scan (buffer ++ chunk)

poll_and_read : Bytes → Ready → Got × Bytes
unfolding take_chunk
poll_and_read buffer poll_failed = (failed, buffer)
poll_and_read buffer timed_out = (again, buffer)
poll_and_read buffer recv_failed = (failed, buffer)
poll_and_read buffer (received chunk) = take_chunk buffer chunk

-- step 1: a line that is in the buffer already is taken, and the socket is not read
unfoldable pub recv_line : Bytes → Ready → Got × Bytes
unfolding poll_and_read
recv_line buffer ready = elim (cut_line buffer) [
  | none ↦ poll_and_read buffer ready
  | some (l, rest) ↦ (line l, rest)
]

module _ {J : Type 0} (json : Json J) where
  answer_line : Got → RecvResult J
  answer_line (line l) = elim (deserialize json l) [ ok m ↦ recv_ok m | _ ↦ recv_err ]
  answer_line again = recv_again
  answer_line failed = recv_err

  pub recv : BufferedSocket → Ready → RecvResult J × BufferedSocket
  unfolding answer_line recv_line
  recv s ready = elim s.fd [
    | none ↦ (recv_err, s)
    | some fd ↦ (
      answer_line (recv_line s.buffer ready).0,
      record s { buffer = (recv_line s.buffer ready).1 },
    )
  ]

pub close : BufferedSocket → BufferedSocket
close s = record { fd = none; buffer = [] }

-- the descriptor is handed over, and what was buffered is dropped
pub release : BufferedSocket → Option ℕ × BufferedSocket
release s = (s.fd, record { fd = none; buffer = [] })

-- The answer to one round of `recvMessage`, which reads a byte at a time.
pub data ByteReady : Type 0 where
  byte_poll_failed byte_timed_out byte_recv_failed byte_closed : ByteReady
  byte : ℕ → ByteReady

-- The return codes of `recvMessage`: that of `deserialize`, -1, or -2 for a timeout.
pub data MessageResult (J : Type 0) : Type 0 where
  parsed : Parsed J → MessageResult J
  socket_error timeout : MessageResult J

module _ {J : Type 0} (json : Json J) where
  -- The loop over the answers of the socket; behind the last of them nothing more comes.
  pub recv_message : Bytes → List ByteReady → MessageResult J × List ByteReady
  recv_message buffer [] = (timeout, [])
  recv_message buffer (byte_poll_failed ∷ rest) = (socket_error, rest)
  recv_message buffer (byte_timed_out ∷ rest) = (timeout, rest)
  recv_message buffer (byte_recv_failed ∷ rest) = (socket_error, rest)
  recv_message buffer (byte_closed ∷ rest) = (socket_error, rest)
  recv_message buffer (byte c ∷ rest) =
      let more = recv_message (buffer ++ c ∷ []) rest in
      if nat_eq c 10 then (parsed (deserialize json buffer), rest) else more
