-- ===== src/Tests/Wire.antt =====
-- Messages between processes at concrete inputs.
use a.Base.{◌≡◌, refl, true, [], ◌∷◌, ◌++◌, Bytes, codes, pos, bytes_eq, is_zero}
use a.Shared.Json.{no_newline}
use a.Ipc.Message.{Message, ok, serialize, deserialize}
use a.Ipc.Message.RoundTrip.{deserialize-serialize}
use a.Ipc.Socket.{received, cut_line, recv_line}
use a.Ipc.Socket.Framing.{taken, Session, split_lines, Session-split_lines}
use a.Tests.Toys.{Toy, null, dump, toy_json, toy-Laws}

abbrev ping : Message Toy
ping = record {
  message_type = codes "ping";
  pid = pos 0;
  session_uuid = codes "s1";
  workdir = [];
  hostname = [];
  agents = null;
  status = [];
  error = [];
  reason = [];
  tool_call_id = [];
  prompt = [];
  stream_id = pos 0;
  chunk_seq = pos 0;
  chunk_direction = [];
  chunk_data = [];
  terminal_id = [];
  context_type = [];
  context_id = [];
  cwd = [];
}

deserialize-serialize_example :
    (line : Bytes) × (codes "s1\n" ≡ line ++ codes "\n")
    × (no_newline line ≡ true)
    × (deserialize toy_json line ≡ ok ping)
unfolding serialize dump bytes_eq is_zero
deserialize-serialize_example = deserialize-serialize toy_json toy-Laws ping (codes "s1\n") refl

-- "ab\nc" arrives in two pieces
first_piece : Session (codes "a") [] (codes "a")
unfolding recv_line cut_line taken
first_piece = Session.waited (received (codes "a")) (codes "a") Session.opened refl

both_pieces : Session (codes "ab\nc") (codes "ab" ∷ []) (codes "c")
unfolding recv_line cut_line taken
both_pieces = Session.delivered (received (codes "b\nc")) (codes "ab") (codes "c") first_piece refl

Session-split_lines_example :
    split_lines (codes "ab\nc")
    ≡ (codes "ab" ∷ [] ++ (split_lines (codes "c")).0, (split_lines (codes "c")).1)
Session-split_lines_example = Session-split_lines both_pieces
