-- ===== src/Supervisor/Loop.antt =====
-- The loop of the supervisor: `run` of src/b1/supervisor.cpp, a round over what its poll, accept and
-- recv found out.
use a.Base.{
  ℕ, ◌-◌, Bool, List, [], ◌∷◌, map, Option, none, some, codes, ℤ, bytes_eq, leb, if◌then◌else◌,
  nat_key, lookup,
}
use a.Shared.Json.{Json}
use a.Ipc.Message.{Message}
use a.Supervisor.{
  Net, Supervisor, AgentRecord, blank, detect_crashes, state_text, close_c2, send_to_c2,
  handle_register, handle_heartbeat, handle_user_prompt, handle_prompt_reply, handle_stream_data,
  handle_stream_end, handle_stream_input, handle_terminal_open, drop_agent, accept_agent,
}

-- what one poll found out about the socket of an agent or of the control server
pub data Heard (J : Type 0) : Type 0 where
  hung_up failed silent : Heard J
  message : Message J → Heard J

-- `accepted` is the descriptor of a new connection, and `agents` are those of the poll in its order.
pub record Round (J : Type 0) : Type 0 where
  pub accepted : Option ℕ
  pub c2 : Heard J
  pub agents : List (ℕ × Heard J)
  pub reaped : ℤ → Bool
  pub now : ℕ

module _ {J W : Type 0} (json : Json J) (net : Net J W) where
  unfoldable pub handle_c2_message : Message J → Supervisor W → Supervisor W
  unfolding handle_prompt_reply handle_stream_input handle_terminal_open
  handle_c2_message msg s =
      if bytes_eq msg.message_type (codes "prompt_reply")
      then (handle_prompt_reply json net msg s).1
      else if bytes_eq msg.message_type (codes "stream_input")
      then (handle_stream_input json net msg s).1
      else if bytes_eq msg.message_type (codes "terminal_open")
      then (handle_terminal_open json net msg s).1
      else s

  -- the part of the loop for the control server
  unfoldable pub handle_c2 : Heard J → Supervisor W → Supervisor W
  unfolding close_c2 handle_c2_message
  handle_c2 silent s = s
  handle_c2 (message msg) s = elim s.c2_socket [ none ↦ s | some fd ↦ handle_c2_message msg s ]
  handle_c2 _ s = elim s.c2_socket [ none ↦ s | some fd ↦ close_c2 json net fd s ]

  unfoldable pub handle_agent_message : Message J → ℕ → ℕ → Supervisor W → Supervisor W
  unfolding handle_register handle_heartbeat handle_user_prompt handle_stream_data handle_stream_end
  handle_agent_message msg fd now s =
      if bytes_eq msg.message_type (codes "register")
      then (handle_register json net msg fd now s).1
      else if bytes_eq msg.message_type (codes "heartbeat")
      then (handle_heartbeat json net fd now s).1
      else if bytes_eq msg.message_type (codes "user_prompt")
      then (handle_user_prompt json net msg fd s).1
      else if bytes_eq msg.message_type (codes "stream_data")
      then (handle_stream_data json net msg fd s).1
      else if bytes_eq msg.message_type (codes "stream_end")
      then (handle_stream_end json net msg s).1
      else if bytes_eq msg.message_type (codes "terminal_ready")
      then (send_to_c2 json net msg s).1
      else s

  -- the part of the loop for one agent; a descriptor without a socket is passed over unless it hung up
  unfoldable pub handle_agent : ℕ → Heard J → ℕ → Supervisor W → Supervisor W
  unfolding drop_agent handle_agent_message
  handle_agent fd hung_up now s = drop_agent json net fd s
  handle_agent fd silent now s = s
  handle_agent fd failed now s = elim (lookup fd s.agent_sockets) [
    | none ↦ s
    | some _ ↦ drop_agent json net fd s
  ]
  handle_agent fd (message msg) now s = elim (lookup fd s.agent_sockets) [
    | none ↦ s
    | some _ ↦ handle_agent_message msg fd now s
  ]

  unfoldable pub handle_agents : List (ℕ × Heard J) → ℕ → Supervisor W → Supervisor W
  handle_agents [] now s = s
  handle_agents ((fd, heard) ∷ rest) now s = handle_agents rest now (handle_agent fd heard now s)

  agent_json : AgentRecord → J
  unfolding state_text
  agent_json rec = json.set (codes "state") (json.text (state_text rec.state)) (
      json.set (codes "session") (json.text rec.session_uuid)
        (json.set (codes "pid") (json.int rec.pid) json.object))

  records : List (ℕ × AgentRecord) → List AgentRecord
  records [] = []
  records ((fd, rec) ∷ rest) = rec ∷ records rest

  unfoldable pub push_snapshot : Supervisor W → ℤ × Supervisor W
  unfolding send_to_c2 agent_json records
  push_snapshot s =
      send_to_c2 json net
        (record (blank json (codes "update")) {
          pid = net.own_pid;
          agents = json.array (map agent_json (records s.agents));
        })
        s

  -- every five seconds, while there is a control server
  unfoldable pub push_if_due : ℕ → Supervisor W → Supervisor W
  unfolding push_snapshot
  push_if_due now s =
      let pushed = record (push_snapshot s).1 { last_push = now } in
      elim s.c2_socket [ none ↦ s | some _ ↦ if leb 5 (now - s.last_push) then pushed else s ]

  -- one round of the loop, with what its poll found out and the time that it ends at
  unfoldable pub round : Round J → Supervisor W → Supervisor W
  unfolding handle_c2 handle_agents push_if_due
  round r s =
      let accepted : Supervisor W = elim r.accepted [
        | none ↦ s
        | some fd ↦ accept_agent json net fd r.now s
      ] in
      let heard = handle_agents r.agents r.now (handle_c2 r.c2 accepted) in
      push_if_due r.now (record heard { agents = detect_crashes r.reaped heard.agents })
