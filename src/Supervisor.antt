-- ===== src/Supervisor.antt =====
-- Supervisor (src/b1/supervisor.cpp): the agents that b1 watches and the handlers of the messages it
-- passes between them and the control server. Sends, closes and new processes act on a world `W`.
pub mod Loop
pub mod Owners
pub mod Records
pub mod Tables
use a.Base.{
  ℕ, suc, ◌-◌, Bool, true, false, not, ◌&&◌, ◌||◌, List, [], ◌∷◌, ◌++◌, map, Option, none, some,
  Bytes, codes, ℤ, pos, negsuc, int_eq, int_eq_iff, is_empty, bytes_eq, leb, if◌then◌else◌, Key,
  nat_key, lookup, insert, erase,
}
use a.Shared.Json.{Json}
use a.Ipc.Message.{Message}

instance abbrev pub int_key : Key ℤ
int_key = record { same = int_eq; same_iff = int_eq_iff }

pub data AgentState : Type 0 where
  running crashed stopped : AgentState

pub record AgentRecord : Type 0 where
  pub pid : ℤ
  pub fd : ℕ
  pub session_uuid : Bytes
  pub state : AgentState
  pub connected_at : ℕ
  pub last_heartbeat : ℕ

-- A send succeeds or not. `emplace_builds` says whether `emplace` makes the new element before it looks
-- for the key, which the standard leaves open; `open_terminal` is the fork for a terminal.
pub record Net (J W : Type 0) : Type 0 where
  pub send : ℕ → Message J → W → Bool × W
  pub close_fd : ℕ → W → W
  pub emplace_builds : Bool
  pub open_terminal : Bytes → Bytes → W → ℤ × W
  pub own_pid : ℤ

-- `c2_socket` is none for a descriptor of -1. The sockets are the keys of `m_agentSockets`.
pub record Supervisor (W : Type 0) : Type 0 where
  pub agents : List (ℕ × AgentRecord)
  pub agent_sockets : List (ℕ × ℕ)
  pub c2_socket : Option ℕ
  pub stream_owners : List (ℤ × ℕ)
  pub last_push : ℕ
  pub world : W

-- A message with all fields at their defaults but its type.
unfoldable pub blank : {J : Type 0} → Json J → Bytes → Message J
blank json message_type = record {
  message_type = message_type;
  pid = pos 0;
  session_uuid = [];
  workdir = [];
  hostname = [];
  agents = json.null;
  status = [];
  error = [];
  reason = [];
  tool_call_id = [];
  prompt = [];
  stream_id = pos 0;
  chunk_seq = pos 0;
  chunk_direction = [];
  chunk_data = [];
  terminal_id = [];
  context_type = [];
  context_id = [];
  cwd = [];
}

pub find_agent_fd_by_session : Bytes → List (ℕ × AgentRecord) → Option ℕ
find_agent_fd_by_session session_uuid [] = none
find_agent_fd_by_session session_uuid ((fd, rec) ∷ rest) =
    let behind = find_agent_fd_by_session session_uuid rest in
    if bytes_eq rec.session_uuid session_uuid then some fd else behind

-- what waitpid says of one agent
abbrev pub reap : (ℤ → Bool) → AgentRecord → AgentRecord
reap reaped rec =
    let positive : Bool = elim rec.pid [ pos n ↦ leb 1 n | negsuc n ↦ false ] in
    if positive && reaped rec.pid then record rec { state = crashed } else rec

pub detect_crashes : (ℤ → Bool) → List (ℕ × AgentRecord) → List (ℕ × AgentRecord)
detect_crashes reaped [] = []
detect_crashes reaped ((fd, rec) ∷ rest) = (fd, reap reaped rec) ∷ detect_crashes reaped rest

state_text : AgentState → Bytes
state_text running = codes "running"
state_text crashed = codes "crashed"
state_text stopped = codes "stopped"

module _ {J W : Type 0} (json : Json J) (net : Net J W) where
  pub accept_agent : ℕ → ℕ → Supervisor W → Supervisor W
  accept_agent fd now s =
      let rec : AgentRecord = record {
        pid = pos 0;
        fd = fd;
        session_uuid = [];
        state = running;
        connected_at = now;
        last_heartbeat = 0;
      } in
      let known : Bool = elim (lookup fd s.agent_sockets) [ none ↦ false | some _ ↦ true ] in
      record s {
        agents = insert fd rec s.agents;
        agent_sockets = if known then s.agent_sockets else insert fd fd s.agent_sockets;
        world = if known && net.emplace_builds then net.close_fd fd s.world else s.world;
      }

  -- the socket of an agent closes its descriptor when it is erased, and the descriptor is closed again
  pub drop_agent : ℕ → Supervisor W → Supervisor W
  drop_agent fd s =
      let after : W = elim (lookup fd s.agent_sockets) [
        | none ↦ s.world
        | some _ ↦ net.close_fd fd s.world
      ] in
      record s {
        agents = erase fd s.agents;
        agent_sockets = erase fd s.agent_sockets;
        world = net.close_fd fd after;
      }

  close_c2 : ℕ → Supervisor W → Supervisor W
  close_c2 fd s = record s { c2_socket = none; world = net.close_fd fd s.world }

  pub send_to_c2 : Message J → Supervisor W → ℤ × Supervisor W
  unfolding close_c2
  send_to_c2 msg s = elim s.c2_socket [
    | none ↦ (negsuc 0, s)
    | some fd ↦
        let (went, after) = net.send fd msg s.world in
        let sent : Supervisor W = record s { world = after } in
        if went then (pos 0, sent) else (negsuc 0, close_c2 fd sent)
  ]

  pub handle_register : Message J → ℕ → ℕ → Supervisor W → ℤ × Supervisor W
  handle_register msg fd now s = elim (lookup fd s.agents) [
    | none ↦ (negsuc 0, s)
    | some rec ↦
        let updated : AgentRecord = record rec {
          pid = msg.pid;
          session_uuid = msg.session_uuid;
          fd = fd;
          state = running;
          last_heartbeat = now;
        } in
        let ack : Message J = record (blank json (codes "ack")) { status = codes "registered" } in
        (
          pos 0,
          record s { agents = insert fd updated s.agents; world = (net.send fd ack s.world).1 },
        )
  ]

  pub handle_heartbeat : ℕ → ℕ → Supervisor W → ℤ × Supervisor W
  handle_heartbeat fd now s = elim (lookup fd s.agents) [
    | none ↦ (negsuc 0, s)
    | some rec ↦
        (pos 0, record s { agents = insert fd (record rec { last_heartbeat = now }) s.agents })
  ]

  -- a failed send does not close the socket of the control server here
  pub handle_user_prompt : Message J → ℕ → Supervisor W → ℤ × Supervisor W
  handle_user_prompt msg fd s = elim s.c2_socket [
    | none ↦ (negsuc 0, s)
    | some c2 ↦
        let a0_pid : ℤ = elim (lookup fd s.agents) [ none ↦ pos 0 | some rec ↦ rec.pid ] in
        let fwd : Message J = record (blank json (codes "user_prompt")) {
          pid = a0_pid;
          session_uuid = msg.session_uuid;
          tool_call_id = msg.tool_call_id;
          prompt = msg.prompt;
        } in
        let (went, after) = net.send c2 fwd s.world in
        (if went then pos 0 else negsuc 0, record s { world = after })
  ]

  -- an agent that cannot be reached is erased, but its socket stays
  pub handle_prompt_reply : Message J → Supervisor W → ℤ × Supervisor W
  unfolding find_agent_fd_by_session
  handle_prompt_reply msg s = elim (find_agent_fd_by_session msg.session_uuid s.agents) [
    | none ↦ (negsuc 0, s)
    | some fd ↦
        let fwd : Message J = record (blank json (codes "prompt_reply")) {
          session_uuid = msg.session_uuid;
          tool_call_id = msg.tool_call_id;
        } in
        let (went, after) = net.send fd fwd s.world in
        if went
        then (pos 0, record s { world = after })
        else (negsuc 0, record s { agents = erase fd s.agents; world = net.close_fd fd after })
  ]

  pub handle_stream_data : Message J → ℕ → Supervisor W → ℤ × Supervisor W
  unfolding send_to_c2
  handle_stream_data msg fd s =
      send_to_c2 msg (record s { stream_owners = insert msg.stream_id fd s.stream_owners })

  pub handle_stream_end : Message J → Supervisor W → ℤ × Supervisor W
  unfolding send_to_c2
  handle_stream_end msg s =
      send_to_c2 msg (record s { stream_owners = erase msg.stream_id s.stream_owners })

  pub handle_stream_input : Message J → Supervisor W → ℤ × Supervisor W
  handle_stream_input msg s = elim (lookup msg.stream_id s.stream_owners) [
    | none ↦ (negsuc 0, s)
    | some fd ↦
        let (went, after) = net.send fd msg s.world in
        (if went then pos 0 else negsuc 0, record s { world = after })
  ]

  pub handle_terminal_open : Message J → Supervisor W → ℤ × Supervisor W
  handle_terminal_open msg s =
      let (pid, after) = net.open_terminal msg.cwd msg.terminal_id s.world in
      (
        elim pid [ pos n ↦ if leb 1 n then pos 0 else negsuc 0 | negsuc n ↦ negsuc 0 ],
        record s { world = after },
      )
