-- ===== src/Tests/Watch.antt =====
-- The supervisor and the core thread at concrete inputs.
use a.Base.{
  ◌⊎◌, ℕ, ◌≡◌, refl, true, List, [], ◌∷◌, ◌++◌, none, some, Bytes, codes, pos, bytes_eq, nat_key,
  lookup,
}
use a.Shared.Events.{Command, set_session, cancel, submit_goal, resume_session}
use a.Core.Thread.{Ports, Thread}
use a.Core.Thread.Replies.{Answered, Interrupted, handle_commands-Replies}
use a.Ipc.Message.{Message}
use a.Supervisor.{Net, Supervisor, AgentRecord, running, blank, int_key}
use a.Supervisor.Loop.{message, handle_agent}
use a.Supervisor.Owners.{handle_agent-owner}
use a.Tests.Toys.{Toy, toy_json, toy_env, core_with, two_calls}

abbrev ports : Ports ℕ
ports = record {
  persistence = some (record {
    load_sessions = λ limit w. [];
    find_session = λ uuid w. 4;
    load_messages = λ id w. [];
  });
  open_resource = none;
}

abbrev thread : Thread Bytes ℕ
thread = record { running = true; core = core_with 3 two_calls; sent = [] }

abbrev asked : List Command
asked =
    set_session 7 (codes "u") ∷ cancel ∷ submit_goal (codes "go") ∷ resume_session (codes "v") ∷ []

handle_commands-Replies_example :
    Answered toy_env ports asked thread ⊎ Interrupted toy_env ports asked thread
handle_commands-Replies_example = handle_commands-Replies toy_env ports asked thread

abbrev net : Net Toy (List ℕ)
net = record {
  send = λ fd msg w. (true, w ++ fd ∷ []);
  close_fd = λ fd w. w;
  emplace_builds = true;
  open_terminal = λ cwd id w. (pos 9, w);
  own_pid = pos 2;
}

abbrev agent : AgentRecord
agent = record {
  pid = pos 31;
  fd = 7;
  session_uuid = codes "u";
  state = running;
  connected_at = 1;
  last_heartbeat = 2;
}

abbrev watching : Supervisor (List ℕ)
watching = record {
  agents = (7, agent) ∷ [];
  agent_sockets = (7, 7) ∷ [];
  c2_socket = some 3;
  stream_owners = [];
  last_push = 0;
  world = [];
}

abbrev stream_data : Message Toy
stream_data = record (blank toy_json (codes "stream_data")) { stream_id = pos 5 }

handle_agent-owner_example :
    lookup (pos 5) (handle_agent toy_json net 7 (message stream_data) 6 watching).stream_owners
    ≡ some 7
unfolding blank bytes_eq lookup
handle_agent-owner_example =
    handle_agent-owner toy_json net (pos 5) 7 7 6 (message stream_data) watching refl
