-- ===== src/Tests/Servers.antt =====
-- The control server, the replay and the protection of containers at concrete inputs.
use a.Base.{
  ℕ, ◌+◌, ◌≡◌, refl, false, not, List, [], ◌∷◌, ◌++◌, none, Bytes, codes, pos, nat_eq, nat_key,
}
use a.Executor.Runner.{CommandResult}
use a.Persistence.Replay.{Message, replay, replay_to, replay_to-replay}
use a.Control.Sse.{SseManager, Connections}
use a.Control.Registry.{B1Instance, Registry, returned, prune_stale, is_stale}
use a.Control.Registry.Pruning.{prune_stale_lem}
use a.Tests.Toys.{toy_json}

abbrev protected : List Bytes
protected = codes "db" ∷ []

-- half of the connections are broken
abbrev net : Connections (List ℕ)
net = record { send = λ c text w. (not (nat_eq c 2), w ++ c ∷ []) }

abbrev three_clients : SseManager (List ℕ)
three_clients = record { clients = 1 ∷ 2 ∷ 3 ∷ []; next_id = 4; world = [] }

abbrev b1 : ℕ → ℕ → B1Instance
b1 pid last = record {
  pid = pid;
  workdir = codes "/w";
  hostname = codes "h";
  connected_at = 0;
  last_update = last;
  agents = [];
}

abbrev two_b1s : Registry
two_b1s = (1, b1 1 10) ∷ (2, b1 2 90) ∷ []

prune_stale_lem_example :
    (removed : ℕ) × ((v : ℕ) × (prune_stale toy_json none 60 100 (codes "100") two_b1s 0
        ≡ returned removed ((2, b1 2 90) ∷ []) v)
      × (removed + 1 ≡ 2))
unfolding is_stale
prune_stale_lem_example = prune_stale_lem toy_json none 60 100 (codes "100") two_b1s 0 refl

-- a command prints its own text
abbrev run : Bytes → ℕ → CommandResult × ℕ
run cmd w = (record { stdout = cmd; stderr = []; exit_code = pos 0; timed_out = false }, w + 1)

abbrev message : ℕ → Bytes → Bytes → Message
message id name result = record { id = id; role = codes "tool"; name = name; result_json = result }

replay_to-replay_example :
    replay_to run 5
      (message 4 (codes "ls") (codes "ls") ∷ [] ++ message 6 (codes "rm") (codes "gone") ∷ [])
      0
    ≡ replay run (message 4 (codes "ls") (codes "ls") ∷ []) 0
replay_to-replay_example =
    replay_to-replay run 5 (message 4 (codes "ls") (codes "ls")) [] []
      (message 6 (codes "rm") (codes "gone")) 0 refl refl
