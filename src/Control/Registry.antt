-- ===== src/Control/Registry.antt =====
-- B1Registry (src/c2/b1_registry.cpp). A process id is a natural number, and a time of the steady
-- clock is in seconds; the text of the system clock is an argument.
pub mod Pruning
pub mod Reports
use a.Base.{
  ℕ, suc, ◌+◌, ◌-◌, ◌≡◌, refl, Bool, true, false, not, ◌||◌, List, [], ◌∷◌, Option, none, some,
  Bytes, codes, length, select, every, ltb, bytes_eq, if◌then◌else◌, arith, ℤ, pos, negsuc, lookup,
  insert, erase, lookup-insert, lookup-erase, nat_key, ◌==◌, eq_refl, Bool-cases, Option-cases, inl,
  inr,
}
use a.Shared.Json.{Json}

pub record AgentSummary : Type 0 where
  pub pid : ℕ
  pub session_uuid : Bytes
  pub state : Bytes
  pub connected_at : ℕ
  pub last_heartbeat : ℕ

pub record B1Instance : Type 0 where
  pub pid : ℕ
  pub workdir : Bytes
  pub hostname : Bytes
  pub connected_at : ℕ
  pub last_update : ℕ
  pub agents : List AgentSummary

abbrev pub Registry : Type 0
Registry = List (ℕ × B1Instance)

pub list_b1s : Registry → List B1Instance
list_b1s [] = []
list_b1s ((_, inst) ∷ b1s) = inst ∷ list_b1s b1s

pub record Stats : Type 0 where
  pub total_b1s : ℕ
  pub total_agents : ℕ
  pub crashed_count : ℕ

abbrev is_crashed : AgentSummary → Bool
is_crashed agent = bytes_eq agent.state (codes "crashed")

count_agents : Registry → ℕ
count_agents [] = 0
count_agents ((_, inst) ∷ b1s) = length inst.agents + count_agents b1s

count_crashed : Registry → ℕ
count_crashed [] = 0
count_crashed ((_, inst) ∷ b1s) = length (select is_crashed inst.agents) + count_crashed b1s

pub get_stats : Registry → Stats
unfolding count_agents count_crashed
get_stats b1s = record {
  total_b1s = length b1s;
  total_agents = count_agents b1s;
  crashed_count = count_crashed b1s;
}

-- How a call ended: by a return with its value and the registry, or by the exception of `dump`.
pub data Called (A W : Type 0) : Type 0 where
  returned : A → Registry → W → Called A W
  threw : Registry → W → Called A W

abbrev pub registry_of : {A W : Type 0} → Called A W → Registry
registry_of (returned _ b1s w) = b1s
registry_of (threw b1s w) = b1s

-- `m_sse` is a null pointer, or broadcasts an event of a kind with its data over a world `W`.
module _ {J W : Type 0} (json : Json J) (sse : Option (Bytes → Bytes → W → W)) where
  announce : {A : Type 0} → Bytes → J → A → Registry → W → Called A W
  announce event_type j result b1s w = elim sse [
    | none ↦ returned result b1s w
    | some broadcast ↦ elim (json.dump j) [
      | none ↦ threw b1s w
      | some data_json ↦ returned result b1s (broadcast event_type data_json w)
    ]
  ]

  unfoldable pub instance_json : ℕ → Bytes → Bytes → Bytes → J
  instance_json pid workdir hostname timestamp =
      json.set (codes "timestamp") (json.text timestamp) (
        json.set (codes "hostname") (json.text hostname) (
          json.set (codes "workdir") (json.text workdir)
            (json.set (codes "pid") (json.int (pos pid)) json.object)))

  pub upsert_b1 : ℕ → Bytes → Bytes → ℕ → Bytes → Registry → W → Called ℤ W
  unfolding announce
  upsert_b1 pid workdir hostname now timestamp b1s w =
      announce (codes "b1_connected") (instance_json pid workdir hostname timestamp) (pos 0)
        (insert pid
          (elim (lookup pid b1s) [
            | some inst ↦ record inst { workdir = workdir; hostname = hostname; last_update = now }
            | none ↦ record {
              pid = pid;
              workdir = workdir;
              hostname = hostname;
              connected_at = now;
              last_update = now;
              agents = [];
            }
          ])
          b1s)
        w

  pub remove_b1 : ℕ → Bytes → Registry → W → Called ℤ W
  unfolding announce
  remove_b1 pid timestamp b1s w = elim (lookup pid b1s) [
    | none ↦ returned (negsuc 0) b1s w
    | some inst ↦
        announce (codes "b1_disconnected") (instance_json pid inst.workdir inst.hostname timestamp)
          (pos 0) (erase pid b1s) w
  ]

  agents_json : List AgentSummary → List J
  agents_json [] = []
  agents_json (a ∷ agents) =
      json.set (codes "state") (json.text a.state) (
        json.set (codes "session") (json.text a.session_uuid)
          (json.set (codes "pid") (json.int (pos a.pid)) json.object))
      ∷ agents_json agents

  pub update_agents : ℕ → List AgentSummary → ℕ → Bytes → Registry → W → Called ℤ W
  unfolding announce agents_json
  update_agents pid agents now timestamp b1s w = elim (lookup pid b1s) [
    | none ↦ returned (negsuc 0) b1s w
    | some inst ↦
        announce (codes "agent_update")
          (json.set (codes "agents") (json.array (agents_json agents)) (
            json.set (codes "timestamp") (json.text timestamp)
              (json.set (codes "pid") (json.int (pos pid)) json.object)))
          (pos 0) (insert pid (record inst { agents = agents; last_update = now }) b1s) w
  ]

  -- the age in seconds is above the limit
  unfoldable pub is_stale : ℕ → ℕ → ℕ × B1Instance → Bool
  is_stale max_age now e = ltb max_age (now - e.1.last_update)

  unfoldable pub stale_json : Bytes → ℕ × B1Instance → J
  stale_json timestamp e =
      json.set (codes "reason") (json.text (codes "stale"))
        (instance_json e.1.pid e.1.workdir e.1.hostname timestamp)

  -- an instance that stays, before what the rest of the loop leaves
  keep : ℕ × B1Instance → Called ℕ W → Called ℕ W
  keep e (returned removed b1s w) = returned removed (e ∷ b1s) w
  keep e (threw b1s w) = threw (e ∷ b1s) w

  count_one : Called ℕ W → Called ℕ W
  count_one (returned removed b1s w) = returned (suc removed) b1s w
  count_one (threw b1s w) = threw b1s w

  -- erase and go on, unless the broadcast threw: then this instance and the others stay
  erase_after : ℕ × B1Instance → Called Unit W → Registry → (W → Called ℕ W) → Called ℕ W
  unfolding count_one
  erase_after e (returned _ _ w) b1s rest = count_one (rest w)
  erase_after e (threw _ w) b1s rest = threw (e ∷ b1s) w

  pub prune_stale : ℕ → ℕ → Bytes → Registry → W → Called ℕ W
  unfolding keep erase_after announce
  prune_stale max_age now timestamp [] w = returned 0 [] w
  prune_stale max_age now timestamp (e ∷ b1s) w =
      let kept = keep e (prune_stale max_age now timestamp b1s w) in
      let erased =
        erase_after e (announce (codes "b1_disconnected") (stale_json timestamp e) tt b1s w) b1s
          (prune_stale max_age now timestamp b1s) in
      if is_stale max_age now e then erased else kept
