-- ===== src/Control/Registry/Reports.antt =====
-- What a connection, a report and a removal do to the registry of src/c2/b1_registry.cpp.
use a.Base.{
  ℕ, ◌≡◌, refl, List, Option, none, some, Bytes, if◌then◌else◌, arith, negsuc, lookup,
  lookup-insert, lookup-erase, nat_key, ◌==◌, eq_refl,
}
use a.Shared.Json.{Json}
use a.Control.Registry.{
  AgentSummary, B1Instance, Registry, returned, registry_of, announce, upsert_b1, update_agents,
  remove_b1,
}

module _ {J W : Type 0} (json : Json J) (sse : Option (Bytes → Bytes → W → W)) where
  unknown_lem :
      (pid : ℕ) (agents : List AgentSummary) (now : ℕ) (timestamp : Bytes) (b1s : Registry) (w : W)
      → lookup pid b1s ≡ none
      → update_agents json sse pid agents now timestamp b1s w ≡ returned (negsuc 0) b1s w
  unfolding update_agents
  unknown_lem pid agents now timestamp b1s w unknown = rw (update_agents, unknown) refl

  announce-registry :
      {A : Type 0} (event_type : Bytes) (j : J) (result : A) (b1s : Registry) (w : W)
      → registry_of (announce json sse event_type j result b1s w) ≡ b1s
  unfolding announce
  announce-registry event_type j result b1s w = ground arith

  -- An instance that connects again keeps its agents and the time of its first connection; the agents
  -- that it reports replace the ones known, without touching any other instance; and once an instance
  -- is removed, its report returns -1 and changes nothing. All this whether or not a broadcast throws.
  upsert_b1_lem :
      (pid q : ℕ) (workdir hostname timestamp : Bytes) (agents : List AgentSummary) (now : ℕ)
      (inst : B1Instance) (b1s : Registry) (w v : W)
      → lookup pid b1s ≡ some inst
      → (lookup pid (registry_of (upsert_b1 json sse pid workdir hostname now timestamp b1s w))
          ≡ some (record inst { workdir = workdir; hostname = hostname; last_update = now }))
        × (lookup q (registry_of (update_agents json sse pid agents now timestamp b1s w)) ≡ (
            if pid == q
            then some (record inst { agents = agents; last_update = now })
            else lookup q b1s))
        × (update_agents json sse pid agents now timestamp
              (registry_of (remove_b1 json sse pid timestamp b1s w))
              v
            ≡ returned (negsuc 0) (registry_of (remove_b1 json sse pid timestamp b1s w)) v)
  unfolding upsert_b1 remove_b1 lookup update_agents
  upsert_b1_lem pid q workdir hostname timestamp agents now inst b1s w v known =
      let gone : lookup pid (registry_of (remove_b1 json sse pid timestamp b1s w)) ≡ none =
        rw (remove_b1, known, announce-registry, lookup-erase pid pid b1s, eq_refl pid) refl in
      (
        rw (announce-registry, known, lookup-insert pid pid _ b1s, eq_refl pid) refl,
        rw (update_agents, known, announce-registry) (lookup-insert pid q _ b1s),
        unknown_lem pid agents now timestamp (registry_of (remove_b1 json sse pid timestamp b1s w))
            v gone,
      )
