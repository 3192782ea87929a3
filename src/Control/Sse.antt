-- ===== src/Control/Sse.antt =====
-- SseManager (src/c2/sse_manager.cpp): each call runs under the mutex, so it is one step.
use a.Base.{
  ℕ, suc, ◌≡◌, refl, ap, sym, ◌∙◌, Bool, not, List, [], ◌∷◌, ◌++◌, Bytes, codes, is_empty, length,
  select, nat_eq, if◌then◌else◌, arith, nat_key,
}

-- m_clients by id, m_nextId, and what the clients' connections have seen
pub record SseManager (W : Type 0) : Type 0 where
  pub clients : List ℕ
  pub next_id : ℕ
  pub world : W

-- `send` of a client, which may throw (`false`)
pub record Connections (W : Type 0) : Type 0 where
  pub send : ℕ → Bytes → W → Bool × W

pub payload : Bytes → Bytes → Bytes → Bytes
payload event_type data_json id =
    (if not (is_empty id) then codes "id: " ++ id ++ codes "\n" else [])
    ++ codes "event: "
    ++ event_type
    ++ codes "\n"
    ++ codes "data: "
    ++ data_json
    ++ codes "\n\n"

module _ {W : Type 0} where
  pub add_client : SseManager W → ℕ × SseManager W
  add_client s =
      (s.next_id, record s { clients = s.clients ++ s.next_id ∷ []; next_id = suc s.next_id })

  pub remove_client : ℕ → SseManager W → SseManager W
  remove_client id s = record s { clients = select (λ c. not (nat_eq c id)) s.clients }

  pub client_count : SseManager W → ℕ
  client_count s = length s.clients

  module _ (net : Connections W) where
    -- the loop of `broadcast`: the count, the clients kept, and the world
    send_each : Bytes → List ℕ → W → ℕ × (List ℕ × W)
    send_each text [] w = (0, ([], w))
    send_each text (c ∷ cs) w =
        let sent = net.send c text w in
        let rest = send_each text cs sent.1 in
        if sent.0 then (suc rest.0, (c ∷ rest.1.0, rest.1.1)) else rest

    pub broadcast : Bytes → Bytes → Bytes → SseManager W → ℕ × SseManager W
    unfolding send_each
    broadcast event_type data_json id s =
        let r = send_each (payload event_type data_json id) s.clients s.world in
        (r.0, record s { clients = r.1.0; world = r.1.1 })

    send_each_lem :
        (text : Bytes) (fails : ℕ → Bool)
        → ((c : ℕ) (w : W) → (net.send c text w).0 ≡ not (fails c))
        → (cs : List ℕ) (w : W)
        → ((send_each text cs w).1.0 ≡ select (λ c. not (fails c)) cs)
          × ((send_each text cs w).0 ≡ length (select (λ c. not (fails c)) cs))
    unfolding send_each
    send_each_lem text fails verdict [] w = (refl, refl)
    send_each_lem text fails verdict (c ∷ cs) w =
        let (kept, count) = send_each_lem text fails verdict cs (net.send c text w).1 in
        ground (arith, verdict c w, kept, count)

    -- When each connection either always fails or never does: a broadcast drops exactly the clients
    -- whose connection fails, keeps the others in order, and returns how many these are.
    broadcast_lem :
        (event_type data_json id : Bytes) (fails : ℕ → Bool)
        → ((c : ℕ) (text : Bytes) (w : W) → (net.send c text w).0 ≡ not (fails c))
        → (s : SseManager W)
        → ((broadcast event_type data_json id s).1.clients ≡ select (λ c. not (fails c)) s.clients)
          × ((broadcast event_type data_json id s).0
              ≡ client_count (broadcast event_type data_json id s).1)
    unfolding broadcast client_count
    broadcast_lem event_type data_json id fails verdict s =
        let text = payload event_type data_json id in
        let (kept, count) = send_each_lem text fails (λ c w. verdict c text w) s.clients s.world in
        (kept, count ∙ ap length (sym kept))
