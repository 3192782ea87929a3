-- ===== src/Supervisor/Owners.antt =====
-- Where the input of a stream goes: `m_streamOwners` of src/b1/supervisor.cpp.
use a.Base.{
  ℕ, ◌≡◌, refl, ap, sym, ◌∙◌, Bool, true, false, Option, none, some, codes, ℤ, bytes_eq, nat_key,
  ◌==◌, if◌then◌else◌, lookup, insert, erase, lookup-insert, lookup-erase, if_elim, Option-cases,
  Bool-cases, inl, inr, bytes_eq_iff, if_yes, if_no,
}
use a.Shared.Json.{Json}
use a.Ipc.Message.{Message}
use a.Supervisor.{
  int_key, Net, Supervisor, drop_agent, close_c2, send_to_c2, handle_register, handle_heartbeat,
  handle_user_prompt, handle_stream_data, handle_stream_end,
}
use a.Supervisor.Loop.{Heard, hung_up, failed, silent, message, handle_agent_message, handle_agent}

-- The owner of a stream by what was heard last of it: data from an agent with a socket makes the agent
-- its owner, and an end leaves it without one; a hang-up and a failure change nothing.
abbrev pub owner_by : {J : Type 0} → ℤ → ℕ → Heard J → Option ℕ → Option ℕ
owner_by q fd (message msg) before =
    if bytes_eq msg.message_type (codes "stream_data")
    then (if msg.stream_id == q then some fd else before)
    else if bytes_eq msg.message_type (codes "stream_end")
    then (if msg.stream_id == q then none else before)
    else before
owner_by q fd _ before = before

module _ {J W : Type 0} (json : Json J) (net : Net J W) where
  send_to_c2-owners :
      (msg : Message J) (s : Supervisor W)
      → (send_to_c2 json net msg s).1.stream_owners ≡ s.stream_owners
  unfolding send_to_c2 close_c2
  send_to_c2-owners msg s = elim (Option-cases s.c2_socket) [
    | inl gone ↦ rw (send_to_c2, gone) refl
    | inr (fd, there) ↦
        rw (send_to_c2, there)
          (if_elim (λ (r : ℤ × Supervisor W). r.1.stream_owners ≡ s.stream_owners)
            (net.send fd msg s.world).0 _ _ (λ _. refl) (λ _. refl))
  ]

  handle_register-owners :
      (msg : Message J) (fd now : ℕ) (s : Supervisor W)
      → (handle_register json net msg fd now s).1.stream_owners ≡ s.stream_owners
  unfolding handle_register
  handle_register-owners msg fd now s = elim (Option-cases (lookup fd s.agents)) [
    | inl gone ↦ rw (handle_register, gone) refl
    | inr (rec, known) ↦ rw (handle_register, known) refl
  ]

  handle_heartbeat-owners :
      (fd now : ℕ) (s : Supervisor W)
      → (handle_heartbeat json net fd now s).1.stream_owners ≡ s.stream_owners
  unfolding handle_heartbeat
  handle_heartbeat-owners fd now s = elim (Option-cases (lookup fd s.agents)) [
    | inl gone ↦ rw (handle_heartbeat, gone) refl
    | inr (rec, known) ↦ rw (handle_heartbeat, known) refl
  ]

  handle_user_prompt-owners :
      (msg : Message J) (fd : ℕ) (s : Supervisor W)
      → (handle_user_prompt json net msg fd s).1.stream_owners ≡ s.stream_owners
  unfolding handle_user_prompt
  handle_user_prompt-owners msg fd s = elim (Option-cases s.c2_socket) [
    | inl gone ↦ rw (handle_user_prompt, gone) refl
    | inr (c2, there) ↦ rw (handle_user_prompt, there) refl
  ]

  Keeps : Supervisor W → Supervisor W → Type 0
  Keeps s t = t.stream_owners ≡ s.stream_owners

  kept : (b : Bool) (s t u : Supervisor W) → Keeps s t → Keeps s u → Keeps s (if b then t else u)
  kept true s t u h k = h
  kept false s t u h k = k

  -- a message of another kind keeps the owners
  other_message :
      (msg : Message J) (fd now : ℕ) (s : Supervisor W)
      → bytes_eq msg.message_type (codes "stream_data") ≡ false
      → bytes_eq msg.message_type (codes "stream_end") ≡ false
      → Keeps s (handle_agent_message json net msg fd now s)
  unfolding handle_agent_message Keeps
  other_message msg fd now s no_data no_end =
      rw (handle_agent_message, no_data, no_end)
        (kept (bytes_eq msg.message_type (codes "register")) s _ _
          (handle_register-owners msg fd now s)
          (kept (bytes_eq msg.message_type (codes "heartbeat")) s _ _
            (handle_heartbeat-owners fd now s)
            (kept (bytes_eq msg.message_type (codes "user_prompt")) s _ _
              (handle_user_prompt-owners msg fd s)
              (kept (bytes_eq msg.message_type (codes "terminal_ready")) s _ _
                (send_to_c2-owners msg s) refl))))

  data_message :
      (msg : Message J) (fd now : ℕ) (s : Supervisor W)
      → msg.message_type ≡ codes "stream_data"
      → (handle_agent_message json net msg fd now s).stream_owners
        ≡ insert msg.stream_id fd s.stream_owners
  unfolding handle_agent_message handle_stream_data bytes_eq
  data_message msg fd now s kind =
      let is_register : bytes_eq msg.message_type (codes "register") ≡ false =
        ap (λ x. bytes_eq x (codes "register")) kind in
      let is_heartbeat : bytes_eq msg.message_type (codes "heartbeat") ≡ false =
        ap (λ x. bytes_eq x (codes "heartbeat")) kind in
      let is_user_prompt : bytes_eq msg.message_type (codes "user_prompt") ≡ false =
        ap (λ x. bytes_eq x (codes "user_prompt")) kind in
      let is_stream_data : bytes_eq msg.message_type (codes "stream_data") ≡ true =
        ap (λ x. bytes_eq x (codes "stream_data")) kind in
      rw (handle_agent_message, is_register, is_heartbeat, is_user_prompt, is_stream_data)
        (send_to_c2-owners msg
          (record s { stream_owners = insert msg.stream_id fd s.stream_owners }))

  end_message :
      (msg : Message J) (fd now : ℕ) (s : Supervisor W)
      → msg.message_type ≡ codes "stream_end"
      → (handle_agent_message json net msg fd now s).stream_owners
        ≡ erase msg.stream_id s.stream_owners
  unfolding handle_agent_message handle_stream_end bytes_eq
  end_message msg fd now s kind =
      let is_register : bytes_eq msg.message_type (codes "register") ≡ false =
        ap (λ x. bytes_eq x (codes "register")) kind in
      let is_heartbeat : bytes_eq msg.message_type (codes "heartbeat") ≡ false =
        ap (λ x. bytes_eq x (codes "heartbeat")) kind in
      let is_user_prompt : bytes_eq msg.message_type (codes "user_prompt") ≡ false =
        ap (λ x. bytes_eq x (codes "user_prompt")) kind in
      let is_stream_data : bytes_eq msg.message_type (codes "stream_data") ≡ false =
        ap (λ x. bytes_eq x (codes "stream_data")) kind in
      let is_stream_end : bytes_eq msg.message_type (codes "stream_end") ≡ true =
        ap (λ x. bytes_eq x (codes "stream_end")) kind in
      rw
        (
          handle_agent_message, is_register, is_heartbeat, is_user_prompt, is_stream_data,
          is_stream_end,
        )
        (send_to_c2-owners msg (record s { stream_owners = erase msg.stream_id s.stream_owners }))

  -- the owner after the message of an agent, by the kind of the message
  handle_agent_message-owner :
      (q : ℤ) (msg : Message J) (fd now : ℕ) (s : Supervisor W)
      → lookup q (handle_agent_message json net msg fd now s).stream_owners
        ≡ owner_by q fd (message msg) (lookup q s.stream_owners)
  unfolding Keeps
  handle_agent_message-owner q msg fd now s =
      let t = msg.message_type in
      elim (Bool-cases (bytes_eq t (codes "stream_data"))) [
        | inl data_kind ↦
            ap (lookup q)
              (data_message msg fd now s ((bytes_eq_iff t (codes "stream_data")).0 data_kind))
            ∙ lookup-insert msg.stream_id q fd s.stream_owners
            ∙ sym (if_yes (bytes_eq t (codes "stream_data")) _ _ data_kind)
        | inr no_data ↦ elim (Bool-cases (bytes_eq t (codes "stream_end"))) [
          | inl end_kind ↦
              ap (lookup q)
                (end_message msg fd now s ((bytes_eq_iff t (codes "stream_end")).0 end_kind))
              ∙ lookup-erase msg.stream_id q s.stream_owners
              ∙ sym (if_yes (bytes_eq t (codes "stream_end")) _ _ end_kind)
              ∙ sym (if_no (bytes_eq t (codes "stream_data")) _ _ no_data)
          | inr no_end ↦
              ap (lookup q) (other_message msg fd now s no_data no_end)
              ∙ sym (if_no (bytes_eq t (codes "stream_end")) _ _ no_end)
              ∙ sym (if_no (bytes_eq t (codes "stream_data")) _ _ no_data)
        ]
      ]

  -- What is heard of an agent that has a socket changes the owner of a stream in just this way: data
  -- of the stream makes the agent its owner, the end of the stream leaves it without one, and nothing
  -- else changes it; an agent that hangs up or fails stays the owner of its streams.
  pub handle_agent-owner :
      (q : ℤ) (fd socket now : ℕ) (heard : Heard J) (s : Supervisor W)
      → lookup fd s.agent_sockets ≡ some socket
      → lookup q (handle_agent json net fd heard now s).stream_owners
        ≡ owner_by q fd heard (lookup q s.stream_owners)
  unfolding handle_agent drop_agent
  handle_agent-owner q fd socket now hung_up s there = refl
  handle_agent-owner q fd socket now silent s there = refl
  handle_agent-owner q fd socket now failed s there = rw (handle_agent, there) refl
  handle_agent-owner q fd socket now (message msg) s there =
      rw (handle_agent, there) (handle_agent_message-owner q msg fd now s)
