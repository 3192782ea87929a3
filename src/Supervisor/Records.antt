-- ===== src/Supervisor/Records.antt =====
-- Every agent that is watched has an entry among the sockets: the tables of `run` of src/b1/supervisor.cpp.
use a.Base.{
  ℕ, ◌≡◌, ap, sym, ◌∙◌, Bool, true, false, List, [], ◌∷◌, Option, none, some, codes, ℤ, bytes_eq,
  nat_key, leb, ◌-◌, if◌then◌else◌, lookup, insert, erase, if_elim, Option-cases, inl, inr,
}
use a.Shared.Json.{Json}
use a.Ipc.Message.{Message}
use a.Supervisor.{
  int_key, Net, Supervisor, accept_agent, drop_agent, close_c2, send_to_c2, handle_register,
  handle_heartbeat, handle_user_prompt, handle_prompt_reply, handle_stream_data, handle_stream_end,
  handle_stream_input, handle_terminal_open, detect_crashes, find_agent_fd_by_session,
}
use a.Supervisor.Loop.{
  Heard, hung_up, failed, silent, message, Round, handle_c2_message, handle_c2,
  handle_agent_message, handle_agent, handle_agents, push_snapshot, push_if_due, round,
}
use a.Supervisor.Tables.{
  Covers, is_some, insert-Covers, erase-Covers, erase_both-Covers, insert_both-Covers,
  is_some_detect,
}

-- each agent has a socket under its descriptor
IsHeard : {W : Type 0} → Supervisor W → Type 0
IsHeard s = Covers s.agents s.agent_sockets

module _ {J W : Type 0} (json : Json J) (net : Net J W) where
  send_to_c2-IsHeard :
      (msg : Message J) (s : Supervisor W) → IsHeard s → IsHeard (send_to_c2 json net msg s).1
  unfolding send_to_c2 close_c2 IsHeard
  send_to_c2-IsHeard msg s h = elim (Option-cases s.c2_socket) [
    | inl gone ↦ rw (send_to_c2, gone) h
    | inr (fd, there) ↦
        rw (send_to_c2, there)
          (if_elim (λ (r : ℤ × Supervisor W). IsHeard r.1) (net.send fd msg s.world).0 _ _ (λ _. h)
            (λ _. h))
  ]

  accept_agent-IsHeard :
      (fd now : ℕ) (s : Supervisor W) → IsHeard s → IsHeard (accept_agent json net fd now s)
  unfolding accept_agent IsHeard
  accept_agent-IsHeard fd now s h = elim (Option-cases (lookup fd s.agent_sockets)) [
    | inl gone ↦ rw gone (insert_both-Covers fd fd _ s.agents s.agent_sockets h)
    | inr (socket, there) ↦
        rw there (insert-Covers fd _ s.agents s.agent_sockets (ap is_some there) h)
  ]

  drop_agent-IsHeard : (fd : ℕ) (s : Supervisor W) → IsHeard s → IsHeard (drop_agent json net fd s)
  unfolding drop_agent IsHeard
  drop_agent-IsHeard fd s h = erase_both-Covers fd s.agents s.agent_sockets h

  handle_register-IsHeard :
      (msg : Message J) (fd now : ℕ) (s : Supervisor W)
      → is_some (lookup fd s.agent_sockets) ≡ true
      → IsHeard s
      → IsHeard (handle_register json net msg fd now s).1
  unfolding handle_register IsHeard
  handle_register-IsHeard msg fd now s there h = elim (Option-cases (lookup fd s.agents)) [
    | inl gone ↦ rw (handle_register, gone) h
    | inr (rec, known) ↦
        rw (handle_register, known) (insert-Covers fd _ s.agents s.agent_sockets there h)
  ]

  handle_heartbeat-IsHeard :
      (fd now : ℕ) (s : Supervisor W)
      → is_some (lookup fd s.agent_sockets) ≡ true
      → IsHeard s
      → IsHeard (handle_heartbeat json net fd now s).1
  unfolding handle_heartbeat IsHeard
  handle_heartbeat-IsHeard fd now s there h = elim (Option-cases (lookup fd s.agents)) [
    | inl gone ↦ rw (handle_heartbeat, gone) h
    | inr (rec, known) ↦
        rw (handle_heartbeat, known) (insert-Covers fd _ s.agents s.agent_sockets there h)
  ]

  handle_user_prompt-IsHeard :
      (msg : Message J) (fd : ℕ) (s : Supervisor W)
      → IsHeard s
      → IsHeard (handle_user_prompt json net msg fd s).1
  unfolding handle_user_prompt IsHeard
  handle_user_prompt-IsHeard msg fd s h = elim (Option-cases s.c2_socket) [
    | inl gone ↦ rw (handle_user_prompt, gone) h
    | inr (c2, there) ↦ rw (handle_user_prompt, there) h
  ]

  handle_prompt_reply-IsHeard :
      (msg : Message J) (s : Supervisor W)
      → IsHeard s
      → IsHeard (handle_prompt_reply json net msg s).1
  unfolding handle_prompt_reply IsHeard
  handle_prompt_reply-IsHeard msg s h =
      elim (Option-cases (find_agent_fd_by_session msg.session_uuid s.agents)) [
        | inl unknown ↦ rw (handle_prompt_reply, unknown) h
        | inr (fd, known) ↦
            rw (handle_prompt_reply, known)
              (if_elim (λ (r : ℤ × Supervisor W). IsHeard r.1) (net.send fd _ s.world).0 _ _
                (λ _. h) (λ _. erase-Covers fd s.agents s.agent_sockets h))
      ]

  handle_stream_input-IsHeard :
      (msg : Message J) (s : Supervisor W)
      → IsHeard s
      → IsHeard (handle_stream_input json net msg s).1
  unfolding handle_stream_input IsHeard
  handle_stream_input-IsHeard msg s h = elim (Option-cases (lookup msg.stream_id s.stream_owners)) [
    | inl gone ↦ rw (handle_stream_input, gone) h
    | inr (fd, there) ↦ rw (handle_stream_input, there) h
  ]

  -- a branch on a kind of message keeps what both branches keep
  IsHeard-if :
      (b : Bool) (s t : Supervisor W) → IsHeard s → IsHeard t → IsHeard (if b then s else t)
  IsHeard-if true s t h k = h
  IsHeard-if false s t h k = k

  handle_c2_message-IsHeard :
      (msg : Message J) (s : Supervisor W) → IsHeard s → IsHeard (handle_c2_message json net msg s)
  unfolding handle_c2_message handle_terminal_open IsHeard
  handle_c2_message-IsHeard msg s h =
      IsHeard-if (bytes_eq msg.message_type (codes "prompt_reply")) _ _
        (handle_prompt_reply-IsHeard msg s h)
        (IsHeard-if (bytes_eq msg.message_type (codes "stream_input")) _ _
          (handle_stream_input-IsHeard msg s h)
          (IsHeard-if (bytes_eq msg.message_type (codes "terminal_open")) _ _ h h))

  handle_c2-IsHeard :
      (heard : Heard J) (s : Supervisor W) → IsHeard s → IsHeard (handle_c2 json net heard s)
  unfolding handle_c2 close_c2 IsHeard
  handle_c2-IsHeard silent s h = h
  handle_c2-IsHeard (message msg) s h = elim (Option-cases s.c2_socket) [
    | inl gone ↦ rw (handle_c2, gone) h
    | inr (fd, there) ↦ rw (handle_c2, there) (handle_c2_message-IsHeard msg s h)
  ]
  handle_c2-IsHeard hung_up s h = elim (Option-cases s.c2_socket) [
    | inl gone ↦ rw (handle_c2, gone) h
    | inr (fd, there) ↦ rw (handle_c2, there) h
  ]
  handle_c2-IsHeard failed s h = elim (Option-cases s.c2_socket) [
    | inl gone ↦ rw (handle_c2, gone) h
    | inr (fd, there) ↦ rw (handle_c2, there) h
  ]

  handle_agent_message-IsHeard :
      (msg : Message J) (fd now : ℕ) (s : Supervisor W)
      → is_some (lookup fd s.agent_sockets) ≡ true
      → IsHeard s
      → IsHeard (handle_agent_message json net msg fd now s)
  unfolding handle_agent_message handle_stream_data handle_stream_end IsHeard
  handle_agent_message-IsHeard msg fd now s there h =
      IsHeard-if (bytes_eq msg.message_type (codes "register")) _ _
        (handle_register-IsHeard msg fd now s there h)
        (IsHeard-if (bytes_eq msg.message_type (codes "heartbeat")) _ _
          (handle_heartbeat-IsHeard fd now s there h)
          (IsHeard-if (bytes_eq msg.message_type (codes "user_prompt")) _ _
            (handle_user_prompt-IsHeard msg fd s h)
            (IsHeard-if (bytes_eq msg.message_type (codes "stream_data")) _ _
              (send_to_c2-IsHeard msg
                (record s { stream_owners = insert msg.stream_id fd s.stream_owners }) h)
              (IsHeard-if (bytes_eq msg.message_type (codes "stream_end")) _ _
                (send_to_c2-IsHeard msg
                  (record s { stream_owners = erase msg.stream_id s.stream_owners }) h)
                (IsHeard-if (bytes_eq msg.message_type (codes "terminal_ready")) _ _
                  (send_to_c2-IsHeard msg s h) h)))))

  handle_agent-IsHeard :
      (fd now : ℕ) (heard : Heard J) (s : Supervisor W)
      → IsHeard s
      → IsHeard (handle_agent json net fd heard now s)
  unfolding handle_agent
  handle_agent-IsHeard fd now hung_up s h = drop_agent-IsHeard fd s h
  handle_agent-IsHeard fd now silent s h = h
  handle_agent-IsHeard fd now failed s h = elim (Option-cases (lookup fd s.agent_sockets)) [
    | inl gone ↦ rw (handle_agent, gone) h
    | inr (socket, there) ↦ rw (handle_agent, there) (drop_agent-IsHeard fd s h)
  ]
  handle_agent-IsHeard fd now (message msg) s h = elim (Option-cases (lookup fd s.agent_sockets)) [
    | inl gone ↦ rw (handle_agent, gone) h
    | inr (socket, there) ↦
        rw (handle_agent, there) (handle_agent_message-IsHeard msg fd now s (ap is_some there) h)
  ]

  handle_agents-IsHeard :
      (heard : List (ℕ × Heard J)) (now : ℕ) (s : Supervisor W)
      → IsHeard s
      → IsHeard (handle_agents json net heard now s)
  unfolding handle_agents
  handle_agents-IsHeard [] now s h = h
  handle_agents-IsHeard ((fd, one) ∷ rest) now s h =
      handle_agents-IsHeard rest now (handle_agent json net fd one now s)
        (handle_agent-IsHeard fd now one s h)

  push_if_due-IsHeard :
      (now : ℕ) (s : Supervisor W) → IsHeard s → IsHeard (push_if_due json net now s)
  unfolding push_if_due push_snapshot IsHeard
  push_if_due-IsHeard now s h = elim (Option-cases s.c2_socket) [
    | inl gone ↦ rw (push_if_due, gone) h
    | inr (fd, there) ↦
        rw (push_if_due, there)
          (IsHeard-if (leb 5 (now - s.last_push)) _ s (send_to_c2-IsHeard _ s h) h)
  ]

  accepted-IsHeard :
      (accepted : Option ℕ) (now : ℕ) (s : Supervisor W)
      → IsHeard s
      → IsHeard (elim accepted as (λ _. Supervisor W) [
        | none ↦ s
        | some fd ↦ accept_agent json net fd now s
      ])
  accepted-IsHeard none now s h = h
  accepted-IsHeard (some fd) now s h = accept_agent-IsHeard fd now s h

  detected-IsHeard :
      (reaped : ℤ → Bool) (s : Supervisor W)
      → IsHeard s
      → IsHeard (record s { agents = detect_crashes reaped s.agents })
  unfolding IsHeard
  detected-IsHeard reaped s h q there = h q (sym (is_some_detect reaped s.agents q) ∙ there)

  -- Each round keeps this: the descriptor of every agent in the table of agents has an entry in the
  -- table of sockets, which is what the loop polls, whatever connects, hangs up, fails, sends or dies in
  -- the round. Whether that entry is the socket of the agent's own connection is not said.
  round-IsHeard : (r : Round J) (s : Supervisor W) → IsHeard s → IsHeard (round json net r s)
  unfolding round
  round-IsHeard r s h =
      let first = accepted-IsHeard r.accepted r.now s h in
      let second = handle_c2-IsHeard r.c2 _ first in
      let third = handle_agents-IsHeard r.agents r.now _ second in
      push_if_due-IsHeard r.now _ (detected-IsHeard r.reaped _ third)
