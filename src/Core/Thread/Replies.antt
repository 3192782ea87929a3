-- ===== src/Core/Thread/Replies.antt =====
-- What the thread answers to the commands of one round: `xRun` of src/core/app_core_thread.cpp.
use a.Base.{
  Bool-cases, ℕ, Bool, true, false, List, [], ◌∷◌, ◌++◌, ◌≡◌, refl, sym, ap, ◌∙◌, ◌⊎◌, append-nil,
  append_assoc, Bytes, Option-cases, inl, inr,
}
use a.Shared.Events.{
  Command, submit_goal, cancel, shutdown, set_session, list_sessions, resume_session, load_resource,
  SessionMessage, SessionEntry, Event, session_ready, session_list, session_history,
  load_resource_result,
}
use a.Core.Driven.State.{Env, Throws, Core, ended, raised, Holds-cases}
use a.Core.Driven.Tools.Turns.{submit_goal-Safe}
use a.Core.Driven
use a.Core.Thread.{
  Ports, Thread, handle_command, handle_commands, send, resume, found_session, history, is_idle,
}

-- the commands that are not answered
pub is_silent : Command → Bool
is_silent (submit_goal goal) = true
is_silent cancel = true
is_silent shutdown = true
is_silent _ = false

-- the answer to a command names what was asked for, and an unknown session has no messages
pub IsReply : Command → Event → Type 0
IsReply (set_session db_id uuid) ev = ev ≡ session_ready db_id uuid
IsReply (list_sessions limit) ev = (rows : List SessionEntry) × (ev ≡ session_list rows)
IsReply (resume_session uuid) ev =
    (ev ≡ session_history 0 uuid false [])
    ⊎ ((db_id : ℕ) × (messages : List SessionMessage) × (ev
          ≡ session_history db_id uuid true messages))
IsReply (load_resource type id offset limit) ev =
    (data_read : Bytes) × (ev ≡ load_resource_result id data_read)
IsReply _ ev = ev ≡ ev × (false ≡ true)

pub data Replies : List Command → List Event → Type 0 where
  none_left : Replies [] []
  unanswered :
      {cmd : Command} {rest : List Command} {evs : List Event}
      → is_silent cmd ≡ true
      → Replies rest evs
      → Replies (cmd ∷ rest) evs
  answered :
      {cmd : Command} {rest : List Command} {ev : Event} {evs : List Event}
      → IsReply cmd ev
      → Replies rest evs
      → Replies (cmd ∷ rest) (ev ∷ evs)

module _ {J W : Type 0} (env : Env J W) (ports : Ports W) where
  pub Says : (cmd : Command) (t : Thread J W) (ev : Event) → Type 0
  Says cmd t ev =
      (u : Thread J W) × (handle_command env ports cmd t ≡ ended u)
      × (u.sent ≡ t.sent ++ ev ∷ [])
      × IsReply cmd ev

  resume-Says : (uuid : Bytes) (t : Thread J W) → (ev : Event) × Says (resume_session uuid) t ev
  unfolding Says handle_command resume send IsReply
  resume-Says uuid t = elim (Option-cases (found_session env ports uuid t.core.shared.outside)) [
    | inl missing ↦ (
      session_history 0 uuid false [],
      (resume env ports uuid t, refl, rw (resume, missing) refl, inl refl),
    )
    | inr ((store, db_id), found) ↦ (
      history env ports store db_id uuid t.core.shared.outside,
      (resume env ports uuid t, refl, rw (resume, found) refl, inr (db_id, _, refl)),
    )
  ]

  -- no request reads anything out of range
  submit_goal_ends :
      (goal : Bytes) (t : Thread J W)
      → ((core : Core J W) × (Driven.submit_goal env goal t.core ≡ ended core))
        ⊎ ((Driven.submit_goal env goal t.core ≡ raised) × Throws env)
  submit_goal_ends goal t =
      elim (Holds-cases (Throws env) (λ _. Unit) (Driven.submit_goal env goal t.core)
        (submit_goal-Safe env goal t.core)) [
          | inl (core, ran, _) ↦ inl (core, ran)
          | inr failed ↦ inr failed
        ]

  -- what a command does that is not answered
  pub Keeps : Command → Thread J W → Type 0
  Keeps cmd t = (u : Thread J W) × (handle_command env ports cmd t ≡ ended u) × (u.sent ≡ t.sent)

  submitted :
      (goal : Bytes) (t : Thread J W)
      → Keeps (submit_goal goal) t
        ⊎ ((handle_command env ports (submit_goal goal) t ≡ raised) × Throws env)
  unfolding handle_command Keeps
  submitted goal t = elim (Bool-cases (is_idle t.core)) [
    | inr busy ↦ inl (t, rw (handle_command, busy) refl, refl)
    | inl free ↦ elim (submit_goal_ends goal t) [
      | inl (core, ran) ↦ inl (record t { core = core }, rw (handle_command, free, ran) refl, refl)
      | inr (failed, throws) ↦ inr (rw (handle_command, free, failed) refl, throws)
    ]
  ]

  -- One command sends its reply or nothing, or it is a goal whose request throws.
  pub handle_command-replies :
      (cmd : Command) (t : Thread J W)
      → ((is_silent cmd ≡ true) × Keeps cmd t)
        ⊎ (((ev : Event) × Says cmd t ev)
            ⊎ ((goal : Bytes) × (cmd ≡ submit_goal goal)
                × (handle_command env ports cmd t ≡ raised)
                × Throws env))
  unfolding Says handle_command send IsReply is_silent Keeps
  handle_command-replies (submit_goal goal) t = elim (submitted goal t) [
    | inl kept ↦ inl (refl, kept)
    | inr (failed, throws) ↦ inr (inr (goal, refl, failed, throws))
  ]
  handle_command-replies cancel t = inl (refl, (_, refl, refl))
  handle_command-replies shutdown t = inl (refl, (_, refl, refl))
  handle_command-replies (set_session db uuid) t =
      inr (inl (session_ready db uuid, (_, refl, refl, refl)))
  handle_command-replies (list_sessions limit) t = inr (inl (_, (_, refl, refl, (_, refl))))
  handle_command-replies (resume_session uuid) t = inr (inl (resume-Says uuid t))
  handle_command-replies (load_resource type id offset limit) t =
      inr (inl (_, (_, refl, refl, (_, refl))))

  -- the commands are all handled, and their answers sent
  pub Answered : List Command → Thread J W → Type 0
  Answered cmds t =
      (u : Thread J W) × (evs : List Event) × (handle_commands env ports cmds t ≡ ended u)
      × (u.sent ≡ t.sent ++ evs)
      × Replies cmds evs

  -- a goal among the commands throws, behind others that are answered
  pub Interrupted : List Command → Thread J W → Type 0
  Interrupted cmds t =
      (before : List Command) × (goal : Bytes) × (rest : List Command) × (cmds
        ≡ before ++ submit_goal goal ∷ rest)
      × Answered before t
      × (handle_commands env ports cmds t ≡ raised)
      × Throws env

  -- one more command in front, that was handled
  after_one :
      (cmd : Command) (rest : List Command) (t u : Thread J W) (evs : List Event)
      → handle_command env ports cmd t ≡ ended u
      → u.sent ≡ t.sent ++ evs
      → ((later : List Event) → Replies rest later → Replies (cmd ∷ rest) (evs ++ later))
      → Answered rest u
      → Answered (cmd ∷ rest) t
  unfolding Answered handle_commands
  after_one cmd rest t u evs ran sent reply (last, later, went, all, replies) = (
    last,
    evs ++ later,
    rw (handle_commands, ran) went,
    all ∙ ap (λ s. s ++ later) sent ∙ append_assoc t.sent evs later,
    reply later replies,
  )

  step :
      (cmd : Command) (rest : List Command) (t u : Thread J W) (evs : List Event)
      → handle_command env ports cmd t ≡ ended u
      → u.sent ≡ t.sent ++ evs
      → ((cmds : List Command) (later : List Event)
          → Replies cmds later
          → Replies (cmd ∷ cmds) (evs ++ later))
      → Answered rest u ⊎ Interrupted rest u
      → Answered (cmd ∷ rest) t ⊎ Interrupted (cmd ∷ rest) t
  unfolding Interrupted handle_commands
  step cmd rest t u evs ran sent reply (inl all) =
      inl (after_one cmd rest t u evs ran sent (reply rest) all)
  step cmd rest t u evs ran sent reply (inr (before, goal, behind, split, all, failed, throws)) =
      inr (
        cmd ∷ before,
        goal,
        behind,
        ap (λ l. cmd ∷ l) split,
        after_one cmd before t u evs ran sent (reply before) all,
        rw (handle_commands, ran) failed,
        throws,
      )

  -- The commands of one round append to what was sent exactly one answer for each of them that asks
  -- for something, in the order of the commands and about what it asked for, and nothing for a goal, a
  -- cancel or a shutdown. Only the request of a goal may throw, where it or a dump throws; the commands
  -- before it are then answered in that way, and the exception leaves the loop.
  pub handle_commands-Replies :
      (cmds : List Command) (t : Thread J W) → Answered cmds t ⊎ Interrupted cmds t
  unfolding handle_commands Says Keeps Answered Interrupted
  handle_commands-Replies [] t = inl (t, [], refl, sym (append-nil t.sent), none_left)
  handle_commands-Replies (cmd ∷ rest) t = elim (handle_command-replies cmd t) [
    | inl (silent, kept) ↦
        let (u, ran, same) = kept in
        step cmd rest t u [] ran (same ∙ sym (append-nil t.sent))
          (λ cmds later r. unanswered silent r) (handle_commands-Replies rest u)
    | inr (inl (ev, says)) ↦
        let (u, ran, same, reply) = says in
        step cmd rest t u (ev ∷ []) ran same (λ cmds later r. answered reply r)
          (handle_commands-Replies rest u)
    | inr (inr (goal, is_goal, failed, throws)) ↦ inr (
      [],
      goal,
      rest,
      ap (λ c. c ∷ rest) is_goal,
      (t, [], refl, sym (append-nil t.sent), none_left),
      rw (handle_commands, failed) refl,
      throws,
    )
  ]
