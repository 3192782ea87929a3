-- ===== src/Core/Thread.antt =====
-- AppCoreThread (src/core/app_core_thread.cpp): the loop that takes commands from its channel, hands
-- them to the core, ticks it and sends its events. What the store and the resource provider hold is
-- read through `Ports`; no command changes it.
pub mod Replies
pub mod Rounds
use a.Base.{
  ℕ, Bool, true, false, List, [], ◌∷◌, ◌++◌, map, Option, none, some, Bytes, ltb, show_nat,
  if◌then◌else◌,
}
use a.Shared.Events.{
  ResourceType, Command, submit_goal, cancel, shutdown, set_session, list_sessions, resume_session,
  load_resource, SessionMessage, SessionEntry, Event, session_ready, session_list, session_history,
  load_resource_result,
}
use a.Core.Driven.State.{CoreState, idle, Env, Core, Ran, ended, and_then}
use a.Core.Driven
use a.Core.Driven.Tools.{tick}

pub record SessionRow : Type 0 where
  pub id : ℕ
  pub uuid : Bytes
  pub started_at : ℕ
  pub ended_at : ℕ
  pub message_count : ℕ

-- the columns of a stored message that a history shows
pub record StoredMessage : Type 0 where
  pub role : Bytes
  pub content : Bytes
  pub tool_call_id : Bytes
  pub name : Bytes
  pub result_json : Bytes
  pub created_at : ℕ

-- `find_session` is 0 for a uuid that is not known; `open_resource` gives the `read` of a handle, if there is one.
pub record Store (W : Type 0) : Type 0 where
  pub load_sessions : ℕ → W → List SessionRow
  pub find_session : Bytes → W → ℕ
  pub load_messages : ℕ → W → List StoredMessage

-- `none` for a null pointer
pub record Ports (W : Type 0) : Type 0 where
  pub persistence : Option (Store W)
  pub open_resource : Option (ResourceType → ℕ → W → Option (ℕ → ℕ → Bytes))

pub record Thread (J W : Type 0) : Type 0 where
  pub running : Bool
  pub core : Core J W
  -- what was sent to the receiver of events, in order
  pub sent : List Event

to_session_msg : StoredMessage → SessionMessage
to_session_msg m = record {
  role = m.role;
  content = m.content;
  tool_call_id = m.tool_call_id;
  name = m.name;
  result_json = m.result_json;
  created_at = m.created_at;
}

to_entry : SessionRow → SessionEntry
to_entry r = record {
  uuid = r.uuid;
  db_id = r.id;
  started_at = show_nat r.started_at;
  message_count = r.message_count;
}

-- DrivenCore::setSession
unfoldable pub select_session : {J W : Type 0} → ℕ → Bytes → Core J W → Core J W
select_session db_id uuid c = record c { session_db_id = db_id; session_uuid = uuid }

-- DrivenCore::idle
pub is_idle : {J W : Type 0} → Core J W → Bool
is_idle c = elim c.state [ idle ↦ true | _ ↦ false ]

module _ {J W : Type 0} (env : Env J W) (ports : Ports W) where
  entries : ℕ → W → List SessionEntry
  unfolding to_entry
  entries limit w = elim ports.persistence [
    | none ↦ []
    | some store ↦ map to_entry (store.load_sessions limit w)
  ]

  history : Store W → ℕ → Bytes → W → Event
  unfolding to_session_msg
  history store db_id uuid w =
      session_history db_id uuid true (map to_session_msg (store.load_messages db_id w))

  -- the row of a session that is there, and its store
  found_session : Bytes → W → Option (Store W × ℕ)
  found_session uuid w = elim ports.persistence [
    | none ↦ none
    | some store ↦
        if ltb 0 (store.find_session uuid w) then some (store, store.find_session uuid w) else none
  ]

  resource_data : ResourceType → ℕ → ℕ → ℕ → W → Bytes
  resource_data type id offset limit w = elim ports.open_resource [
    | none ↦ []
    | some handle_for ↦ elim (handle_for type id w) [ none ↦ [] | some read ↦ read offset limit ]
  ]

  send : Event → Thread J W → Thread J W
  send ev t = record t { sent = t.sent ++ ev ∷ [] }

  resume : Bytes → Thread J W → Thread J W
  unfolding send found_session history
  resume uuid t = elim (found_session uuid t.core.shared.outside) [
    | none ↦ send (session_history 0 uuid false []) t
    | some (store, db_id) ↦
        send (history store db_id uuid t.core.shared.outside)
          (record t { core = select_session db_id uuid t.core })
  ]

  -- the body of the loop over the drained commands
  pub handle_command : Command → Thread J W → Ran (Thread J W)
  unfolding send entries resume resource_data
  handle_command (submit_goal goal) t =
      let submitted =
        and_then (Driven.submit_goal env goal t.core) (λ core. ended (record t { core = core })) in
      if is_idle t.core then submitted else ended t
  handle_command cancel t = ended (record t { core = Driven.cancel env t.core })
  handle_command shutdown t = ended (record t { running = false })
  handle_command (set_session db_id uuid) t =
      ended (send (session_ready db_id uuid) (record t { core = select_session db_id uuid t.core }))
  handle_command (list_sessions limit) t =
      ended (send (session_list (entries limit t.core.shared.outside)) t)
  handle_command (resume_session uuid) t = ended (resume uuid t)
  handle_command (load_resource type id offset limit) t =
      ended (
        send (load_resource_result id (resource_data type id offset limit t.core.shared.outside)) t)

  pub handle_commands : List Command → Thread J W → Ran (Thread J W)
  handle_commands [] t = ended t
  handle_commands (cmd ∷ rest) t = and_then (handle_command cmd t) (handle_commands rest)

  -- the core is ticked unless it is idle, and its events are sent
  pub tick_core : Thread J W → Ran (Thread J W)
  tick_core t =
      let ticked =
        and_then (tick env t.core) (λ r. ended (record t { core = r.1; sent = t.sent ++ r.0 })) in
      if is_idle t.core then ended t else ticked

  -- one round of the loop behind the poll, with the commands that were drained
  pub round : List Command → Thread J W → Ran (Thread J W)
  unfolding tick_core
  round commands t = if t.running then and_then (handle_commands commands t) tick_core else ended t

  pub rounds : List (List Command) → Thread J W → Ran (Thread J W)
  rounds [] t = ended t
  rounds (commands ∷ rest) t = and_then (round commands t) (rounds rest)
