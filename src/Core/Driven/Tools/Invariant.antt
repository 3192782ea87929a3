-- ===== src/Core/Driven/Tools/Invariant.antt =====
-- The invariant of the state machine, kept by every call and every tick; what a tick passes on.
use a.Base.{
  ◌⊎◌, ◌&&◌, ltb, ℕ, ◌≤◌, ◌<◌, ◌≡◌, refl, sym, subst, ◌∙◌, inl, inr, false, List, [], ◌∷◌, Option,
  none, some, arith, Bytes, codes, length, length-append, is_empty, if_elim, not, Bool-cases,
}
use native.Mathlib.Decide.{dec_lt}
use a.Shared.Events.{Event, llm_chunk, tool_start, complete, error}
use a.Core.Driven.State.{
  CoreState, idle, awaiting_llm, executing_tools, Env, Throws, Core, Ran, ended, raised, and_then,
  or_raise, Holds, Holds-and_then, Holds-or_raise, Holds-map, Holds-cases,
}
use a.Core.Driven.{
  append_message, start_llm_request, fail_goal, finish_goal, submit_goal, build_tool_schemas,
  open_goal, cancel, max_turns, start_tools, handle_complete, handle_llm_event, handle_llm_events,
}
use a.Core.Driven.Tools.{execute_tools, forward, tick_at, tick, turn_error}
use a.Core.Driven.Tools.Turns.{
  Started, start_llm_request-Started, execute_tools_lem, execute_tools_limit,
}

-- Tools are executed only while calls are pending, and no goal takes more than `max_turns` turns.
pub record IsValid {J W : Type 0} (c : Core J W) : Type 0 where
  pub busy : c.state ≡ executing_tools → 0 < length c.pending
  pub turns : c.turn_count ≤ max_turns

awaiting≢executing : awaiting_llm ≡ executing_tools → ⊥
awaiting≢executing e = cc

length_pos : {A : Type 0} (xs : List A) → is_empty xs ≡ false → 0 < length xs
length_pos [] e = cc
length_pos (x ∷ xs) e = omega arith

module _ {J W : Type 0} (env : Env J W) where
  append_message_fields :
      (sub : Option ℕ) (role content calls id : Bytes) (c : Core J W)
      → let d = append_message env sub role content calls id c in
        (d.state ≡ c.state) × (d.pending ≡ c.pending) × (d.turn_count ≡ c.turn_count)
  unfolding append_message
  append_message_fields sub role content calls id c = ground arith

  finish_goal-IsValid : (text : Bytes) (c : Core J W) → IsValid c → IsValid (finish_goal env text c)
  unfolding finish_goal append_message
  finish_goal-IsValid text c v = record { busy = λ e. cc; turns = ground (arith, v.turns) }

  fail_goal-IsValid : (text : Bytes) (c : Core J W) → IsValid c → IsValid (fail_goal env text c)
  unfolding fail_goal append_message
  fail_goal-IsValid text c v = record { busy = λ e. cc; turns = ground (arith, v.turns) }

  start_tools-IsValid :
      (c : Core J W)
      → 0 < length c.pending
      → IsValid c
      → Holds (Throws env) IsValid (start_tools env c)
  unfolding start_tools
  start_tools-IsValid c some_pending v =
      let busy = record c { state = executing_tools } in
      let store : Bytes → Ran (Core J W) = λ calls.
        ended (append_message env (some c.sub_session_id) (codes "assistant") [] calls [] busy) in
      if_elim (Holds (Throws env) IsValid) (env.has_persistence && ltb 0 c.session_db_id)
        (or_raise (env.dump_calls c.pending) store) (ended busy)
        (λ _.
          Holds-or_raise (Throws env) IsValid (env.dump_calls c.pending) store
            (Throws.calls c.pending)
            (λ calls.
              let told =
                append_message_fields (some c.sub_session_id) (codes "assistant") [] calls []
                  busy in
              record { busy = λ _. rw told.1 some_pending; turns = rw told.2 v.turns }))
        (λ _. record { busy = λ _. some_pending; turns = v.turns })

  handle_complete-IsValid :
      (summary : Bytes) (c : Core J W)
      → IsValid c
      → Holds (Throws env) IsValid (handle_complete env summary c)
  unfolding handle_complete
  handle_complete-IsValid summary c v = elim (Bool-cases (is_empty c.pending)) [
    | inl e ↦ rw e (
        if_elim (Holds (Throws env) IsValid) (not (is_empty c.accum_text))
          (ended (finish_goal env c.accum_text c)) (ended (finish_goal env summary c))
          (λ _. finish_goal-IsValid c.accum_text c v) (λ _. finish_goal-IsValid summary c v))
    | inr e ↦ rw e (start_tools-IsValid c (length_pos c.pending e) v)
  ]

  handle_llm_event-IsValid :
      (ev : Event) (c : Core J W)
      → IsValid c
      → Holds (Throws env) IsValid (handle_llm_event env ev c)
  unfolding handle_llm_event
  handle_llm_event-IsValid (llm_chunk _ _ text _) c v = record { busy = v.busy; turns = v.turns }
  handle_llm_event-IsValid (tool_start _ id name args) c v = record {
    busy = λ e. omega (arith, length-append c.pending (_ ∷ []));
    turns = v.turns;
  }
  handle_llm_event-IsValid (complete _ summary) c v = handle_complete-IsValid summary c v
  handle_llm_event-IsValid (error _ _ message) c v = fail_goal-IsValid message c v
  handle_llm_event-IsValid _ c v = v

  handle_llm_events-IsValid :
      (evs : List Event) (c : Core J W)
      → IsValid c
      → Holds (Throws env) IsValid (handle_llm_events env evs c)
  unfolding handle_llm_events
  handle_llm_events-IsValid [] c v = v
  handle_llm_events-IsValid (ev ∷ rest) c v =
      Holds-and_then (Throws env) IsValid IsValid (handle_llm_event env ev c)
        (handle_llm_events env rest) (handle_llm_event-IsValid ev c v)
        (handle_llm_events-IsValid rest)

  -- the core that a call leaves with its events
  abbrev pub IsValidAfter : List Event × Core J W → Type 0
  IsValidAfter r = IsValid r.1

  Started-IsValid : (c d : Core J W) → c.turn_count ≤ max_turns → Started env c d → IsValid d
  Started-IsValid c d h started = record {
    busy = λ k. absurd (awaiting≢executing (sym started.state ∙ k));
    turns = rw started.turn_count h;
  }

  execute_tools-IsValid :
      (c : Core J W)
      → c.state ≡ executing_tools
      → IsValid c
      → Holds (Throws env) IsValidAfter (execute_tools env c)
  execute_tools-IsValid c e v = elim (dec_lt c.turn_count max_turns) [
    | yes early ↦
        let (events, last, ran, done, starts) = execute_tools_lem env c (v.busy e) early in
        rw ran (
          Holds-and_then (Throws env) (Started env last) IsValidAfter (start_llm_request env last)
            (λ d. ended (events, d)) starts
            (λ d started. Started-IsValid last d (omega (arith, done.turn_count)) started))
    | no late ↦
        let limit = execute_tools_limit env c (v.busy e) (omega arith) in
        rw limit.0 (fail_goal-IsValid (turn_error env) c v)
  ]

  tick_at-IsValid :
      (s : CoreState) (c : Core J W)
      → c.state ≡ s
      → IsValid c
      → Holds (Throws env) IsValidAfter (tick_at env s c)
  unfolding tick_at
  tick_at-IsValid idle c e v = v
  tick_at-IsValid awaiting_llm c e v =
      let with_world : W → Core J W = λ w. record c { shared = record c.shared { outside = w } } in
      Holds-or_raise (Throws env) IsValidAfter (env.provider_tick c.shared.outside)
        (λ got.
          and_then (handle_llm_events env got.0 (with_world got.1))
            (λ handled. ended (forward env handled got.0, handled)))
        (Throws.response c.shared.outside)
        (λ got.
          Holds-and_then (Throws env) IsValid IsValidAfter
            (handle_llm_events env got.0 (with_world got.1))
            (λ handled. ended (forward env handled got.0, handled))
            (handle_llm_events-IsValid got.0 (with_world got.1)
              (record { busy = v.busy; turns = v.turns }))
            (λ handled valid. valid))
  tick_at-IsValid executing_tools c e v = execute_tools-IsValid c e v

  -- From a valid core a tick reads nothing out of range, and leaves a valid core if it returns: the
  -- early return for an empty list of calls in `xExecuteTools` is never taken, and `m_turnCount` stays
  -- within `MAX_TURNS`.
  pub tick-IsValid : (c : Core J W) → IsValid c → Holds (Throws env) IsValidAfter (tick env c)
  unfolding tick
  tick-IsValid c v = tick_at-IsValid c.state c refl v

  start_llm_request-IsValid :
      (c : Core J W)
      → c.turn_count ≤ max_turns
      → Holds (Throws env) IsValid (start_llm_request env c)
  start_llm_request-IsValid c h =
      Holds-map (Throws env) (Started env c) IsValid (start_llm_request env c)
        (start_llm_request-Started env c) (λ d. Started-IsValid c d h)

  choose-IsValid :
      (s : CoreState) (a b : Ran (Core J W))
      → Holds (Throws env) IsValid a
      → Holds (Throws env) IsValid b
      → Holds (Throws env) IsValid (let r : Ran (Core J W) = elim s [ idle ↦ a | _ ↦ b ] in r)
  choose-IsValid idle a b v w = v
  choose-IsValid _ a b v w = w

  pub submit_goal-IsValid :
      (goal : Bytes) (c : Core J W)
      → IsValid c
      → Holds (Throws env) IsValid (submit_goal env goal c)
  unfolding submit_goal build_tool_schemas open_goal
  submit_goal-IsValid goal c v =
      let opened = build_tool_schemas env (open_goal env goal c) in
      let told = append_message_fields none (codes "user") goal [] [] opened in
      choose-IsValid c.state
        (start_llm_request env (append_message env none (codes "user") goal [] [] opened)) (ended c)
        (start_llm_request-IsValid (append_message env none (codes "user") goal [] [] opened)
          (rw told.2 (omega arith)))
        v

  pub cancel-IsValid : (c : Core J W) → IsValid c → IsValid (cancel env c)
  unfolding cancel
  cancel-IsValid c v = record { busy = λ e. cc; turns = v.turns }

  -- What the thread that owns the core may call on it, in any order; a call that throws ends the
  -- thread, so the others go on from one that returned.
  pub data Reaches (c : Core J W) : Core J W → Type 0 where
    here : Reaches c c
    submitted :
        {d e : Core J W} (goal : Bytes)
        → Reaches c d
        → submit_goal env goal d ≡ ended e
        → Reaches c e
    cancelled : {d : Core J W} → Reaches c d → Reaches c (cancel env d)
    ticked :
        {d e : Core J W} (events : List Event)
        → Reaches c d
        → tick env d ≡ ended (events, e)
        → Reaches c e

  Reaches-IsValid : {c d : Core J W} → IsValid c → Reaches c d → IsValid d
  Reaches-IsValid v here = v
  Reaches-IsValid v (submitted {d} goal r ran) =
      subst (Holds (Throws env) IsValid) ran (submit_goal-IsValid goal d (Reaches-IsValid v r))
  Reaches-IsValid v (cancelled {d} r) = cancel-IsValid d (Reaches-IsValid v r)
  Reaches-IsValid v (ticked {d} {e} events r ran) =
      subst (Holds (Throws env) IsValidAfter) ran (tick-IsValid d (Reaches-IsValid v r))

  -- Whatever goals are submitted, cancelled and ticked in whatever order, starting from a valid core,
  -- the core stays valid. The next tick never reads a pending call out of range: it returns and leaves
  -- a valid core, or it throws, which it does only where the provider or a dump throws.
  pub Reaches-tick :
      (c d : Core J W)
      → IsValid c
      → Reaches c d
      → ((r : List Event × Core J W) × (tick env d ≡ ended r) × IsValidAfter r)
        ⊎ ((tick env d ≡ raised) × Throws env)
  Reaches-tick c d v r =
      Holds-cases (Throws env) IsValidAfter (tick env d) (tick-IsValid d (Reaches-IsValid v r))
