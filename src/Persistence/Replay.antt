-- ===== src/Persistence/Replay.antt =====
-- ReplayEngine (src/persistence/replay_engine.cpp): the messages of a session, as the store loads
-- them, are gone through in order, and the tool calls are run again.
use a.Base.{
  ℕ, ◌≡◌, refl, ap, ◌∙◌, true, false, not, ◌||◌, List, [], ◌∷◌, ◌++◌, Bytes, codes, bytes_eq,
  is_empty, every, leb, ℤ, pos, negsuc, is_zero, show_nat, if◌then◌else◌, arith,
}
use a.Executor.Runner.{CommandResult}

pub record Message : Type 0 where
  pub id : ℕ
  pub role : Bytes
  pub name : Bytes
  pub result_json : Bytes

-- The code that is returned, with the text of the divergence where it is not 0.
pub data Outcome : Type 0 where
  matched : Outcome
  diverged : ℤ → Bytes → Outcome

-- `CommandRunner::run(cmd, "", 30)`
module _ {W : Type 0} (run : Bytes → W → CommandResult × W) where
  judge : CommandResult → Message → Outcome
  judge result msg =
      if result.timed_out
      then diverged (pos 1) (codes "tool re-execution timed out")
      else if not (is_zero result.exit_code)
      then diverged (pos 1) (codes "tool re-execution failed: " ++ result.stderr)
      else if not (bytes_eq result.stdout msg.result_json)
      then diverged (pos 1) (
          codes "output mismatch\n  expected: "
          ++ msg.result_json
          ++ codes "\n  actual:   "
          ++ result.stdout)
      else matched

  -- xCompareToolResult
  pub compare_tool_result : Message → W → Outcome × W
  unfolding judge
  compare_tool_result msg w =
      if is_empty msg.name
      then (diverged (negsuc 0) (codes "tool message has no name"), w)
      else (judge (run msg.name w).0 msg, (run msg.name w).1)

  -- xStep
  pub step : Message → W → Outcome × W
  unfolding compare_tool_result
  step msg w =
      if bytes_eq msg.role (codes "user") || bytes_eq msg.role (codes "system")
      then (matched, w)
      else if bytes_eq msg.role (codes "assistant")
      then (matched, w)
      else if bytes_eq msg.role (codes "tool")
      then compare_tool_result msg w
      else (matched, w)

  located : Message → Bytes → Bytes
  located msg text =
      codes "divergence at message "
      ++ show_nat msg.id
      ++ codes " (role="
      ++ msg.role
      ++ codes "): "
      ++ text

  -- goes on with the other messages, or stops at the first divergence
  go_on : Message → Outcome × W → Outcome × W → Outcome × W
  go_on msg (matched, w) rest = rest
  go_on msg (diverged code text, w) rest = (diverged code (located msg text), w)

  pub replay_messages : List Message → W → Outcome × W
  unfolding go_on
  replay_messages [] w = (matched, w)
  replay_messages (msg ∷ messages) w =
      go_on msg (step msg w) (replay_messages messages (step msg w).1)

  no_session : W → Outcome × W
  no_session w = (diverged (negsuc 0) (codes "session not found or empty"), w)

  -- replay, given the messages that the store loads
  pub replay : List Message → W → Outcome × W
  unfolding no_session
  replay messages w = if is_empty messages then no_session w else replay_messages messages w

  pub replay_messages_to : ℕ → List Message → W → Outcome × W
  replay_messages_to last [] w = (matched, w)
  replay_messages_to last (msg ∷ messages) w =
      let rest = go_on msg (step msg w) (replay_messages_to last messages (step msg w).1) in
      if leb msg.id last then rest else (matched, w)

  -- replayTo
  pub replay_to : ℕ → List Message → W → Outcome × W
  unfolding no_session
  replay_to last messages w =
      if is_empty messages then no_session w else replay_messages_to last messages w

  prefix_lem :
      (last : ℕ) (before after : List Message) (msg : Message) (w : W)
      → every (λ m. leb m.id last) before ≡ true
      → leb msg.id last ≡ false
      → replay_messages_to last (before ++ msg ∷ after) w ≡ replay_messages before w
  unfolding replay_messages_to replay_messages
  prefix_lem last [] after msg w small large = ground arith
  prefix_lem last (m ∷ before) after msg w small large =
      let rest = prefix_lem last before after msg (step m w).1 (ground arith) large in
      let here : leb m.id last ≡ true = ground arith in rw here (ap (go_on m (step m w)) rest)

  -- Replaying up to a message replays exactly the messages before the first one that is newer than
  -- it: of a session whose first newer message is `msg`, the messages `before` it (at least one) are
  -- replayed as a session of their own would be, with the same outcome and the same effects, and of
  -- `msg` and what follows nothing is run. No message needs to have the id that
  -- is asked for.
  pub replay_to-replay :
      (last : ℕ) (first : Message) (before after : List Message) (msg : Message) (w : W)
      → every (λ m. leb m.id last) (first ∷ before) ≡ true
      → leb msg.id last ≡ false
      → replay_to last (first ∷ before ++ msg ∷ after) w ≡ replay (first ∷ before) w
  unfolding replay_to replay
  replay_to-replay last first before after msg w small large =
      prefix_lem last (first ∷ before) after msg w small large

  -- Where the replay goes on after a part of the messages.
  pub resume : Outcome × W → List Message → Outcome × W
  resume (matched, w) rest = replay_messages rest w
  resume (diverged code text, w) rest = (diverged code text, w)

  resume-go_on :
      (msg : Message) (o : Outcome × W) (messages rest : List Message)
      → go_on msg o (resume (replay_messages messages o.1) rest)
        ≡ resume (go_on msg o (replay_messages messages o.1)) rest
  unfolding go_on resume
  resume-go_on msg (matched, w) messages rest = refl
  resume-go_on msg (diverged code text, w) messages rest = refl

  -- Nothing is run after a divergence: replaying two parts is replaying the first and then, from
  -- where it ended, the second if the first matched, or else stopping with the first's divergence.
  replay_messages-append :
      (first rest : List Message) (w : W)
      → replay_messages (first ++ rest) w ≡ resume (replay_messages first w) rest
  unfolding replay_messages resume
  replay_messages-append [] rest w = refl
  replay_messages-append (msg ∷ first) rest w =
      ap (go_on msg (step msg w)) (replay_messages-append first rest (step msg w).1)
      ∙ resume-go_on msg (step msg w) first rest
