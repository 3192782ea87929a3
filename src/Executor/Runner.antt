-- ===== src/Executor/Runner.antt =====
-- CommandRunner (src/executor/command_runner.cpp): the fan-out of `runAll`, and shell quoting.
-- Processes, pipes and signals enter through the interface `Os` over a world `W`.
pub mod Escape
pub mod RunAll
use a.Base.{
  ℕ, zero, suc, Bool, true, false, List, [], ◌∷◌, ◌++◌, Bytes, ℤ, nat_eq, if◌then◌else◌, length,
}

pub record CommandResult : Type 0 where
  pub stdout : Bytes
  pub stderr : Bytes
  pub exit_code : ℤ
  pub timed_out : Bool

-- `spawn` makes the pipes and the child of one command in `runAll`, and says whether it could;
-- `wait` collects the children of a round; `run_single` is `xRunSingle`.
pub record Os (W : Type 0) : Type 0 where
  pub spawn : Bytes → W → Bool × W
  pub wait : W → W
  pub run_single : Bytes → Bytes → ℕ → W → CommandResult × W

module _ {W : Type 0} (os : Os W) where
  -- the inner loop: children are started while a slot is free; a failed start takes no slot
  pub launch_round : ℕ → List Bytes → W → List Bytes × W
  launch_round slots [] w = ([], w)
  launch_round zero (c ∷ cs) w = (c ∷ cs, w)
  launch_round (suc slots) (c ∷ cs) w =
      launch_round (if (os.spawn c w).0 then slots else suc slots) cs (os.spawn c w).1

  -- the outer loop; the commands not yet started are returned too
  pub launch_all : ℕ → ℕ → List Bytes → W → List Bytes × W
  launch_all fuel par [] w = ([], w)
  launch_all zero par (c ∷ cs) w = (c ∷ cs, w)
  launch_all (suc fuel) par (c ∷ cs) w =
      let round = launch_round par (c ∷ cs) w in launch_all fuel par round.0 (os.wait round.1)

  -- the loop that fills `results` after it was cleared
  pub run_serial : List Bytes → ℕ → W → List CommandResult × W
  run_serial [] timeout w = ([], w)
  run_serial (c ∷ cs) timeout w =
      let first = os.run_single c [] timeout w in
      let rest = run_serial cs timeout first.1 in (first.0 ∷ rest.0, rest.1)

  pub run_all : List Bytes → ℕ → ℕ → W → List CommandResult × W
  run_all cmds timeout max_parallel w =
      let par = if nat_eq max_parallel 0 then length cmds else max_parallel in
      run_serial cmds timeout (launch_all (length cmds) par cmds w).1

-- the body of the loop of `shellEscape`
escape_char : ℕ → Bytes
escape_char c = if nat_eq c 39 then 39 ∷ 92 ∷ 39 ∷ 39 ∷ [] else c ∷ []

pub escape_body : Bytes → Bytes
unfolding escape_char
escape_body [] = []
escape_body (c ∷ s) = escape_char c ++ escape_body s

unfoldable pub shell_escape : Bytes → Bytes
shell_escape s = 39 ∷ (escape_body s ++ 39 ∷ [])
