-- ===== src/Executor/ToolRunner.antt =====
-- SubprocessToolRunner (src/executor/tool_runner.cpp): the command line of a tool call and the text of
-- its result. How a process runs is the argument `run`.
pub mod Words
use a.Base.{
  ℕ, ◌*◌, Bool, true, false, not, ◌&&◌, ◌||◌, List, [], ◌∷◌, ◌++◌, Option, none, some, Bytes, codes,
  ℤ, is_zero, show_int, is_empty, bytes_eq, ltb, length, take, if◌then◌else◌,
}
use a.Base.Fault.{◌>>=◌}
use a.Shared.Json.{Json, Conversions}
use a.Executor.Runner.{CommandResult, shell_escape}
use a.Skills.Execute.{Tool}

-- `items` of an object, and the text of std::to_string on a number as a double
pub record Params (J : Type 0) : Type 0 where
  pub items : J → List (Bytes × J)
  pub as_double_text : J → Option Bytes

pub max_size : ℕ
max_size = 1024 * 1024

-- no line is cut off, only bytes
pub format_result : CommandResult → Bytes
unfolding max_size
format_result res =
    let cut = take max_size res.stdout ++ codes "... (truncated)" in
    if res.timed_out
    then codes "ERROR: timeout"
    else if not (is_zero res.exit_code) && is_empty res.stdout
    then codes "ERROR: command failed with exit code " ++ show_int res.exit_code
    else if ltb max_size (length res.stdout)
    then cut
    else res.stdout

module _ {J : Type 0} (json : Json J) (conv : Conversions J) (params : Params J) where
  -- what is not a text is dumped, which may throw
  unfoldable pub argument_text : J → Option Bytes
  argument_text v = elim (json.as_text v) [ some s ↦ some s | none ↦ json.dump v ]

  unfoldable pub option_text : J → Option Bytes
  unfolding argument_text
  option_text v = elim (json.as_text v) [
    | some s ↦ some s
    | none ↦ elim (params.as_double_text v) [
      | some s ↦ some s
      | none ↦ elim (conv.as_bool v) [
        | some b ↦ some (if b then codes "true" else codes "false")
        | none ↦ json.dump v
      ]
    ]
  ]

  -- one parameter; the value is quoted, the key is not
  pub one_argument : Bytes → J → Option Bytes
  unfolding argument_text option_text
  one_argument key v =
      let plain = argument_text v >>= λ s. some (codes " " ++ shell_escape s) in
      let named = option_text v >>= λ s. some (codes " --" ++ key ++ codes "=" ++ shell_escape s) in
      if bytes_eq key (codes "_") then plain else named

  pub arguments : List (Bytes × J) → Option Bytes
  unfolding one_argument
  arguments [] = some []
  arguments ((key, v) ∷ rest) = do
    first ← one_argument key v
    others ← arguments rest
    some (first ++ others)

  -- the command and what goes to its input
  args_command : Tool → J → Option (Bytes × Bytes)
  unfolding arguments
  args_command tool j =
      let of_object = arguments (params.items j) >>= λ text. some (tool.command ++ text, []) in
      let of_text : Bytes × Bytes = elim (json.as_text j) [
        | none ↦ (tool.command, [])
        | some s ↦ (tool.command ++ codes " " ++ shell_escape s, [])
      ] in
      if json.is_object j then of_object else some of_text

  stdin_command : Tool → J → Option (Bytes × Bytes)
  unfolding argument_text
  stdin_command tool j =
      let input : Option Bytes =
        elim (if json.is_object j then json.find j (codes "input") >>= json.as_text else none) [
          | some s ↦ some s
          | none ↦ argument_text j
        ] in
      input >>= λ s. some (tool.command, s)

  pub build_tool_command : Tool → J → Option (Bytes × Bytes)
  unfolding args_command stdin_command
  build_tool_command tool j =
      let args = args_command tool j in
      let stdin = stdin_command tool j in
      if bytes_eq tool.input_mode (codes "args") then args else stdin

  -- `none` for the exception of a dump
  pub run_tool :
      {W : Type 0} → (Bytes → Bytes → ℤ → W → CommandResult × W) → Tool → J → W → Option Bytes × W
  unfolding build_tool_command format_result
  run_tool run tool j w = elim (build_tool_command tool j) [
    | none ↦ (none, w)
    | some (command, input) ↦
        let (res, after) = run command input tool.timeout_secs w in
        (some (format_result res), after)
  ]
