-- ===== src/Executor/Graph.antt =====
-- DependencyGraph (src/executor/dependency_graph.cpp): tool calls are classified by name, grouped
-- into batches, and the batches executed. A null `skillMgr` is `none`.
pub mod Batches
pub mod Execute
use a.Base.{
  ℕ, zero, suc, ◌+◌, Bool, true, false, not, ◌&&◌, ◌||◌, List, [], ◌∷◌, ◌++◌, map, Option, none,
  some, Bytes, codes, bytes_eq, starts_with, show_int, is_zero, is_empty, length, get_elem?, nat_eq,
  ltb, if◌then◌else◌,
}
use mathlib.Core.Option
use a.Executor.Runner.{CommandResult, Os, run_all}
use a.Skills.Types.{SkillTool, ToolInvocation, Execution, returned, threw, Manager}

pub data ResourceClass : Type 0 where
  reader writer read_write : ResourceClass

-- The iteration order of the two unordered sets does not matter: the test is a disjunction.
abbrev reader_prefixes : List Bytes
reader_prefixes =
    codes "system_fs_read"
    ∷ codes "system_fs_glob"
    ∷ codes "system_fs_grep"
    ∷ codes "system_meta_"
    ∷ []

abbrev writer_prefixes : List Bytes
writer_prefixes = codes "system_fs_write" ∷ codes "system_fs_edit" ∷ []

starts_with_any : Bytes → List Bytes → Bool
starts_with_any s [] = false
starts_with_any s (p ∷ ps) = bytes_eq s p || starts_with p s || starts_with_any s ps

unfoldable pub classify_tool : Bytes → ResourceClass
unfolding starts_with_any
classify_tool qn =
    if starts_with_any qn reader_prefixes
    then reader
    else if starts_with_any qn writer_prefixes
    then writer
    else read_write

-- the three vectors that the loop with the switch fills
pub record Groups (J : Type 0) : Type 0 where
  pub readers : List (ToolInvocation J)
  pub writers : List (ToolInvocation J)
  pub read_writes : List (ToolInvocation J)

module _ {J : Type 0} where
  sort_one : ResourceClass → ToolInvocation J → Groups J → Groups J
  sort_one reader inv g = record g { readers = inv ∷ g.readers }
  sort_one writer inv g = record g { writers = inv ∷ g.writers }
  sort_one read_write inv g = record g { read_writes = inv ∷ g.read_writes }

  pub group : List (ToolInvocation J) → Groups J
  unfolding sort_one
  group [] = record { readers = []; writers = []; read_writes = [] }
  group (inv ∷ rest) = sort_one (classify_tool inv.qualified_name) inv (group rest)

  abbrev pub singletons : List (ToolInvocation J) → List (List (ToolInvocation J))
  singletons = map (λ inv. inv ∷ [])

  pub build_batches : List (ToolInvocation J) → List (List (ToolInvocation J))
  unfolding group
  build_batches invocations =
      let g = group invocations in
      (if is_empty g.readers then [] else g.readers ∷ [])
      ++ (singletons g.writers ++ singletons g.read_writes)

pub record BatchResult : Type 0 where
  pub outputs : List Bytes
  pub errors : List Bytes

abbrev pub no_result : BatchResult
no_result = record { outputs = []; errors = [] }

-- outputs.push_back(s); the error list grows only for a text that begins with "ERROR:"
record_execution : Execution → BatchResult → BatchResult
record_execution (returned s) br =
    if starts_with (codes "ERROR:") s
    then record { outputs = s ∷ br.outputs; errors = s ∷ br.errors }
    else record br { outputs = s ∷ br.outputs }
record_execution (threw what) br = record {
  outputs = [] ∷ br.outputs;
  errors = (codes "ERROR: " ++ what) ∷ br.errors;
}

record_command : CommandResult → BatchResult → BatchResult
record_command r br =
    if r.timed_out
    then record { outputs = [] ∷ br.outputs; errors = codes "ERROR: timeout" ∷ br.errors }
    else if not (is_zero r.exit_code)
    then record {
      outputs = r.stdout ∷ br.outputs;
      errors = (codes "ERROR: exit code " ++ show_int r.exit_code) ∷ br.errors;
    }
    else record br { outputs = r.stdout ∷ br.outputs }

-- std::find and std::distance
unfoldable pub position : ℕ → List ℕ → Option ℕ
position k [] = none
position k (i ∷ is) = if nat_eq i k then some 0 else Option.map suc (position k is)

result_at : List CommandResult → Option ℕ → Option CommandResult
result_at results none = none
result_at results (some idx) = get_elem? results idx

record_found : Option CommandResult → BatchResult → BatchResult
unfolding record_command
record_found none br = br
record_found (some r) br = record_command r br

-- the loop that reads the results of `runAll` back, from index `i` on
pub read_results :
    {J : Type 0} → ℕ → List (ToolInvocation J) → List ℕ → List CommandResult → BatchResult
unfolding record_found result_at
read_results i [] indices results = no_result
read_results i (inv ∷ rest) indices results =
    record_found (result_at results (position i indices))
      (read_results (suc i) rest indices results)

module _ {J W : Type 0} (os : Os W) (mgr : Option (Manager J W)) where
  execute_one : ToolInvocation J → W → Execution × W
  execute_one inv w = elim mgr [
    | none ↦ (returned (codes "ERROR: no SkillManager available"), w)
    | some m ↦ m.execute inv w
  ]

  -- skillMgr && skillMgr->getTool(...) == 0
  find_tool : ToolInvocation J → W → Option (SkillTool J)
  find_tool inv w = elim mgr [ none ↦ none | some m ↦ m.get_tool inv.qualified_name w ]

  is_command : Option (SkillTool J) → Bool
  is_command none = false
  is_command (some t) = not t.system_tool && not (is_empty t.command)

  command_of : Option (SkillTool J) → Bytes
  command_of none = []
  command_of (some t) = t.command

  -- `subprocessCommands` and `subprocessIndices` after the loop from index `i` on
  pub collect : ℕ → List (ToolInvocation J) → W → List Bytes × List ℕ
  unfolding find_tool is_command command_of
  collect i [] w = ([], [])
  collect i (inv ∷ rest) w =
      let tool = find_tool inv w in
      let more = collect (suc i) rest w in
      if is_command tool then (command_of tool ∷ more.0, i ∷ more.1) else more

  head_is_reader : List (ToolInvocation J) → Bool
  head_is_reader [] = false
  head_is_reader (inv ∷ rest) = elim (classify_tool inv.qualified_name) [
    | reader ↦ true
    | _ ↦ false
  ]

  pub run_sequential : List (ToolInvocation J) → W → BatchResult × W
  unfolding execute_one record_execution
  run_sequential [] w = (no_result, w)
  run_sequential (inv ∷ rest) w =
      let one = execute_one inv w in
      let more = run_sequential rest one.1 in (record_execution one.0 more.0, more.1)

  pub run_parallel : ℕ → List (ToolInvocation J) → W → BatchResult × W
  run_parallel max_parallel batch w =
      let found = collect 0 batch w in
      let ran = run_all os found.0 30 max_parallel w in (read_results 0 batch found.1 ran.0, ran.1)

  -- allPureReaders && subprocessCommands.size() > 1
  pub runs_parallel : List (ToolInvocation J) → W → Bool
  unfolding head_is_reader
  runs_parallel batch w =
      let n = length (collect 0 batch w).0 in
      head_is_reader batch && (nat_eq n (length batch) && ltb 1 n)

  pub execute_batch : ℕ → List (ToolInvocation J) → W → BatchResult × W
  unfolding runs_parallel
  execute_batch max_parallel batch w =
      if runs_parallel batch w then run_parallel max_parallel batch w else run_sequential batch w

  unfoldable pub execute_batches : ℕ → List (List (ToolInvocation J)) → W → List BatchResult × W
  execute_batches max_parallel [] w = ([], w)
  execute_batches max_parallel (batch ∷ rest) w =
      let one = execute_batch max_parallel batch w in
      let more = execute_batches max_parallel rest one.1 in (one.0 ∷ more.0, more.1)
