-- ===== src/Tests/Graph.antt =====
-- The scheduling of tool calls and commands at concrete inputs.
use a.Base.{
  true, none, bytes_eq, ◌≡◌, List, [], ◌∷◌, ◌++◌, map, some, Bytes, codes, length, All, false, refl,
}
use mathlib.Core.List.{flatten, Perm}
use a.Skills.Types.{ToolInvocation}
use a.Executor.Runner.{run_all, run_serial, shell_escape}
use a.Executor.Runner.Escape.{plain, read_word, read_word-shell_escape}
use a.Executor.Runner.RunAll.{Log, run_all_twice}
use a.Executor.ToolRunner.{Params, arguments, argument_text, option_text}
use a.Executor.ToolRunner.Words.{Words, arguments-Words}
use a.Executor.Graph.{build_batches, execute_batches}
use a.Executor.Graph.Batches.{IsSafe, build_batches-perm, build_batches-IsSafe}
use a.Executor.Graph.Execute.{length-execute_batches}
use a.Tests.Toys.{Toy, toy_json, toy_conversions, log_os, echo}

abbrev call : Bytes → ToolInvocation Bytes
call name = record {
  qualified_name = name;
  params = [];
  records_seq = false;
  tool_call_id = [];
  sub_session_id = 0;
}

abbrev calls : List (ToolInvocation Bytes)
calls =
    call (codes "local_build")
    ∷ call (codes "system_fs_read")
    ∷ call (codes "system_fs_write")
    ∷ call (codes "system_fs_grep")
    ∷ []

build_batches-IsSafe_example : All IsSafe (build_batches calls)
build_batches-IsSafe_example = build_batches-IsSafe calls

build_batches-perm_example : Perm (flatten (build_batches calls)) calls
build_batches-perm_example = build_batches-perm calls

length-execute_batches_example :
    map
      (λ br. length br.outputs)
      (execute_batches log_os (some echo) 4 ((call (codes "x") ∷ []) ∷ calls ∷ []) []).0
    ≡ 1 ∷ 4 ∷ []
length-execute_batches_example =
    length-execute_batches log_os (some echo) 4 ((call (codes "x") ∷ []) ∷ calls ∷ []) []

abbrev words : List Bytes
words = codes "make" ∷ codes "ls" ∷ codes "ls" ∷ []

abbrev log : Log log_os
log = record { ran = λ w. w; launched = λ c w e. refl; waited = λ w. refl }

run_all_twice_example :
    (w' : List Bytes) × (w' ≡ words)
    × (run_all log_os words 30 2 [] ≡ run_serial log_os words 30 w')
run_all_twice_example = run_all_twice log_os log (λ c w. refl) words 30 2 []

read_word-shell_escape_example :
    read_word plain (shell_escape (codes "it's $HOME") ++ codes " -l")
    ≡ some (codes "it's $HOME", codes " -l")
unfolding read_word
read_word-shell_escape_example =
    read_word-shell_escape (codes "it's $HOME") (codes " -l") [] (codes " -l") refl

abbrev toy_params : Params Toy
toy_params = record { items = λ j. []; as_double_text = λ j. none }

-- a quote and an operator in a value
arguments-Words_example :
    (line : Bytes) × (arguments toy_json toy_conversions toy_params
        ((codes "_", Toy.text (codes "a'b;c")) ∷ (codes "all", Toy.bool true) ∷ [])
      ≡ some line)
    × Words line (codes "a'b;c" ∷ codes "--all=true" ∷ [])
unfolding argument_text option_text bytes_eq
arguments-Words_example =
    arguments-Words toy_json toy_conversions toy_params
      ((codes "_", Toy.text (codes "a'b;c")) ∷ (codes "all", Toy.bool true) ∷ [])
      (codes "a'b;c" ∷ codes "--all=true" ∷ []) refl (refl, (refl, tt))
