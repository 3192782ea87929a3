-- ===== src/Executor/Graph/Execute.antt =====
-- `executeBatches` answers every call of every batch, on the sequential and the parallel path.
use a.Base.{
  true, false, ◌≡◌, refl, ap, subst, ◌∙◌, ℕ, zero, suc, ◌+◌, ◌≤◌, ◌<◌, true, inl, inr, List, [],
  ◌∷◌, map, Option, some, arith, Bool-cases, length, get_elem?_total, Bytes, codes, starts_with,
}
use a.Skills.Types.{ToolInvocation, Execution, returned, threw, Manager}
use a.Executor.Runner.{Os, CommandResult, run_all}
use a.Executor.Runner.RunAll.{length-run_all}
use a.Executor.Graph.{
  BatchResult, position, collect, execute_one, run_sequential, record_execution, record_command,
  record_found, result_at, read_results, run_parallel, runs_parallel, execute_batch,
  execute_batches,
}

-- i, i + 1, …, n of them
range : ℕ → ℕ → List ℕ
range i zero = []
range i (suc n) = i ∷ range (suc i) n

position-range : (n i k : ℕ) → k < n → position (i + k) (range i n) ≡ some k
unfolding position range
position-range zero i k h = elim h [ ]
position-range (suc n) i zero h = ground arith
position-range (suc n) i (suc k) h =
    let e : i + suc k ≡ suc i + k = omega arith in
    ground
      (arith, position-range n (suc i) k (omega arith), ap (λ j. position j (range (suc i) n)) e)

position-range_zero : (n k : ℕ) → k < n → position k (range 0 n) ≡ some k
position-range_zero n k h =
    let e : 0 + k ≡ k = omega arith in
    subst (λ j. position j (range 0 n) ≡ some k) e (position-range n 0 k h)

length-record_command :
    (r : CommandResult) (br : BatchResult)
    → length (record_command r br).outputs ≡ suc (length br.outputs)
unfolding record_command
length-record_command r br = ground arith

length-record_execution :
    (x : Execution) (br : BatchResult)
    → length (record_execution x br).outputs ≡ suc (length br.outputs)
unfolding record_execution
length-record_execution (returned s) br = ground arith
length-record_execution (threw what) br = refl

-- The results are read back one to a call.
length-read_results :
    {J : Type 0} (i n : ℕ) (batch : List (ToolInvocation J)) (results : List CommandResult)
    → i + length batch ≡ n
    → length results ≡ n
    → length (read_results i batch (range 0 n) results).outputs ≡ length batch
unfolding read_results
length-read_results i n [] results e h = refl
length-read_results i n (inv ∷ rest) results e h =
    let (r, found) = get_elem?_total results i (omega arith) in
    let rest_of = read_results (suc i) rest (range 0 n) results in
    let here : position i (range 0 n) ≡ some i = position-range_zero n i (omega arith) in
    rw (here, result_at, found, record_found)
      (omega (
        arith,
        length-record_command r rest_of,
        length-read_results (suc i) n rest results (omega arith) h,
      ))

module _ {J W : Type 0} (os : Os W) (mgr : Option (Manager J W)) where
  length-run_sequential :
      (batch : List (ToolInvocation J)) (w : W)
      → length (run_sequential os mgr batch w).0.outputs ≡ length batch
  unfolding run_sequential
  length-run_sequential [] w = refl
  length-run_sequential (inv ∷ rest) w = omega (
    arith,
    length-record_execution (execute_one os mgr inv w).0
        (run_sequential os mgr rest (execute_one os mgr inv w).1).0,
    length-run_sequential rest (execute_one os mgr inv w).1,
  )

  collect_bounds :
      (i : ℕ) (batch : List (ToolInvocation J)) (w : W)
      → length (collect os mgr i batch w).0 ≤ length batch
  unfolding collect
  collect_bounds i [] w = omega arith
  collect_bounds i (inv ∷ rest) w = ground (arith, collect_bounds (suc i) rest w)

  -- where every call is a command, the indices are all there, in order
  collect_full :
      (i : ℕ) (batch : List (ToolInvocation J)) (w : W)
      → length (collect os mgr i batch w).0 ≡ length batch
      → (collect os mgr i batch w).1 ≡ range i (length batch)
  unfolding collect range
  collect_full i [] w h = refl
  collect_full i (inv ∷ rest) w h =
      ground (arith, collect_full (suc i) rest w, collect_bounds (suc i) rest w)

  length-run_parallel :
      (par : ℕ) (batch : List (ToolInvocation J)) (w : W)
      → length (collect os mgr 0 batch w).0 ≡ length batch
      → length (run_parallel os mgr par batch w).0.outputs ≡ length batch
  unfolding run_parallel
  length-run_parallel par batch w h = rw (collect_full 0 batch w h) (
      length-read_results 0 (length batch) batch
        (run_all os (collect os mgr 0 batch w).0 30 par w).0 (omega arith)
        (length-run_all os (collect os mgr 0 batch w).0 30 par w ∙ h))

  runs_parallel_full :
      (batch : List (ToolInvocation J)) (w : W)
      → runs_parallel os mgr batch w ≡ true
      → length (collect os mgr 0 batch w).0 ≡ length batch
  unfolding runs_parallel
  runs_parallel_full batch w h = ground arith

  length-execute_batch :
      (par : ℕ) (batch : List (ToolInvocation J)) (w : W)
      → length (execute_batch os mgr par batch w).0.outputs ≡ length batch
  unfolding execute_batch
  length-execute_batch par batch w = elim (Bool-cases (runs_parallel os mgr batch w)) [
    | inl yes_par ↦
        rw yes_par (length-run_parallel par batch w (runs_parallel_full batch w yes_par))
    | inr no_par ↦ rw no_par (length-run_sequential batch w)
  ]

  -- Whatever the tools do, be it an exception or a timeout, `executeBatches` returns one output to
  -- each call: the batches of results have the sizes of the batches of calls.
  pub length-execute_batches :
      (par : ℕ) (batches : List (List (ToolInvocation J))) (w : W)
      → map (λ br. length br.outputs) (execute_batches os mgr par batches w).0 ≡ map length batches
  unfolding execute_batches
  length-execute_batches par [] w = refl
  length-execute_batches par (b ∷ bs) w =
      cc (
        length-execute_batch par b w,
        length-execute_batches par bs (execute_batch os mgr par b w).1,
      )

  execute_one-some :
      (m : Manager J W) (inv : ToolInvocation J) (w : W)
      → mgr ≡ some m
      → execute_one os mgr inv w ≡ m.execute inv w
  unfolding execute_one
  execute_one-some m inv w e = rw e

  not_parallel : (inv : ToolInvocation J) (w : W) → runs_parallel os mgr (inv ∷ []) w ≡ false
  unfolding runs_parallel
  not_parallel inv w = ground (arith, collect_bounds 0 (inv ∷ []) w)

  -- a batch of one call is run by itself
  pub execute_batch_single :
      (par : ℕ) (m : Manager J W) (inv : ToolInvocation J) (w w' : W) (text : Bytes)
      → mgr ≡ some m
      → m.execute inv w ≡ (returned text, w')
      → starts_with (codes "ERROR:") text ≡ false
      → execute_batch os mgr par (inv ∷ []) w ≡ (record { outputs = text ∷ []; errors = [] }, w')
  unfolding execute_batch run_sequential record_execution
  execute_batch_single par m inv w w' text e ran fine =
      let one = execute_one-some m inv w e ∙ ran in rw (not_parallel inv w, one, fine)

  -- Two readers one after the other, where the second fails: its error is the first of the list.
  pub run_sequential_second_fails :
      (m : Manager J W) (x y : ToolInvocation J) (w w' w'' : W) (text failure : Bytes)
      → mgr ≡ some m
      → m.execute x w ≡ (returned text, w')
      → m.execute y w' ≡ (returned failure, w'')
      → starts_with (codes "ERROR:") text ≡ false
      → starts_with (codes "ERROR:") failure ≡ true
      → (run_sequential os mgr (x ∷ y ∷ []) w).0
        ≡ record { outputs = text ∷ failure ∷ []; errors = failure ∷ [] }
  unfolding run_sequential record_execution
  run_sequential_second_fails m x y w w' w'' text failure e first second fine bad =
      rw (execute_one-some m x w e ∙ first, execute_one-some m y w' e ∙ second, fine, bad)
