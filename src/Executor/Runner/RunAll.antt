-- ===== src/Executor/Runner/RunAll.antt =====
-- `runAll`: every command is launched, and the results come from a second, serial run.
use a.Base.{
  true, ℕ, zero, suc, ◌≤◌, ◌<◌, ◌≡◌, refl, ◌∙◌, List, [], ◌∷◌, ◌++◌, append-nil, append_assoc,
  arith, Bytes, length, nat_eq, if◌then◌else◌,
}
use a.Executor.Runner.{Os, launch_round, launch_all, run_serial, run_all}

module _ {W : Type 0} (os : Os W) where
  launch_round-le :
      (slots : ℕ) (cs : List Bytes) (w : W) → length (launch_round os slots cs w).0 ≤ length cs
  unfolding launch_round
  launch_round-le slots [] w = omega arith
  launch_round-le zero (c ∷ cs) w = omega arith
  launch_round-le (suc slots) (c ∷ cs) w =
      omega
        (arith, launch_round-le (if (os.spawn c w).0 then slots else suc slots) cs (os.spawn c w).1)

  -- a round with a free slot starts at least one command
  launch_round-lt :
      (slots : ℕ) (c : Bytes) (cs : List Bytes) (w : W)
      → 0 < slots
      → length (launch_round os slots (c ∷ cs) w).0 ≤ length cs
  unfolding launch_round
  launch_round-lt zero c cs w h = elim h [ ]
  launch_round-lt (suc slots) c cs w h =
      launch_round-le (if (os.spawn c w).0 then slots else suc slots) cs (os.spawn c w).1

  -- The loop that starts the commands ends: with at least one slot for a child, as many rounds as
  -- there are commands leave none unstarted, whether or not a child can be made.
  launch_all_drains :
      (fuel par : ℕ) (cs : List Bytes) (w : W)
      → 0 < par
      → length cs ≤ fuel
      → (launch_all os fuel par cs w).0 ≡ []
  unfolding launch_all
  launch_all_drains zero par [] w p h = refl
  launch_all_drains (suc fuel) par [] w p h = refl
  launch_all_drains zero par (c ∷ cs) w p h = absurd (omega arith)
  launch_all_drains (suc fuel) par (c ∷ cs) w p h =
      launch_all_drains fuel par (launch_round os par (c ∷ cs) w).0
        (os.wait (launch_round os par (c ∷ cs) w).1) p (omega (arith, launch_round-lt par c cs w p))

  -- one result to a command
  pub length-run_serial :
      (cs : List Bytes) (t : ℕ) (w : W) → length (run_serial os cs t w).0 ≡ length cs
  unfolding run_serial
  length-run_serial [] t w = refl
  length-run_serial (c ∷ cs) t w = omega (arith, length-run_serial cs t (os.run_single c [] t w).1)

  -- `runAll` returns one result for each command, whatever the limit of parallel children is and
  -- whether or not the commands can be started.
  pub length-run_all :
      (cs : List Bytes) (t par : ℕ) (w : W) → length (run_all os cs t par w).0 ≡ length cs
  unfolding run_all
  length-run_all cs t par w = length-run_serial cs t _

  -- What an observer of the started commands sees: a child that was made runs its command, and
  -- waiting runs nothing.
  pub record Log : Type 0 where
    pub ran : W → List Bytes
    pub launched :
        (c : Bytes) (w : W) → (os.spawn c w).0 ≡ true → ran (os.spawn c w).1 ≡ ran w ++ c ∷ []
    pub waited : (w : W) → ran (os.wait w) ≡ ran w

  module _ (log : Log) (starts : (c : Bytes) (w : W) → (os.spawn c w).0 ≡ true) where
    ran-launch_round :
        (slots : ℕ) (cs : List Bytes) (w : W)
        → log.ran (launch_round os slots cs w).1 ++ (launch_round os slots cs w).0 ≡ log.ran w ++ cs
    unfolding launch_round
    ran-launch_round slots [] w = refl
    ran-launch_round zero (c ∷ cs) w = refl
    ran-launch_round (suc slots) (c ∷ cs) w =
        ran-launch_round (if (os.spawn c w).0 then slots else suc slots) cs (os.spawn c w).1
        ∙ rw (log.launched c w (starts c w), append_assoc)

    ran-launch_all :
        (fuel par : ℕ) (cs : List Bytes) (w : W)
        → log.ran (launch_all os fuel par cs w).1 ++ (launch_all os fuel par cs w).0
          ≡ log.ran w ++ cs
    unfolding launch_all
    ran-launch_all zero par [] w = refl
    ran-launch_all (suc fuel) par [] w = refl
    ran-launch_all zero par (c ∷ cs) w = refl
    ran-launch_all (suc fuel) par (c ∷ cs) w =
        ran-launch_all fuel par (launch_round os par (c ∷ cs) w).0
          (os.wait (launch_round os par (c ∷ cs) w).1)
        ∙ rw log.waited (ran-launch_round par (c ∷ cs) w)

    started : (r : List Bytes × W) → r.0 ≡ [] → log.ran r.1 ≡ log.ran r.1 ++ r.0
    started r e = rw (e, append-nil)

    -- Where no start fails, the first loop of `runAll` has a child run every command, in order, before
    -- the serial loop begins; what is returned is not of these runs, but what `xRunSingle`, called once
    -- more for each command, then gives.
    pub run_all_twice :
        (cs : List Bytes) (t par : ℕ) (w : W)
        → (w' : W) × (log.ran w' ≡ log.ran w ++ cs)
          × (run_all os cs t par w ≡ run_serial os cs t w')
    unfolding run_all launch_all
    run_all_twice [] t par w = (w, simp append-nil, refl)
    run_all_twice (c ∷ cs) t par w =
        let p = if nat_eq par 0 then length (c ∷ cs) else par in
        let started_all = launch_all os (length (c ∷ cs)) p (c ∷ cs) w in
        let positive : 0 < p = ground arith in
        let none_left = launch_all_drains (length (c ∷ cs)) p (c ∷ cs) w positive (omega arith) in
        (
          started_all.1,
          started started_all none_left ∙ ran-launch_all (length (c ∷ cs)) p (c ∷ cs) w,
          refl,
        )
