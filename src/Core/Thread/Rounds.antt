-- ===== src/Core/Thread/Rounds.antt =====
-- The loop of the thread keeps the core valid and never faults, whatever commands arrive when.
use a.Core.Driven.State.{Env, Core}
use a.Core.Driven
use a.Core.Driven.Tools.Invariant.{IsValid}
use a.Core.Thread.{Ports, Thread}

module _ {J W : Type 0} (env : Env J W) (ports : Ports W) where
  abbrev pub HasValidCore : Thread J W → Type 0
  HasValidCore t = IsValid t.core
