-- ===== src/Core/Driven/Tools/Forward.antt =====
-- Which of the provider's events a tick passes on.
use a.Base.{ℕ, ◌≡◌, refl, List, [], ◌∷◌, arith}
use a.Shared.Events.{Event, llm_start, complete}
use a.Core.Driven.State.{CoreState, idle, Env, Core}
use a.Core.Driven.Tools.{forward}

-- the session ids under which goals are reported as complete
abbrev pub completions : List Event → List ℕ
completions [] = []
completions (complete session_id summary ∷ rest) = session_id ∷ completions rest
completions (ev ∷ rest) = completions rest

-- everything but the reports of completion
abbrev pub others : List Event → List Event
others [] = []
others (complete session_id summary ∷ rest) = others rest
others (ev ∷ rest) = ev ∷ others rest

-- the session once for each report, if the goal is over
abbrev pub final_only : CoreState → ℕ → List ℕ → List ℕ
final_only idle session [] = []
final_only idle session (_ ∷ rest) = session ∷ final_only idle session rest
final_only _ session ids = []

module _ {J W : Type 0} (env : Env J W) where
  -- All events but `Complete` are passed on, in order. A `Complete` is passed on only when the goal is
  -- over, and then under the session of the core, not under the id that the decoder gave it.
  forward_lem :
      (c : Core J W) (evs : List Event)
      → (others (forward env c evs) ≡ others evs)
        × (completions (forward env c evs) ≡ final_only c.state c.session_db_id (completions evs))
  unfolding forward
  forward_lem c [] = (refl, ground arith)
  forward_lem c (complete session_id summary ∷ rest) = ground (arith, forward_lem c rest)
  forward_lem c (llm_start stream_id round_seq ∷ rest) = ground (arith, forward_lem c rest)
  forward_lem c (ev ∷ rest) = ground (arith, forward_lem c rest)
