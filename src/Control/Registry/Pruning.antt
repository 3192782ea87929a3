-- ===== src/Control/Registry/Pruning.antt =====
-- What `pruneStale` of src/c2/b1_registry.cpp removes.
use a.Base.{
  ℕ, suc, ◌+◌, ◌≡◌, refl, Bool, true, false, not, ◌||◌, [], ◌∷◌, Option, none, some, Bytes, codes,
  length, select, every, arith, nat_key, Bool-cases, Option-cases, inl, inr,
}
use a.Shared.Json.{Json}
use a.Control.Registry.{
  Registry, returned, announce, prune_stale, is_stale, stale_json, keep, erase_after, count_one,
}

module _ {J W : Type 0} (json : Json J) (sse : Option (Bytes → Bytes → W → W)) where
  -- whether the broadcast of some data does not throw
  abbrev tells : J → Bool
  tells j = elim sse [ none ↦ true | some _ ↦ elim (json.dump j) [ none ↦ false | some _ ↦ true ] ]

  announce_told :
      {A : Type 0} (event_type : Bytes) (j : J) (result : A) (b1s : Registry) (w : W)
      → tells j ≡ true
      → (u : W) × (announce json sse event_type j result b1s w ≡ returned result b1s u)
  unfolding announce
  announce_told event_type j result b1s w told = elim (Option-cases sse) [
    | inl quiet ↦ (w, rw (announce, quiet) refl)
    | inr (broadcast, live) ↦ elim (Option-cases (json.dump j)) [
      | inl bad ↦ absurd (ground arith)
      | inr (text, good) ↦ (broadcast event_type text w, rw (announce, live, good) refl)
    ]
  ]

  -- Where no stale instance has text that cannot be dumped: pruning returns, removes exactly the
  -- instances whose last update is too long ago, keeps the others as they were, and returns how many
  -- it removed.
  pub prune_stale_lem :
      (max_age now : ℕ) (timestamp : Bytes) (b1s : Registry) (w : W)
      → every
          (λ e. not (is_stale json sse max_age now e) || tells (stale_json json sse timestamp e))
          b1s
        ≡ true
      → (removed : ℕ) × ((v : W) × (prune_stale json sse max_age now timestamp b1s w
            ≡ returned removed (select (λ e. not (is_stale json sse max_age now e)) b1s) v)
          × (removed + length (select (λ e. not (is_stale json sse max_age now e)) b1s)
              ≡ length b1s))
  unfolding prune_stale keep erase_after announce count_one
  prune_stale_lem max_age now timestamp [] w told = (0, (w, refl, omega arith))
  prune_stale_lem max_age now timestamp (e ∷ b1s) w told =
      elim (Bool-cases (is_stale json sse max_age now e)) [
        | inl stale ↦
            let (u, said) =
              announce_told (codes "b1_disconnected") (stale_json json sse timestamp e) tt b1s w
                (ground arith) in
            let (n, (v, eq, count)) = prune_stale_lem max_age now timestamp b1s u (ground arith) in
            (suc n, (v, rw (stale, said, eq) refl, rw stale (omega (arith, count))))
        | inr fresh ↦
            let (n, (v, eq, count)) = prune_stale_lem max_age now timestamp b1s w (ground arith) in
            (n, (v, rw (fresh, eq) refl, rw fresh (omega (arith, count))))
      ]
