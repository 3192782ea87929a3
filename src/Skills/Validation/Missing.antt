-- ===== src/Skills/Validation/Missing.antt =====
-- What validate of src/skills/skill_manager.cpp finds of a skill whose manifest it does not have.
use a.Base.{
  pos, ◌≡◌, refl, ap, Bool, List, [], ◌∷◌, Option, none, some, Bytes, ℤ, Bool-cases, inl, inr,
  is_empty,
}
use a.Shared.Json.{Json}
use a.Executor.Runner.{CommandResult}
use a.Skills.Types.{SkillNamespace, SkillTool, SkillManifest}
use a.Skills.Names.{parse_qualified_name}
use a.Skills.Loader.{Loader, get_manifest}
use a.Skills.Removal.{ensure_ns}
use a.Skills.Validation.{
  InvocationRecord, no_output, find_replayed, load_logs, InvocationRow, replay_record,
}
use a.Skills.Validation.Verdicts.{
  skipped, Tally, count, ns_string, validate, empty_manifest, validate_skill, judge_record,
  check_records, decide, no_tally, validate_records,
}

module _ {J W : Type 0} (json : Json J) (same : J → J → Bool)
    (run : Bytes → Bytes → ℤ → W → CommandResult × W) where
  replay_no_tools :
      (r : InvocationRecord J) (tools : List (SkillTool J)) (w : W)
      → tools ≡ []
      → replay_record json same run r tools w ≡ (no_output, w)
  unfolding replay_record find_replayed
  replay_no_tools r tools w h = rw h refl

  judge_no_tools :
      (m : SkillManifest J) (r : InvocationRecord J) (w : W)
      → m.tools ≡ []
      → judge_record json same run r m w ≡ (some skipped, w)
  unfolding judge_record
  judge_no_tools m r w h =
      let none_given = replay_no_tools r m.tools w h in
      rw (judge_record, ap (λ p. p.0) none_given, ap (λ p. p.1) none_given) refl

  check_no_tools :
      (m : SkillManifest J) (rs : List (InvocationRecord J)) (t : Tally) (w : W)
      → m.tools ≡ []
      → check_records json same run m rs t w ≡ (some t, w)
  unfolding check_records count
  check_no_tools m [] t w h = refl
  check_no_tools m (r ∷ rs) t w h =
      rw
        (
          check_records,
          ap (λ p. p.0) (judge_no_tools m r w h),
          ap (λ p. p.1) (judge_no_tools m r w h),
        )
        (check_no_tools m rs t w h)

  validate_no_tools :
      (m : SkillManifest J) (store : Option (ℤ → Bytes → W → List InvocationRow × W))
      (which : SkillNamespace) (component report : Bytes) (w : W)
      → m.tools ≡ []
      → (validate json same run store which component m report w).code ≡ some (pos 0)
  unfolding validate validate_records decide no_tally
  validate_no_tools m store which component report w h =
      let (logs, after) = load_logs json store (ns_string which) component w in
      elim (Bool-cases (is_empty logs)) [
        | inl e ↦ rw (validate, e) refl
        | inr e ↦
            rw
              (
                validate,
                e,
                validate_records,
                ap (λ p. p.0) (check_no_tools m logs (no_tally json same run) after h),
              )
              refl
      ]

  -- A name whose namespace is known and whose component has no manifest is found valid, whatever calls
  -- were recorded for it.
  pub validate_skill-missing :
      (store : Option (ℤ → Bytes → W → List InvocationRow × W)) (loader : Loader J)
      (unset which : SkillNamespace) (qualified_name ns component name report : Bytes) (w : W)
      → parse_qualified_name qualified_name ≡ some (ns, (component, name))
      → ensure_ns ns ≡ some which
      → get_manifest loader which component ≡ none
      → (validate_skill json same run store loader unset qualified_name report w).code
        ≡ some (pos 0)
  unfolding validate_skill empty_manifest
  validate_skill-missing store loader unset which q ns component name report w h known absent =
      rw (validate_skill, h, known, absent)
        (validate_no_tools (empty_manifest json same run unset) store which component report w refl)
