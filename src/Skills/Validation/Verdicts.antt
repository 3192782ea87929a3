-- ===== src/Skills/Validation/Verdicts.antt =====
-- The verdict of the replays: `validate` of src/skills/validation_engine.cpp, and `validate` of
-- src/skills/skill_manager.cpp. The equality of JSON values is the argument `same`.
use a.Base.{
  ℕ, suc, Bool, true, false, List, [], ◌∷◌, ◌++◌, Option, none, some, Bytes, codes, ℤ, pos, negsuc,
  show_int, is_empty, bytes_eq, ltb, if◌then◌else◌,
}
use a.Shared.Json.{Json}
use a.Executor.Runner.{CommandResult}
use a.Skills.Types.{SkillNamespace, system, local, github, SkillManifest, CompatBridge}
use a.Skills.Names.{parse_qualified_name}
use a.Skills.Loader.{Loader, get_manifest}
use a.Skills.Removal.{ensure_ns}
use a.Skills.Validation.{
  InvocationRow, InvocationRecord, no_output, raised, output_is, load_logs, replay_record,
  apply_bridge,
}

pub data RecordOutcome : Type 0 where
  skipped kept bridged mismatch : RecordOutcome

pub record Tally : Type 0 where
  pub failures : ℕ
  pub bridges_used : ℕ
  pub text : Bytes

-- `none` for an exception
pub record Verdict (W : Type 0) : Type 0 where
  pub code : Option ℤ
  pub report : Bytes
  pub world : W

unfoldable pub ns_string : SkillNamespace → Bytes
ns_string system = codes "system"
ns_string local = codes "local"
ns_string github = codes "github"

-- the dash of the message is three bytes long
pub fail_line : {J : Type 0} → InvocationRecord J → Bytes
fail_line r =
    codes "FAIL: "
    ++ r.tool_name
    ++ codes " at timestamp "
    ++ show_int r.timestamp
    ++ codes " "
    ++ (226 ∷ 128 ∷ 148 ∷ [])
    ++ codes " output mismatch"
    ++ (10 ∷ [])

unfoldable pub count : RecordOutcome → Bytes → Tally → Tally
count skipped line t = t
count kept line t = t
count bridged line t = record {
  failures = t.failures;
  bridges_used = suc t.bridges_used;
  text = t.text;
}
count mismatch line t = record {
  failures = suc t.failures;
  bridges_used = t.bridges_used;
  text = t.text ++ line;
}

module _ {J W : Type 0} (json : Json J) (same : J → J → Bool)
    (run : Bytes → Bytes → ℤ → W → CommandResult × W) where
  -- whether a bridge of the tool gives the recorded output
  unfoldable pub try_bridges : InvocationRecord J → List CompatBridge → W → Option Bool × W
  unfolding apply_bridge
  try_bridges r [] w = (some false, w)
  try_bridges r (bridge ∷ rest) w =
      let (out, after) = apply_bridge json same run bridge r.params w in
      elim (bytes_eq bridge.tool_name r.tool_name) [
        | false ↦ try_bridges r rest w
        | true ↦ elim out [
          | no_output ↦ try_bridges r rest after
          | raised ↦ (none, after)
          | output_is j ↦ elim (same r.output j) [
            | true ↦ (some true, after)
            | false ↦ try_bridges r rest after
          ]
        ]
      ]

  -- the schema of the tool is looked up too, and not used
  unfoldable pub judge_record : InvocationRecord J → SkillManifest J → W → Option RecordOutcome × W
  unfolding replay_record try_bridges
  judge_record r m w =
      let (out, after) = replay_record json same run r m.tools w in
      let (found, last) = try_bridges r m.compat after in
      let bridge_outcome : Option RecordOutcome = elim found [
        | none ↦ none
        | some b ↦ some (if b then bridged else mismatch)
      ] in
      elim out [
        | no_output ↦ (some skipped, after)
        | raised ↦ (none, after)
        | output_is j ↦ elim (same r.output j) [
          | true ↦ (some kept, after)
          | false ↦ (bridge_outcome, last)
        ]
      ]

  unfoldable pub check_records :
      SkillManifest J → List (InvocationRecord J) → Tally → W → Option Tally × W
  unfolding judge_record count fail_line
  check_records m [] t w = (some t, w)
  check_records m (r ∷ rs) t w =
      let (judged, after) = judge_record r m w in
      elim judged [
        | none ↦ (none, after)
        | some o ↦ check_records m rs (count o (fail_line r) t) after
      ]

  unfoldable pub decide : ℕ → ℕ → ℤ
  decide failures bridges_used =
      if ltb 0 failures then negsuc 0 else if ltb 0 bridges_used then pos 1 else pos 0

  unfoldable pub no_tally : Tally
  no_tally = record { failures = 0; bridges_used = 0; text = [] }

  -- the report is written last, and stays as it was where an exception leaves the function
  unfoldable pub validate_records :
      SkillManifest J → List (InvocationRecord J) → Bytes → W → Verdict W
  unfolding check_records decide no_tally
  validate_records m logs report w =
      let (tally, after) = check_records m logs no_tally w in
      elim tally [
        | none ↦ record { code = none; report = report; world = after }
        | some t ↦ record {
          code = some (decide t.failures t.bridges_used);
          report = t.text;
          world = after;
        }
      ]

  unfoldable pub validate :
      Option (ℤ → Bytes → W → List InvocationRow × W)
      → SkillNamespace
      → Bytes
      → SkillManifest J
      → Bytes
      → W
      → Verdict W
  unfolding ns_string load_logs validate_records
  validate store ns component m report w =
      let (logs, after) = load_logs json store (ns_string ns) component w in
      let none_found : Verdict W = record {
        code = some (pos 0);
        report =
            codes "no historical logs " ++ (226 ∷ 128 ∷ 148 ∷ []) ++ codes " validation skipped";
        world = after;
      } in
      let checked = validate_records m logs report after in
      if is_empty logs then none_found else checked

  -- a manifest as it is before it is filled in; its namespace is not set and has the value given
  unfoldable pub empty_manifest : SkillNamespace → SkillManifest J
  empty_manifest unset = record {
    name = [];
    version = [];
    description = [];
    ns = unset;
    source_url = [];
    commit_hash = [];
    tools = [];
    prompts = [];
    compat = [];
    dependencies = [];
    sub_modules = [];
  }

  -- `validate` of the skill manager; whether the loader has the manifest is not looked at
  unfoldable pub validate_skill :
      Option (ℤ → Bytes → W → List InvocationRow × W)
      → Loader J
      → SkillNamespace
      → Bytes
      → Bytes
      → W
      → Verdict W
  unfolding empty_manifest
  validate_skill store loader unset qualified_name report w =
      elim (parse_qualified_name qualified_name) [
        | none ↦ record {
          code = some (negsuc 0);
          report = codes "invalid qualified name: " ++ qualified_name;
          world = w;
        }
        | some (ns, (component, name)) ↦ elim (ensure_ns ns) [
          | none ↦ record {
            code = some (negsuc 0);
            report = codes "unknown namespace: " ++ ns;
            world = w;
          }
          | some which ↦
              validate store which component
                (elim (get_manifest loader which component) [
                  | some m ↦ m
                  | none ↦ empty_manifest unset
                ])
                report w
        ]
      ]
