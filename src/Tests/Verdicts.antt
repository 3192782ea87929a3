-- ===== src/Tests/Verdicts.antt =====
-- The validation of a manifest at concrete inputs.
use a.Base.{
  is_zero, starts_with, lookup, ℕ, ◌≡◌, refl, Bool, false, List, [], ◌∷◌, none, some, Bytes, codes,
  ℤ, pos, negsuc, bytes_eq,
}
use a.Executor.Runner.{CommandResult}
use a.Skills.Types.{SkillTool, SkillManifest, local, high}
use a.Skills.Loader.{Loader, get_manifest, index_key, ns_prefix}
use a.Skills.Names.{parse_qualified_name, parse_rest}
use a.Skills.Removal.{ensure_ns}
use a.Skills.Validation.{
  InvocationRow, InvocationRecord, find_replayed, input_of, replay_output, parsed, replay_record,
  apply_bridge,
}
use a.Skills.Validation.Verdicts.{validate_records, validate_skill}
use a.Skills.Validation.Replays.{failing_lines, validate_records_lem}
use a.Skills.Validation.Missing.{validate_skill-missing}
use a.Tests.Toys.{Toy, toy_json, dump}

abbrev ping : Bytes → Toy
ping s =
    Toy.field (codes "session") (Toy.text s)
      (Toy.field (codes "type") (Toy.text (codes "ping")) Toy.empty)

abbrev same : Toy → Toy → Bool
same a b = elim (toy_json.dump a) [
  | none ↦ false
  | some s ↦ elim (toy_json.dump b) [ none ↦ false | some t ↦ bytes_eq s t ]
]

-- every command prints its own text
abbrev run : Bytes → Bytes → ℤ → ℕ → CommandResult × ℕ
run command input seconds w =
    (record { stdout = command; stderr = []; exit_code = pos 0; timed_out = false }, w)

abbrev log_tool : SkillTool Toy
log_tool = record {
  name = codes "log";
  description = [];
  command = codes "new";
  input_mode = codes "stdin";
  input_schema = Toy.null;
  output_schema = Toy.null;
  docker_image = [];
  trust_level = high;
  apt_dependencies = [];
  system_tool = false;
  default_tool = false;
  timeout_secs = pos 30;
  parameters = Toy.empty;
  sub_command = [];
  streaming = false;
}

abbrev git : SkillManifest Toy
git = record {
  name = codes "git";
  version = codes "2.0";
  description = [];
  ns = local;
  source_url = [];
  commit_hash = [];
  tools = log_tool ∷ [];
  prompts = [];
  compat =
      record {
        tool_name = codes "log";
        since = codes "1.0";
        bridge_command = codes "old";
        description = [];
      }
      ∷ [];
  dependencies = [];
  sub_modules = [];
}

abbrev recorded : Bytes → Bytes → InvocationRecord Toy
recorded tool_name output = record {
  tool_name = tool_name;
  params = ping (codes "p");
  output = ping output;
  timestamp = pos 7;
}

-- the same output, one that the bridge gives, another one, and a tool that is gone
abbrev logs : List (InvocationRecord Toy)
logs =
    recorded (codes "log") (codes "new")
    ∷ recorded (codes "log") (codes "old")
    ∷ recorded (codes "log") (codes "other")
    ∷ recorded (codes "show") (codes "other")
    ∷ []

validate_records_lem_example :
    validate_records toy_json same run git logs (codes "before") 0 ≡ record {
      code = some (negsuc 0);
      report = failing_lines toy_json same run (recorded (codes "log") (codes "other") ∷ []);
      world = 0;
    }
unfolding dump replay_record apply_bridge find_replayed input_of replay_output parsed bytes_eq
    is_zero
validate_records_lem_example =
    validate_records_lem toy_json same run (λ c s t w. refl) git logs (codes "before") 0
      ((codes "p", refl), ((codes "p", refl), ((codes "p", refl), ((codes "p", refl), _))))

abbrev loader : Loader Toy
loader = record {
  root = codes "skills";
  components = (index_key local (codes "git"), git) ∷ [];
  ns_map = [];
}

-- a stored call of a tool whose component the loader does not know
abbrev row : InvocationRow
row = record {
  id = pos 1;
  message_id = pos 1;
  skill_id = pos 1;
  tool_name = codes "log";
  params_json = [];
  output_json = codes "old";
  timestamp = pos 7;
}

validate_skill-missing_example :
    (validate_skill toy_json same run
      (some (λ kind component w. (row ∷ [], w)))
      loader
      local
      (codes "local_svn_log")
      []
      0).code
    ≡ some (pos 0)
unfolding parse_qualified_name parse_rest ensure_ns get_manifest index_key ns_prefix lookup bytes_eq
    starts_with
validate_skill-missing_example =
    validate_skill-missing toy_json same run (some (λ kind component w. (row ∷ [], w))) loader local
      local (codes "local_svn_log") (codes "local") (codes "svn") (codes "log") [] 0 refl refl refl
