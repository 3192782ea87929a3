-- ===== src/Skills/Loader/Manifest.antt =====
-- The file `skill.json` of a component, written by `writeManifest` and read by `xParseManifestFile` of
-- src/skills/skill_loader.cpp.
pub mod Fields
pub mod RoundTrip
use a.Base.{
  ℕ, Bool, true, false, not, ◌&&◌, ◌||◌, List, [], ◌∷◌, ◌++◌, map, Option, none, some, Bytes, codes,
  ℤ, pos, is_empty, nat_eq, bytes_eq, if◌then◌else◌, drop, length, int_eq,
}
use a.Base.Fault.{◌>>=◌}
use a.Shared.Json.{Json, Conversions}
use a.Ipc.Message.{assign}
use a.Skills.Types.{
  TrustLevel, high, medium, low, SkillTool, SkillNamespace, local, ValidatorBinding, Prompt,
  SkillManifest,
}

trust_text : TrustLevel → Bytes
trust_text high = codes "HIGH"
trust_text low = codes "LOW"
trust_text medium = codes "MEDIUM"

-- any other text is `MEDIUM`
trust_of : Bytes → TrustLevel
trust_of s =
    if bytes_eq s (codes "HIGH") then high else if bytes_eq s (codes "LOW") then low else medium

-- the path before its last separator, all of it without one
before_separator : Bytes → Option Bytes
before_separator [] = none
before_separator (c ∷ s) = elim (before_separator s) [
  | some p ↦ some (c ∷ p)
  | none ↦ if nat_eq c 47 || nat_eq c 92 then some [] else none
]

base_dir : Bytes → Bytes
unfolding before_separator
base_dir path = elim (before_separator path) [ none ↦ path | some p ↦ p ]

-- each of the values, unless one throws
pub each {ℓ κ} : {A : Type ℓ} {B : Type κ} → (A → Option B) → List A → Option (List B)
each f [] = some []
each f (x ∷ xs) = do y ← f x; ys ← each f xs; some (y ∷ ys)

module _ {J : Type 0} (json : Json J) (conv : Conversions J) where
  -- `none` for what is left out of the file
  pub unless : Bool → J → Option J
  unless left_out v = if left_out then none else some v

  pub tool_fields : SkillTool J → List (Bytes × Option J)
  unfolding unless trust_text
  tool_fields t =
      (codes "name", some (json.text t.name))
      ∷ (codes "description", some (json.text t.description))
      ∷ (codes "command", some (json.text t.command))
      ∷ (codes "inputMode", some (json.text t.input_mode))
      ∷ (codes "systemTool", unless (not t.system_tool) (conv.bool true))
      ∷ (codes "default", unless (not t.default_tool) (conv.bool true))
      ∷ (codes "timeoutSecs", unless (int_eq t.timeout_secs (pos 30)) (json.int t.timeout_secs))
      ∷ (codes "dockerImage", unless (is_empty t.docker_image) (json.text t.docker_image))
      ∷ (codes "trustLevel", some (json.text (trust_text t.trust_level)))
      ∷ (
        codes "aptDependencies",
        unless (is_empty t.apt_dependencies) (conv.texts t.apt_dependencies),
      )
      ∷ (
        codes "parameters",
        unless (json.is_null t.parameters || conv.empty t.parameters) t.parameters,
      )
      ∷ (codes "subCommand", unless (is_empty t.sub_command) (json.text t.sub_command))
      ∷ []

  pub tool_json : SkillTool J → J
  tool_json t = assign json (tool_fields t) json.object

  validator_json : ValidatorBinding → J
  validator_json v = json.set (codes "toolName") (json.text v.tool_name) json.object

  pub prompt_fields : Prompt → List (Bytes × Option J)
  unfolding unless validator_json
  prompt_fields p =
      (codes "name", some (json.text p.name))
      ∷ (codes "description", some (json.text p.description))
      ∷ (codes "prompt", some (json.text p.prompt))
      ∷ (codes "dependencies", unless (is_empty p.dependencies) (conv.texts p.dependencies))
      ∷ (codes "chain", unless (is_empty p.chain) (conv.texts p.chain))
      ∷ (
        codes "validators",
        unless (is_empty p.validators) (json.array (map validator_json p.validators)),
      )
      ∷ (codes "parallelValidators", unless (not p.parallel_validators) (conv.bool true))
      ∷ []

  pub prompt_json : Prompt → J
  prompt_json p = assign json (prompt_fields p) json.object

  pub manifest_fields : SkillManifest J → List (Bytes × Option J)
  unfolding unless tool_json prompt_json
  manifest_fields m =
      (codes "name", some (json.text m.name))
      ∷ (codes "version", some (json.text m.version))
      ∷ (codes "description", some (json.text m.description))
      ∷ (codes "tools", unless (is_empty m.tools) (json.array (map tool_json m.tools)))
      ∷ (codes "prompts", unless (is_empty m.prompts) (json.array (map prompt_json m.prompts)))
      ∷ (codes "subModules", unless (is_empty m.sub_modules) (conv.texts m.sub_modules))
      ∷ []

  pub manifest_json : SkillManifest J → J
  manifest_json m = assign json (manifest_fields m) json.object

  -- if (j.contains(k)) field = read(j[k]), over the default
  pub given : {A : Type 0} → (J → Option A) → A → J → Bytes → Option A
  given read default_value j k = elim (json.find j k) [
    | none ↦ some default_value
    | some v ↦ read v
  ]

  -- Reading is `none` where it throws.
  pub parse_tool : J → Option (SkillTool J)
  unfolding given trust_of
  parse_tool j = do
    name ← json.value_text j (codes "name") []
    description ← json.value_text j (codes "description") []
    command ← json.value_text j (codes "command") []
    input_mode ← json.value_text j (codes "inputMode") (codes "stdin")
    system_tool ← conv.value_bool j (codes "systemTool") false
    default_tool ← conv.value_bool j (codes "default") false
    timeout_secs ← json.value_int j (codes "timeoutSecs") (pos 30)
    parameters ← given some json.null j (codes "parameters")
    docker_image ← given json.as_text [] j (codes "dockerImage")
    trust_level ←
        given (λ v. json.as_text v >>= λ s. some (trust_of s)) medium j (codes "trustLevel")
    apt_dependencies ← given conv.as_texts [] j (codes "aptDependencies")
    sub_command ← json.value_text j (codes "subCommand") []
    streaming ← conv.value_bool j (codes "streaming") false
    some (record {
      name = name;
      description = description;
      command = command;
      input_mode = input_mode;
      input_schema = json.null;
      output_schema = json.null;
      docker_image = docker_image;
      trust_level = trust_level;
      apt_dependencies = apt_dependencies;
      system_tool = system_tool;
      default_tool = default_tool;
      timeout_secs = timeout_secs;
      parameters = parameters;
      sub_command = sub_command;
      streaming = streaming;
    })

  parse_validator : J → Option ValidatorBinding
  parse_validator j = do
    tool_name ← json.value_text j (codes "toolName") []
    some (record { tool_name = tool_name; transform = none })

  -- a file is read as the text of the prompt; one that is not there leaves it empty
  prompt_text : (Bytes → Option Bytes) → Bytes → J → Option Bytes
  unfolding base_dir
  prompt_text read_file path j = elim (json.find j (codes "promptFile")) [
    | none ↦ json.value_text j (codes "prompt") []
    | some v ↦ json.as_text v >>= λ rel_path.
        some (elim (read_file (base_dir path ++ codes "/" ++ rel_path)) [ none ↦ [] | some s ↦ s ])
  ]

  pub parse_prompt : (Bytes → Option Bytes) → Bytes → J → Option Prompt
  unfolding given prompt_text parse_validator
  parse_prompt read_file path j = do
    name ← json.value_text j (codes "name") []
    description ← json.value_text j (codes "description") []
    prompt ← prompt_text read_file path j
    dependencies ← given conv.as_texts [] j (codes "dependencies")
    chain ← given conv.as_texts [] j (codes "chain")
    validators ← given (λ v. each parse_validator (conv.walk v)) [] j (codes "validators")
    parallel_validators ← conv.value_bool j (codes "parallelValidators") false
    some (record {
      name = name;
      description = description;
      prompt = prompt;
      dependencies = dependencies;
      validators = validators;
      chain = chain;
      compose_file = [];
      apt_dependencies = [];
      ns = [];
      component = [];
      parallel_validators = parallel_validators;
    })

  -- the manifest but for its namespace, which a caller sets
  pub parse_manifest :
      (Bytes → Option Bytes) → Bytes → SkillNamespace → J → Option (SkillManifest J)
  unfolding given parse_tool parse_prompt
  parse_manifest read_file path ns j = do
    name ← json.value_text j (codes "name") []
    version ← json.value_text j (codes "version") (codes "0.0.0")
    description ← json.value_text j (codes "description") []
    tools ← given (λ v. each parse_tool (conv.walk v)) [] j (codes "tools")
    prompts ← given (λ v. each (parse_prompt read_file path) (conv.walk v)) [] j (codes "prompts")
    sub_modules ← given conv.as_texts [] j (codes "subModules")
    some (record {
      name = name;
      version = version;
      description = description;
      ns = ns;
      source_url = [];
      commit_hash = [];
      tools = tools;
      prompts = prompts;
      compat = [];
      dependencies = [];
      sub_modules = sub_modules;
    })
