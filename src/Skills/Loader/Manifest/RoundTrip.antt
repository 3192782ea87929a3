-- ===== src/Skills/Loader/Manifest/RoundTrip.antt =====
-- What a manifest keeps when it is written and read back: `writeManifest` and `xParseManifestFile` of
-- src/skills/skill_loader.cpp.
use a.Base.{
  ◌≡◌, refl, ap, false, ◌||◌, List, [], map, Option, none, some, Bytes, codes, pos, bytes_eq,
  bytes_key, if◌then◌else◌,
}
use a.Base.Fault.{◌>>=◌}
use a.Shared.Json.{Json, Laws, Conversions, ConversionLaws}
use a.Ipc.Message.RoundTrip.{field_at}
use a.Skills.Types.{
  TrustLevel, high, medium, low, SkillTool, ValidatorBinding, Prompt, SkillManifest,
}
use a.Skills.Loader.Manifest.{
  trust_text, trust_of, given, tool_fields, tool_json, parse_tool, validator_json, prompt_fields,
  prompt_json, manifest_fields, manifest_json, parse_validator, prompt_text, parse_prompt,
  parse_manifest,
}
use a.Skills.Loader.Manifest.Fields.{
  written, find-written, text_back, short_text_back, flag_back, number_back, given_back, texts_back,
  string_back, absent_flag, array_back,
}

trust_of-trust_text : (t : TrustLevel) → trust_of (trust_text t) ≡ t
unfolding trust_of trust_text bytes_eq
trust_of-trust_text high = refl
trust_of-trust_text medium = refl
trust_of-trust_text low = refl

-- a tool as it is read back
abbrev pub reread : {J : Type 0} → Json J → Conversions J → SkillTool J → SkillTool J
reread json conv t = record t {
  input_schema = json.null;
  output_schema = json.null;
  parameters =
      if json.is_null t.parameters || conv.empty t.parameters then json.null else t.parameters;
  streaming = false;
}

abbrev reread_validator : ValidatorBinding → ValidatorBinding
reread_validator v = record v { transform = none }

-- a prompt as it is read back
abbrev pub reread_prompt : Prompt → Prompt
reread_prompt p = record p {
  validators = map reread_validator p.validators;
  compose_file = [];
  apt_dependencies = [];
  ns = [];
  component = [];
}

-- a manifest as it is read back
abbrev pub reread_manifest :
    {J : Type 0} → Json J → Conversions J → SkillManifest J → SkillManifest J
reread_manifest json conv m = record m {
  source_url = [];
  commit_hash = [];
  tools = map (reread json conv) m.tools;
  prompts = map reread_prompt m.prompts;
  compat = [];
  dependencies = [];
}

module _ {J : Type 0} (json : Json J) (conv : Conversions J) (laws : Laws json)
    (more : ConversionLaws json conv) where
  abbrev kept_parameters : SkillTool J → J
  kept_parameters t =
      if json.is_null t.parameters || conv.empty t.parameters then json.null else t.parameters

  -- the reader of the trust level
  abbrev read_trust : J → Option TrustLevel
  read_trust v = json.as_text v >>= λ s. some (trust_of s)

  trust_back :
      (fs : List (Bytes × Option J)) (t : TrustLevel)
      → field_at (codes "trustLevel") fs none ≡ some (json.text (trust_text t))
      → given json conv read_trust medium (written json conv laws more fs) (codes "trustLevel")
        ≡ some t
  unfolding given
  trust_back fs t e =
      rw
        (
          given,
          find-written json conv laws more (codes "trustLevel") fs,
          e,
          laws.as_text-text (trust_text t),
        )
        (ap some (trust_of-trust_text t))

  -- A tool that was written reads back without a fault as it was, but for its schemas and its mark
  -- of streaming, which the file does not have, and for empty parameters, which become null.
  parse_tool-tool_json :
      (t : SkillTool J) → parse_tool json conv (tool_json json conv t) ≡ some (reread json conv t)
  unfolding parse_tool tool_json tool_fields bytes_eq
  parse_tool-tool_json t =
      let fs = tool_fields json conv t in
      rw
        (
          parse_tool,
          text_back json conv laws more fs (codes "name") t.name [] refl,
          text_back json conv laws more fs (codes "description") t.description [] refl,
          text_back json conv laws more fs (codes "command") t.command [] refl,
          text_back json conv laws more fs (codes "inputMode") t.input_mode (codes "stdin") refl,
          flag_back json conv laws more fs (codes "systemTool") t.system_tool refl,
          flag_back json conv laws more fs (codes "default") t.default_tool refl,
          number_back json conv laws more fs (codes "timeoutSecs") t.timeout_secs (pos 30) refl,
          given_back json conv laws more some json.null (kept_parameters t)
              (json.is_null t.parameters || conv.empty t.parameters) t.parameters fs
              (codes "parameters") refl (λ h. rw h refl) (λ h. rw h refl),
          string_back json conv laws more fs (codes "dockerImage") t.docker_image refl,
          trust_back fs t.trust_level refl,
          texts_back json conv laws more t.apt_dependencies fs (codes "aptDependencies") refl,
          short_text_back json conv laws more fs (codes "subCommand") t.sub_command refl,
          absent_flag json conv laws more fs (codes "streaming") refl,
        )
        refl

  parse_validator-validator_json :
      (v : ValidatorBinding)
      → parse_validator json conv (validator_json json conv v) ≡ some (reread_validator v)
  unfolding parse_validator validator_json bytes_eq
  parse_validator-validator_json v =
      rw
        (
          parse_validator,
          more.value_text_object (json.set (codes "toolName") (json.text v.tool_name) json.object)
              (codes "toolName") []
              (laws.set_is (codes "toolName") (json.text v.tool_name) json.object laws.object_is),
          laws.find-set (codes "toolName") (codes "toolName") (json.text v.tool_name) json.object
              laws.object_is,
          laws.as_text-text v.tool_name,
        )
        refl

  -- A prompt that was written reads back as it was, but for what the file does not have.
  parse_prompt-prompt_json :
      (read_file : Bytes → Option Bytes) (path : Bytes) (p : Prompt)
      → parse_prompt json conv read_file path (prompt_json json conv p) ≡ some (reread_prompt p)
  unfolding parse_prompt prompt_json prompt_fields prompt_text bytes_eq
  parse_prompt-prompt_json read_file path p =
      let fs = prompt_fields json conv p in
      rw
        (
          parse_prompt,
          text_back json conv laws more fs (codes "name") p.name [] refl,
          text_back json conv laws more fs (codes "description") p.description [] refl,
          prompt_text,
          find-written json conv laws more (codes "promptFile") fs,
          text_back json conv laws more fs (codes "prompt") p.prompt [] refl,
          texts_back json conv laws more p.dependencies fs (codes "dependencies") refl,
          texts_back json conv laws more p.chain fs (codes "chain") refl,
          array_back json conv laws more (parse_validator json conv) (validator_json json conv)
              reread_validator p.validators fs (codes "validators") parse_validator-validator_json
              refl,
          flag_back json conv laws more fs (codes "parallelValidators") p.parallel_validators refl,
        )
        refl

  -- The JSON value that `writeManifest` makes of a manifest is read back without a fault, and it gives
  -- what was written but for what the value does not have: the source, the
  -- commit, the bridges and dependencies of the manifest, the schemas and the streaming of a tool, and the
  -- transforms of a validator; empty parameters come back as null.
  pub parse_manifest-manifest_json :
      (read_file : Bytes → Option Bytes) (path : Bytes) (m : SkillManifest J)
      → parse_manifest json conv read_file path m.ns (manifest_json json conv m)
        ≡ some (reread_manifest json conv m)
  unfolding parse_manifest manifest_json manifest_fields bytes_eq
  parse_manifest-manifest_json read_file path m =
      let fs = manifest_fields json conv m in
      rw
        (
          parse_manifest,
          text_back json conv laws more fs (codes "name") m.name [] refl,
          text_back json conv laws more fs (codes "version") m.version (codes "0.0.0") refl,
          text_back json conv laws more fs (codes "description") m.description [] refl,
          array_back json conv laws more (parse_tool json conv) (tool_json json conv)
              (reread json conv) m.tools fs (codes "tools") parse_tool-tool_json refl,
          array_back json conv laws more (parse_prompt json conv read_file path)
              (prompt_json json conv) reread_prompt m.prompts fs (codes "prompts")
              (parse_prompt-prompt_json read_file path) refl,
          texts_back json conv laws more m.sub_modules fs (codes "subModules") refl,
        )
        refl
