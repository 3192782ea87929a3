-- ===== src/Skills/Loader.antt =====
-- SkillLoader (src/skills/skill_loader.cpp): the components in memory and their files. The file system
-- is read and changed through `Disk`, over a world `W`; the schema that a manifest must conform to is
-- checked by a library and enters as `conforms`, true where no schema was loaded.
pub mod Erasing
pub mod Loading
pub mod Lookups
pub mod Manifest
use a.Base.{
  ℕ, Bool, true, false, not, ◌||◌, List, [], ◌∷◌, ◌++◌, Option, none, some, Bytes, codes, ℤ, pos,
  negsuc, bytes_eq, starts_with, if◌then◌else◌, lookup, insert, erase, bytes_key, select, map,
}
use a.Shared.Json.{Json, Conversions}
use a.Skills.Types.{
  SkillTool, SkillNamespace, system, local, github, Prompt, SkillManifest, Lookup, found, failed,
}
use a.Skills.Loader.Manifest.{manifest_json, parse_manifest}

-- `list_dir` is none for what is no directory; `read_json` is none for a file that cannot be opened or
-- whose text is no JSON; `shell` is `system`; `open_file` makes a file empty, or is none where it cannot.
pub record Disk (J W : Type 0) : Type 0 where
  pub list_dir : Bytes → W → Option (List Bytes)
  pub is_dir : Bytes → W → Bool
  pub read_json : Bytes → W → Option J
  pub read_file : Bytes → W → Option Bytes
  pub conforms : J → Bool
  pub make_dir : Bytes → W → W
  pub open_file : Bytes → W → Option W
  pub write_text : Bytes → Bytes → W → W
  pub shell : Bytes → W → ℤ × W

pub record Loader (J : Type 0) : Type 0 where
  pub root : Bytes
  pub components : List (Bytes × SkillManifest J)
  pub ns_map : List (Bytes × SkillNamespace)

unfoldable pub ns_prefix : SkillNamespace → Bytes
ns_prefix system = codes "system_"
ns_prefix local = codes "local_"
ns_prefix github = codes "github_"

unfoldable pub index_key : SkillNamespace → Bytes → Bytes
unfolding ns_prefix
index_key ns component = ns_prefix ns ++ component

dir_for_namespace : SkillNamespace → Bytes
dir_for_namespace system = codes "system"
dir_for_namespace local = codes "local"
dir_for_namespace github = []

is_read_only : SkillNamespace → Bool
is_read_only system = true
is_read_only _ = false

abbrev pub same_ns : SkillNamespace → SkillNamespace → Bool
same_ns system system = true
same_ns local local = true
same_ns github github = true
same_ns _ _ = false

-- the return code with what a call leaves behind; `none` for an exception
abbrev pub Code : Type 0
Code = Option ℤ

unfoldable pub prompt_named : Bytes → List Prompt → Option Prompt
prompt_named name [] = none
prompt_named name (p ∷ ps) =
    let behind = prompt_named name ps in if bytes_eq p.name name then some p else behind

module _ {J : Type 0} where
  unfoldable pub ns_for_dir : Loader J → Bytes → SkillNamespace
  ns_for_dir l dir = elim (lookup (l.root ++ codes "/" ++ dir) l.ns_map) [
    | some ns ↦ ns
    | none ↦
        if bytes_eq dir (codes "system")
        then system
        else if bytes_eq dir (codes "local")
        then local
        else github
  ]

  tool_named : Bytes → List (SkillTool J) → Option (SkillTool J)
  tool_named name [] = none
  tool_named name (t ∷ ts) =
      let behind = tool_named name ts in if bytes_eq t.name name then some t else behind

  -- the tool of a name in a component that was looked for
  tool_in : Bytes → Option (SkillManifest J) → Lookup (SkillTool J)
  unfolding tool_named
  tool_in name none = failed (negsuc 0)
  tool_in name (some m) = elim (tool_named name m.tools) [
    | none ↦ failed (negsuc 1)
    | some t ↦ found t
  ]

  pub get_tool : Loader J → Bytes → Bytes → Bytes → Lookup (SkillTool J)
  unfolding ns_for_dir tool_in
  get_tool l ns component tool_name =
      tool_in tool_name (lookup (index_key (ns_for_dir l ns) component) l.components)

  unfoldable pub get_prompt : Loader J → Bytes → Bytes → Bytes → Lookup Prompt
  unfolding ns_for_dir prompt_named
  get_prompt l ns component prompt_name =
      elim (lookup (index_key (ns_for_dir l ns) component) l.components) [
        | none ↦ failed (negsuc 0)
        | some m ↦ elim (prompt_named prompt_name m.prompts) [
          | none ↦ failed (negsuc 1)
          | some p ↦ found p
        ]
      ]

  unfoldable pub get_manifest : Loader J → SkillNamespace → Bytes → Option (SkillManifest J)
  get_manifest l ns component = lookup (index_key ns component) l.components

  unfoldable pub names_in : SkillNamespace → List (Bytes × SkillManifest J) → List Bytes
  names_in ns [] = []
  names_in ns ((key, m) ∷ rest) =
      let behind = names_in ns rest in if same_ns m.ns ns then m.name ∷ behind else behind

  unfoldable pub list_components : Loader J → SkillNamespace → List Bytes
  unfolding names_in
  list_components l ns = names_in ns l.components

  -- a component that is made for its first tool or prompt
  abbrev new_component : Bytes → List (SkillTool J) → List Prompt → SkillManifest J
  new_component component tools prompts = record {
    name = component;
    version = codes "0.1.0";
    description = [];
    ns = local;
    source_url = [];
    commit_hash = [];
    tools = tools;
    prompts = prompts;
    compat = [];
    dependencies = [];
    sub_modules = [];
  }

  put_component : Bytes → SkillManifest J → Loader J → Loader J
  put_component key m l = record l { components = insert key m l.components }

  -- the first tool of a name, replaced
  replace_tool : Bytes → SkillTool J → List (SkillTool J) → Option (List (SkillTool J))
  replace_tool name tool [] = none
  replace_tool name tool (t ∷ ts) =
      let behind : Option (List (SkillTool J)) = elim (replace_tool name tool ts) [
        | none ↦ none
        | some rest ↦ some (t ∷ rest)
      ] in
      if bytes_eq t.name name then some (tool ∷ ts) else behind

module _ {J W : Type 0} (json : Json J) (conv : Conversions J) (disk : Disk J W) where
  pub write_manifest : Bytes → Bytes → SkillManifest J → W → Code × W
  unfolding dir_for_namespace is_read_only
  write_manifest root component m w =
      let dir = root ++ codes "/" ++ dir_for_namespace m.ns ++ codes "/" ++ component in
      let path = dir ++ codes "/skill.json" in
      let made = disk.make_dir dir w in
      let wrote : Code × W = elim (disk.open_file path made) [
        | none ↦ (some (negsuc 0), made)
        | some opened ↦ elim (conv.pretty (manifest_json json conv m)) [
          | none ↦ (none, opened)
          | some text ↦ (some (pos 0), disk.write_text path (text ++ codes "\n") opened)
        ]
      ] in
      if is_read_only m.ns then (some (negsuc 0), w) else wrote

  -- a component of the local namespace is changed in memory, then written
  store : Bytes → SkillManifest J → Loader J → W → Code × (Loader J × W)
  unfolding put_component
  store component m l w =
      let (code, after) = write_manifest l.root component m w in
      (code, (put_component (index_key local component) m l, after))

  pub add_tool : Bytes → SkillTool J → Loader J → W → Code × (Loader J × W)
  unfolding store
  add_tool component tool l w = elim (lookup (index_key local component) l.components) [
    | none ↦ store component (new_component component (tool ∷ []) []) l w
    | some m ↦ store component (record m { tools = m.tools ++ tool ∷ [] }) l w
  ]

  pub add_prompt : Bytes → Prompt → Loader J → W → Code × (Loader J × W)
  unfolding store
  add_prompt component prompt l w = elim (lookup (index_key local component) l.components) [
    | none ↦ store component (new_component component [] (prompt ∷ [])) l w
    | some m ↦ store component (record m { prompts = m.prompts ++ prompt ∷ [] }) l w
  ]

  pub update_tool : Bytes → Bytes → SkillTool J → Loader J → W → Code × (Loader J × W)
  unfolding store replace_tool
  update_tool component name tool l w = elim (lookup (index_key local component) l.components) [
    | none ↦ (some (negsuc 0), (l, w))
    | some m ↦ elim (replace_tool name tool m.tools) [
      | none ↦ (some (negsuc 0), (l, w))
      | some tools ↦ store component (record m { tools = tools }) l w
    ]
  ]

module _ {J W : Type 0} (disk : Disk J W) where
  pub remove_component : Bytes → Loader J → W → ℤ × (Loader J × W)
  unfolding is_read_only
  remove_component component l w = elim (lookup (index_key local component) l.components) [
    | none ↦ (negsuc 0, (l, w))
    | some m ↦ if is_read_only m.ns then (negsuc 0, (l, w)) else (
      pos 0,
      (
        record l { components = erase (index_key local component) l.components },
        (disk.shell (codes "rm -rf " ++ l.root ++ codes "/local/" ++ component) w).1,
      ),
    )
  ]
