-- ===== src/Tests/Catalog.antt =====
-- The loader and the skill manager at concrete inputs.
use a.Base.{
  zero, suc, ◌≢◌, ℕ, ◌+◌, ◌≡◌, refl, ap, sym, subst, ◌∙◌, ◌<◌, true, false, List, [], ◌∷◌, none,
  some, arith, Bytes, codes, ℤ, pos, starts_with, bytes_eq, bytes_key, lookup, insert, All,
  if◌then◌else◌, Bool-cases, inl, inr, bytes_eq_iff,
}
use mathlib.Core.List.{Memᴰ, flatten}
use a.Skills.Types.{SkillTool, SkillManifest, Prompt, SkillNamespace, system, local, high}
use a.Skills.Names.{build_qualified_name}
use a.Skills.Loader.{
  Disk, Loader, get_prompt, get_manifest, list_components, names_in, ns_for_dir, index_key,
  ns_prefix, prompt_named,
}
use a.Skills.Loader.Manifest.{manifest_json}
use a.Skills.Loader.Loading.{loader_of, load_all}
use a.Skills.Loader.Loading.Keys.{IsKeyed, load_all-IsKeyed}
use a.Skills.Prompts.{chain_prompt, collect_chain, is_qualified, found_prompt}
use a.Skills.Prompts.Unfolding.{
  Flattens, IsRanking, chain_prompt-All, collect_chain-Flattens, collect_chain-endless,
}
use a.Skills.Table.{
  Table, place, place_all, short_name, after_last, split_parts, rebuilt, join_from,
  missing_handlers, over_manifests, of_namespace, of_component, missing_in, missing_tool,
  is_handled, ns_text,
}
use a.Skills.Table.Naming.{Reached, place_ends, all_parts}
use a.Skills.Table.Naming.Building.{IsNameOf, place_all-builds, place_endless}
use a.Skills.Execute.{Manager}
use a.Skills.Execute.Handlers.{IsFound, missing_handlers-IsFound}
use a.Skills.Versions.{StoredVersion, VersionManager, is_dead, collect}
use a.Skills.Versions.Collection.{collect_lem, collect-dry}
use a.Skills.Removal.{remove, get_manifest-remove}
use a.Tests.Toys.{Toy, toy_json, toy_conversions}

abbrev tool : Bytes → SkillTool Toy
tool name = record {
  name = name;
  description = codes "runs";
  command = codes "run";
  input_mode = codes "stdin";
  input_schema = Toy.null;
  output_schema = Toy.null;
  docker_image = [];
  trust_level = high;
  apt_dependencies = codes "git" ∷ [];
  system_tool = true;
  default_tool = false;
  timeout_secs = pos 30;
  parameters = Toy.empty;
  sub_command = [];
  streaming = true;
}

abbrev prompt : Bytes → List Bytes → Prompt
prompt name chain = record {
  name = name;
  description = [];
  prompt = name;
  dependencies = [];
  validators = [];
  chain = chain;
  compose_file = [];
  apt_dependencies = [];
  ns = [];
  component = [];
  parallel_validators = true;
}

abbrev manifest : SkillNamespace → Bytes → List (SkillTool Toy) → List Prompt → SkillManifest Toy
manifest ns name tools prompts = record {
  name = name;
  version = codes "1.0.0";
  description = [];
  ns = ns;
  source_url = [];
  commit_hash = [];
  tools = tools;
  prompts = prompts;
  compat = [];
  dependencies = [];
  sub_modules = [];
}

abbrev git_manifest : SkillManifest Toy
git_manifest =
    manifest system (codes "git") (tool (codes "log") ∷ []) (prompt (codes "help") [] ∷ [])

abbrev empty_disk : Disk Toy ℕ
empty_disk = record {
  list_dir = λ path w. none;
  is_dir = λ path w. false;
  read_json = λ path w. none;
  read_file = λ path w. none;
  conforms = λ j. true;
  make_dir = λ path w. w + 1;
  open_file = λ path w. some w;
  write_text = λ path text w. w + 1;
  shell = λ command w. (pos 0, w + 1);
}

abbrev loader : Loader Toy
loader = record {
  root = codes "skills";
  components =
      (codes "system_git", git_manifest)
      ∷ (codes "local_git", manifest local (codes "git") [] [])
      ∷ [];
  ns_map = [];
}

-- a disk with one component of the system
abbrev git_file : Disk Toy ℕ
git_file = record empty_disk {
  read_json = λ path w. some (manifest_json toy_json toy_conversions git_manifest);
}

abbrev one_skill : Disk Toy ℕ
one_skill = record empty_disk {
  list_dir = λ path w. some (codes "." ∷ codes "git" ∷ []);
  is_dir = λ path w. true;
  read_json = λ path w. some (manifest_json toy_json toy_conversions git_manifest);
}

load_all-IsKeyed_example :
    IsKeyed (loader_of (load_all toy_json toy_conversions one_skill 0 loader).1)
load_all-IsKeyed_example = load_all-IsKeyed toy_json toy_conversions one_skill 0 loader

abbrev circle : Loader Toy
circle = record {
  root = codes "skills";
  components =
      (
        codes "system_git",
        manifest system (codes "git") [] (prompt (codes "again") (codes "again" ∷ []) ∷ []),
      )
      ∷ [];
  ns_map = [];
}

collect_chain-endless_example :
    collect_chain circle 9 (codes "system") (codes "git") (codes "again" ∷ []) ≡ none
unfolding chain_prompt is_qualified found_prompt get_prompt ns_for_dir index_key ns_prefix
    prompt_named starts_with bytes_eq lookup
collect_chain-endless_example =
    collect_chain-endless circle (codes "system") (codes "git") (codes "again") []
      (prompt (codes "again") (codes "again" ∷ [])) refl refl 9 []

abbrev nested : Loader Toy
nested = record {
  root = codes "skills";
  components =
      (
        codes "system_git",
        manifest system (codes "git") []
            (prompt (codes "all") (codes "help" ∷ []) ∷ prompt (codes "help") [] ∷ []),
      )
      ∷ [];
  ns_map = [];
}

-- the help has no chain, and every chain is at most the help
abbrev rank : Bytes → ℕ
rank name = if bytes_eq name (codes "help") then 0 else 1

abbrev IsShort : Prompt → Type 0
IsShort p = All (λ inner. rank inner < 1) p.chain

help_is_last :
    (cp : Prompt)
    → chain_prompt nested (codes "system") (codes "git") (codes "help") ≡ some cp
    → All (λ inner. rank inner < 0) cp.chain
unfolding chain_prompt is_qualified found_prompt get_prompt ns_for_dir index_key ns_prefix
    prompt_named starts_with bytes_eq lookup
help_is_last cp e =
    let same : prompt (codes "help") [] ≡ cp = cc in
    subst (λ (p : Prompt). All (λ inner. rank inner < 0) p.chain) same tt

nested-IsRanking : IsRanking nested (codes "system") (codes "git") rank
unfolding bytes_eq
nested-IsRanking name cp there = elim (Bool-cases (bytes_eq name (codes "help"))) [
  | inl is_help ↦
      let same : name ≡ codes "help" = (bytes_eq_iff name (codes "help")).0 is_help in
      rw is_help (
        help_is_last cp
          (sym (ap (chain_prompt nested (codes "system") (codes "git")) same) ∙ there))
  | inr other ↦ rw other (
      chain_prompt-All nested (codes "system") (codes "git") IsShort
        (((omega arith, tt), (tt, tt)), tt) name cp there)
]

collect_chain-Flattens_example :
    (parts : List Bytes) × (collect_chain nested 2 (codes "system") (codes "git") (codes "all" ∷ [])
      ≡ some parts)
    × Flattens nested (codes "system") (codes "git") (codes "all" ∷ []) parts
unfolding bytes_eq
collect_chain-Flattens_example =
    collect_chain-Flattens nested (codes "system") (codes "git") rank 2 (codes "all" ∷ [])
      nested-IsRanking refl (omega arith, tt)

abbrev named : Table
named = (codes "log", codes "system_git_log") ∷ []

place_ends_example :
    (name : Bytes) × (lookup name named ≡ none)
    × (place 5 (codes "local_git_log") named ≡ some (insert name (codes "local_git_log") named))
unfolding rebuilt join_from split_parts bytes_eq lookup
place_ends_example = place_ends 5 (codes "local_git_log") named refl (omega arith)

differ : (a b : Bytes) → bytes_eq a b ≡ false → a ≢ b
differ a b apart same = let clash : false ≡ true = sym apart ∙ (bytes_eq_iff a b).1 same in cc

-- whatever the first entry is called, it is not as the second as a whole
apart_names : (name : Bytes) → IsNameOf (codes "system_git_log") name → name ≢ codes "local_git_log"
unfolding rebuilt join_from split_parts short_name after_last bytes_eq
apart_names name (inl short) e = differ (codes "log") (codes "local_git_log") refl (sym short ∙ e)
apart_names name (inr (zero, two)) e =
    differ (codes "git_log") (codes "local_git_log") refl (sym two ∙ e)
apart_names name (inr (suc k, all)) e =
    differ (codes "system_git_log") (codes "local_git_log") refl
      (sym (all ∙ all_parts (split_parts (codes "system_git_log")) (suc k + 2) (omega arith)) ∙ e)

place_all-builds_example :
    (last : Table) × (place_all 5 (codes "system_git_log" ∷ codes "local_git_log" ∷ []) []
      ≡ some last)
    × All (Reached last) (codes "system_git_log" ∷ codes "local_git_log" ∷ [])
unfolding rebuilt join_from split_parts bytes_eq lookup
place_all-builds_example =
    place_all-builds 5 (codes "system_git_log" ∷ codes "local_git_log" ∷ []) []
      ((apart_names, tt), (tt, tt)) (refl, (refl, tt)) (omega arith, (omega arith, tt))

-- the names that are left when a tool of another component has the short one
abbrev full : Table
full = (codes "bash", codes "system_a_bash") ∷ (codes "system_bash", codes "system_bash") ∷ []

place_endless_example : place 1000 (codes "system_bash") full ≡ none
unfolding rebuilt join_from split_parts short_name after_last bytes_eq lookup
place_endless_example =
    place_endless 1000 (codes "system_bash") full (codes "system_a_bash", refl)
      (λ k. (
        codes "system_bash",
        ap (λ name. lookup name full)
            (all_parts (split_parts (codes "system_bash")) (k + 2) (omega arith)),
      ))

abbrev manager : Manager Toy ℕ
manager = record {
  loader = loader;
  handlers =
      (
        codes "system_git_*",
        λ params sub w. (some (record { output = sub; recommended_tools = [] }), w),
      )
      ∷ [];
  tool_runner = none;
  docker_runner = none;
  persistence = none;
  session_db_id = 0;
}

missing_handlers-IsFound_example : IsFound manager (codes "system_git_log")
unfolding missing_handlers over_manifests of_namespace of_component missing_in missing_tool
    is_handled ns_text get_manifest list_components names_in index_key ns_prefix
    build_qualified_name bytes_eq lookup flatten
missing_handlers-IsFound_example =
    missing_handlers-IsFound manager system (codes "git") git_manifest (tool (codes "log")) refl
      refl refl (Memᴰ.head refl) refl (Memᴰ.head refl) refl refl

abbrev version : ℤ → StoredVersion
version count = record {
  commit_hash = codes "c1";
  version = codes "1.0";
  refcount = count;
  installed_at = pos 5;
}

abbrev stored : List (Bytes × StoredVersion)
stored = (codes "local:a:c1", version (pos 0)) ∷ (codes "local:b:c1", version (pos 2)) ∷ []

collect_lem_example :
    (last : ℕ) × (collect empty_disk 3 false (codes "store") stored 0 0
      ≡ some
          (record { removed = 1; kept = (codes "local:b:c1", version (pos 2)) ∷ []; world = last }))
unfolding is_dead
collect_lem_example = collect_lem empty_disk 3 (codes "store") stored 0 0 (omega arith)

collect-dry_example : collect empty_disk 20 true (codes "store") stored 0 0 ≡ none
unfolding is_dead
collect-dry_example = collect-dry empty_disk 20 (codes "store") stored 0 0 (omega arith)

abbrev versions : VersionManager
versions = record { store_root = codes "store"; skills_root = codes "skills"; versions = stored }

get_manifest-remove_example :
    get_manifest
      (remove toy_json toy_conversions empty_disk (codes "local_git") loader versions 0).loader
      system
      (codes "git")
    ≡ get_manifest loader system (codes "git")
get_manifest-remove_example =
    get_manifest-remove toy_json toy_conversions empty_disk (codes "local_git") system (codes "git")
      loader versions 0 refl
