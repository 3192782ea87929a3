-- ===== src/Skills/Table.antt =====
-- What the skill manager lists of its components: `buildDispatchTable`, `listSkills`, `schemas` and
-- `missingHandlers` of src/skills/skill_manager.cpp.
pub mod Missing
pub mod Naming
use a.Base.{
  ℕ, zero, suc, ◌+◌, ◌-◌, Bool, true, false, not, ◌&&◌, ◌||◌, List, [], ◌∷◌, ◌++◌, map, Option,
  none, some, Bytes, codes, ℤ, is_empty, nat_eq, ltb, bytes_eq, if◌then◌else◌, length, drop, lookup,
  insert, bytes_key,
}
use mathlib.Core.List.{flatten}
use a.Base.Fault.{◌>>=◌}
use a.Shared.Json.{Json, Conversions}
use a.Skills.Types.{SkillTool, SkillNamespace, system, local, github, Prompt, SkillManifest}
use a.Skills.Names.{build_qualified_name}
use a.Skills.Loader.{Loader, list_components, get_manifest}

unfoldable pub ns_text : SkillNamespace → Bytes
ns_text system = codes "system"
ns_text local = codes "local"
ns_text github = codes "github"

-- the text behind the last underscore, all of it without one
unfoldable pub after_last : Bytes → Option Bytes
after_last [] = none
after_last (c ∷ s) =
    let behind = after_last s in
    elim behind [ some r ↦ some r | none ↦ if nat_eq c 95 then some s else none ]

unfoldable pub short_name : Bytes → Bytes
unfolding after_last
short_name qn = elim (after_last qn) [ none ↦ qn | some s ↦ s ]

-- `xSplit` at an underscore: what ends the text without one is a part unless it is empty
unfoldable pub split_parts : Bytes → List Bytes
split_parts [] = []
split_parts (c ∷ s) =
    let behind = split_parts s in
    if nat_eq c 95
    then [] ∷ behind
    else elim behind [ [] ↦ (c ∷ []) ∷ [] | part ∷ parts ↦ (c ∷ part) ∷ parts ]

-- the parts with an underscore before each, unless nothing is there yet
unfoldable pub join_from : Bytes → List Bytes → Bytes
join_from built [] = built
join_from built (part ∷ parts) =
    join_from ((if is_empty built then [] else built ++ codes "_") ++ part) parts

abbrev min_of : ℕ → ℕ → ℕ
min_of a b = if ltb a b then a else b

-- the last parts, as many as are asked for, at most all of them
unfoldable pub rebuilt : List Bytes → ℕ → Bytes
unfolding join_from
rebuilt parts segments = join_from [] (drop (length parts - min_of segments (length parts)) parts)

abbrev pub Table : Type 0
Table = List (Bytes × Bytes)

-- the loop for a name that is not taken; `none` where the rounds do not do
unfoldable pub choose : ℕ → ℕ → List Bytes → Bytes → Table → Option Bytes
choose zero attempt parts candidate table = none
choose (suc f) attempt parts candidate table =
    let next = choose f (suc attempt) parts (rebuilt parts (attempt + 2)) table in
    elim (lookup candidate table) [ none ↦ some candidate | some _ ↦ next ]

unfoldable pub place : ℕ → Bytes → Table → Option Table
unfolding split_parts
place f qn table = elim (choose f 0 (split_parts qn) (short_name qn) table) [
  | none ↦ none
  | some candidate ↦ some (insert candidate qn table)
]

unfoldable pub place_all : ℕ → List Bytes → Table → Option Table
place_all f [] table = some table
place_all f (qn ∷ rest) table = place f qn table >>= λ next. place_all f rest next

abbrev namespaces : List SkillNamespace
namespaces = system ∷ local ∷ github ∷ []

-- is there a handler for a system tool, exact, for all of its component, or under the short name
unfoldable pub is_handled : (Bytes → Bool) → SkillNamespace → Bytes → Bytes → Bool
is_handled has ns comp name =
    has (ns_text ns ++ codes "_" ++ comp ++ codes "_" ++ name)
    || (has (ns_text ns ++ codes "_" ++ comp ++ codes "_*")
        || (bytes_eq name comp && has (ns_text ns ++ codes "_" ++ comp)))

module _ {J : Type 0} (loader : Loader J) where
  -- what a manifest gives, nothing for a component that is listed under another name than its key
  unfoldable pub of_component :
      {A : Type 0}
      → (SkillNamespace → Bytes → SkillManifest J → List A)
      → SkillNamespace
      → Bytes
      → List A
  of_component f ns comp = elim (get_manifest loader ns comp) [ none ↦ [] | some m ↦ f ns comp m ]

  unfoldable pub of_namespace :
      {A : Type 0} → (SkillNamespace → Bytes → SkillManifest J → List A) → SkillNamespace → List A
  unfolding of_component
  of_namespace f ns = flatten (map (of_component f ns) (list_components loader ns))

  -- the loops over all namespaces and components
  unfoldable pub over_manifests :
      {A : Type 0} → (SkillNamespace → Bytes → SkillManifest J → List A) → List A
  unfolding of_namespace
  over_manifests f = flatten (map (of_namespace f) namespaces)

  entries_of : SkillNamespace → Bytes → SkillManifest J → List Bytes
  entries_of ns comp m =
      map (λ t. build_qualified_name (ns_text ns) comp t.name) m.tools
      ++ map (λ p. build_qualified_name (ns_text ns) comp p.name) m.prompts

  pub entries : List Bytes
  unfolding over_manifests entries_of
  entries = over_manifests entries_of

  pub build_dispatch_table : ℕ → Option Table
  build_dispatch_table f = place_all f entries []

  pub list_skills : Option SkillNamespace → List Bytes
  list_skills (some ns) = list_components loader ns
  list_skills none = flatten (map (list_components loader) namespaces)

  -- name, description and schema of each tool that the model may call
  schemas_of :
      Json J
      → Conversions J
      → Bool
      → SkillNamespace
      → Bytes
      → SkillManifest J
      → List (Bytes × (Bytes × J))
  schemas_of json conv default_only ns comp m = flatten (
      map
        (λ (t : SkillTool J).
          if (default_only && not t.default_tool)
            || (json.is_null t.parameters || conv.empty t.parameters)
          then []
          else (t.name, (t.description, t.parameters)) ∷ [])
        m.tools)

  pub schemas : Json J → Conversions J → Bool → List (Bytes × (Bytes × J))
  unfolding over_manifests schemas_of
  schemas json conv default_only = over_manifests (schemas_of json conv default_only)

  unfoldable pub missing_tool : (Bytes → Bool) → SkillNamespace → Bytes → SkillTool J → List Bytes
  unfolding is_handled
  missing_tool has ns comp t =
      if not t.system_tool || is_handled has ns comp t.name
      then []
      else (ns_text ns ++ codes "_" ++ comp ++ codes "_" ++ t.name) ∷ []

  unfoldable pub missing_in : (Bytes → Bool) → SkillNamespace → Bytes → SkillManifest J → List Bytes
  unfolding missing_tool
  missing_in has ns comp m = flatten (map (missing_tool has ns comp) m.tools)

  unfoldable pub missing_handlers : (Bytes → Bool) → List Bytes
  unfolding over_manifests missing_in
  missing_handlers has = over_manifests (missing_in has)
