-- ===== src/Skills/Prompts.antt =====
-- Prompt chains: `xCollectChain` and `getPromptResolved` of src/skills/skill_manager.cpp.
pub mod Unfolding
use a.Base.{
  ℕ, zero, suc, Bool, true, false, not, ◌&&◌, ◌||◌, List, [], ◌∷◌, ◌++◌, Option, none, some, Bytes,
  codes, ℤ, pos, negsuc, is_empty, starts_with, if◌then◌else◌,
}
use a.Skills.Types.{Prompt, Lookup, found, failed}
use a.Skills.Names.{parse_qualified_name, build_qualified_name}
use a.Skills.Loader.{Loader, get_prompt, get_tool}

-- the prefixes by which a name counts as qualified
unfoldable pub is_qualified : Bytes → Bool
is_qualified name =
    starts_with (codes "system_") name
    || starts_with (codes "local_") name
    || starts_with (codes "github_") name

unfoldable pub found_prompt : Lookup Prompt → Option Prompt
found_prompt (found p) = some p
found_prompt (failed _) = none

is_found : {A : Type 0} → Lookup A → Bool
is_found (found _) = true
is_found (failed _) = false

-- between the parts, a blank line
pub join_parts : List Bytes → Bytes
join_parts [] = []
join_parts (part ∷ []) = part
join_parts (part ∷ next ∷ rest) = part ++ codes "\n\n" ++ join_parts (next ∷ rest)

module _ {J : Type 0} (loader : Loader J) where
  -- a short name is looked up in the component that the chain started in, at any depth
  unfoldable pub chain_prompt : Bytes → Bytes → Bytes → Option Prompt
  unfolding is_qualified found_prompt
  chain_prompt ns component chain_name =
      let elsewhere : Option Prompt = elim (parse_qualified_name chain_name) [
        | none ↦ none
        | some (ns2, (component2, name2)) ↦ found_prompt (get_prompt loader ns2 component2 name2)
      ] in
      if is_qualified chain_name
      then elsewhere
      else found_prompt (get_prompt loader ns component chain_name)

  -- the loop over a chain, by what collects the chain of an entry, if it has one
  walk_chain : (List Bytes → Option (List Bytes)) → Bytes → Bytes → List Bytes → Option (List Bytes)
  walk_chain nested ns component [] = some []
  walk_chain nested ns component (name ∷ rest) =
      let behind = walk_chain nested ns component rest in
      elim (chain_prompt ns component name) [
        | none ↦ behind
        | some cp ↦ elim (if is_empty cp.chain then some [] else nested cp.chain) [
          | none ↦ none
          | some inner ↦ elim behind [
            | none ↦ none
            | some outer ↦ some (inner ++ cp.prompt ∷ outer)
          ]
        ]
      ]

  -- `none` where the fuel, the depth of calls, does not do: a chain that comes back to itself has no end
  pub collect_chain : ℕ → Bytes → Bytes → List Bytes → Option (List Bytes)
  unfolding walk_chain
  collect_chain zero ns component chain = none
  collect_chain (suc f) ns component chain =
      walk_chain (collect_chain f ns component) ns component chain

  -- what is written to `out`, the parts with the target's own text behind them
  resolved : Bytes → Bytes → Prompt → List Bytes → Prompt → Prompt
  resolved ns component target parts out = record out {
    name = target.name;
    description = target.description;
    dependencies = target.dependencies;
    validators = target.validators;
    ns = ns;
    component = component;
    prompt = join_parts (parts ++ target.prompt ∷ []);
  }

  resolve_target : ℕ → Bytes → Bytes → Prompt → Prompt → Option (Lookup Prompt)
  unfolding resolved
  resolve_target f ns component target out =
      elim (if is_empty target.chain then some [] else collect_chain f ns component target.chain) [
        | none ↦ none
        | some parts ↦ some (found (resolved ns component target parts out))
      ]

  pub get_prompt_resolved : ℕ → Bytes → Prompt → Option (Lookup Prompt)
  unfolding resolve_target
  get_prompt_resolved f qualified out = elim (parse_qualified_name qualified) [
    | none ↦ some (failed (negsuc 1))
    | some (ns, (component, prompt_name)) ↦ elim (get_prompt loader ns component prompt_name) [
      | failed rc ↦ some (failed rc)
      | found target ↦ resolve_target f ns component target out
    ]
  ]

  -- `resolveName`, with the return code
  pub resolve_name : Bytes → Bytes → Bytes → ℤ × Bytes
  unfolding is_found
  resolve_name component_ns component_name short_name =
      let has_tool = is_found (get_tool loader component_ns component_name short_name) in
      let has_prompt = is_found (get_prompt loader component_ns component_name short_name) in
      if is_qualified short_name
      then (pos 0, short_name)
      else if has_tool || has_prompt
      then (pos 0, build_qualified_name component_ns component_name short_name)
      else (pos 1, short_name)
