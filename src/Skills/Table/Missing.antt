-- ===== src/Skills/Table/Missing.antt =====
-- What an empty list of missing handlers says of each system tool: `missingHandlers` of
-- src/skills/skill_manager.cpp.
use a.Base.{
  ◌≡◌, refl, ap, sym, ◌∙◌, Bool, true, false, not, ◌||◌, List, [], ◌∷◌, ◌++◌, map, some, Bytes,
  if◌then◌else◌,
}
use mathlib.Core.List.{flatten, Memᴰ}
use a.Skills.Types.{SkillTool, SkillNamespace, system, local, github, SkillManifest}
use a.Skills.Loader.{Loader, list_components, get_manifest}
use a.Skills.Table.{
  missing_handlers, over_manifests, of_namespace, of_component, missing_in, missing_tool,
  is_handled,
}

no_parts : {C : Type 0} (xs ys : List C) → xs ++ ys ≡ [] → (xs ≡ []) × (ys ≡ [])
no_parts [] ys e = (refl, e)
no_parts (x ∷ xs) ys e = cc

-- what an element adds to an empty list is empty
none_of :
    {A B : Type 0} (f : A → List B) (x : A) (xs : List A)
    → Memᴰ x xs
    → flatten (map f xs) ≡ []
    → f x ≡ []
unfolding flatten
none_of f x [] m e = elim m [ ]
none_of f x (y ∷ ys) (Memᴰ.head same) e = ap f same ∙ (no_parts (f y) (flatten (map f ys)) e).0
none_of f x (y ∷ ys) (Memᴰ.tail m) e = none_of f x ys m (no_parts (f y) (flatten (map f ys)) e).1

ns_listed : (ns : SkillNamespace) → Memᴰ ns (system ∷ local ∷ github ∷ [])
ns_listed system = Memᴰ.head refl
ns_listed local = Memᴰ.tail (Memᴰ.head refl)
ns_listed github = Memᴰ.tail (Memᴰ.tail (Memᴰ.head refl))

module _ {J : Type 0} (loader : Loader J) where
  unlisted :
      (b c : Bool) (qn : Bytes) → (if not b || c then [] else qn ∷ []) ≡ [] → b ≡ true → c ≡ true
  unlisted true true qn e h = refl
  unlisted true false qn e h = cc
  unlisted false c qn e h = cc

  -- A system tool of a listed component is handled when nothing is reported as missing.
  pub is_handled_when_none_missing :
      (has : Bytes → Bool) (ns : SkillNamespace) (comp : Bytes) (m : SkillManifest J)
      (tool : SkillTool J)
      → missing_handlers loader has ≡ []
      → Memᴰ comp (list_components loader ns)
      → get_manifest loader ns comp ≡ some m
      → Memᴰ tool m.tools
      → tool.system_tool ≡ true
      → is_handled has ns comp tool.name ≡ true
  unfolding missing_handlers over_manifests of_namespace of_component missing_in missing_tool
  is_handled_when_none_missing has ns comp m tool none_missing listed there in_tools is_system =
      let of_ns =
        none_of (of_namespace loader (missing_in loader has)) ns (system ∷ local ∷ github ∷ [])
          (ns_listed ns) none_missing in
      let of_comp =
        none_of (of_component loader (missing_in loader has) ns) comp (list_components loader ns)
          listed of_ns in
      let of_manifest : missing_in loader has ns comp m ≡ [] =
        sym (rw (of_component, there) refl) ∙ of_comp in
      let of_tool = none_of (missing_tool loader has ns comp) tool m.tools in_tools of_manifest in
      unlisted tool.system_tool (is_handled has ns comp tool.name) _ of_tool is_system
