-- ===== src/Skills/Loader/Lookups.antt =====
-- What the loader finds after a tool was added: `addTool` and `getTool` of src/skills/skill_loader.cpp.
use a.Base.{
  ◌≡◌, refl, ap, sym, ◌∙◌, Bool, true, false, List, [], ◌∷◌, ◌++◌, Option, none, some, Bytes, codes,
  negsuc, arith, bytes_eq, bytes_eq_iff, if◌then◌else◌, lookup, lookup-insert, bytes_key, ◌==◌,
  Option-cases, inl, inr, Bool-cases,
}
use a.Shared.Json.{Json, Conversions}
use a.Skills.Types.{SkillTool, local, Lookup, found, failed, SkillManifest}
use a.Skills.Loader.{
  Disk, Loader, index_key, ns_prefix, ns_for_dir, tool_named, tool_in, get_tool, put_component,
  store, add_tool, new_component,
}

-- a look-up that falls back on one more tool
abbrev pub or_tool :
    {J : Type 0} → Lookup (SkillTool J) → Bytes → SkillTool J → Lookup (SkillTool J)
or_tool (found t) name tool = found t
or_tool (failed _) name tool = if bytes_eq tool.name name then found tool else failed (negsuc 1)

then_ap :
    {A : Type 0} (b : Bool) {x y : A} (z : A)
    → (b ≡ true → x ≡ y)
    → (if b then x else z) ≡ (if b then y else z)
then_ap true z e = e refl
then_ap false z e = refl

module _ {J W : Type 0} (json : Json J) (conv : Conversions J) (disk : Disk J W) where
  tool_named-append :
      (name : Bytes) (tool : SkillTool J) (ts : List (SkillTool J))
      → tool_named name (ts ++ tool ∷ []) ≡ elim (tool_named name ts) [
        | some t ↦ some t
        | none ↦ if bytes_eq tool.name name then some tool else none
      ]
  unfolding tool_named
  tool_named-append name tool [] = refl
  tool_named-append name tool (t ∷ ts) = ground (arith, tool_named-append name tool ts)

  -- where the names of directories are not overridden, the directory `local` is the local namespace
  abbrev pub IsPlain : Loader J → Type 0
  IsPlain l = lookup (l.root ++ codes "/" ++ codes "local") l.ns_map ≡ none

  ns_for_dir-local : (l : Loader J) → IsPlain l → ns_for_dir l (codes "local") ≡ local
  unfolding ns_for_dir bytes_eq
  ns_for_dir-local l plain = rw (ns_for_dir, plain) refl

  get_tool-local :
      (l : Loader J) (component name : Bytes)
      → IsPlain l
      → get_tool l (codes "local") component name
        ≡ tool_in name (lookup (index_key local component) l.components)
  unfolding get_tool
  get_tool-local l component name plain =
      ap (λ ns. tool_in name (lookup (index_key ns component) l.components))
        (ns_for_dir-local l plain)

  in_branch :
      (b : Bool) (name : Bytes) (m : SkillManifest J) (o : Option (SkillManifest J))
      → tool_in name (if b then some m else o)
        ≡ (if b then tool_in name (some m) else tool_in name o)
  in_branch true name m o = refl
  in_branch false name m o = refl

  one_tool :
      (name : Bytes) (tool : SkillTool J)
      → elim (if bytes_eq tool.name name then some tool else none) as (λ _. Lookup (SkillTool J)) [
        | none ↦ failed (negsuc 1)
        | some t ↦ found t
      ]
        ≡ (if bytes_eq tool.name name then found tool else failed (negsuc 1))
  one_tool name tool = elim (Bool-cases (bytes_eq tool.name name)) [
    | inl y ↦ rw y refl
    | inr n ↦ rw n refl
  ]

  -- one more tool at the end of a component
  tool_in-append :
      (name : Bytes) (tool : SkillTool J) (m : SkillManifest J)
      → tool_in name (some (record m { tools = m.tools ++ tool ∷ [] }))
        ≡ or_tool (tool_in name (some m)) name tool
  unfolding tool_in
  tool_in-append name tool m = elim (Option-cases (tool_named name m.tools)) [
    | inl gone ↦ rw (tool_in, tool_named-append name tool m.tools, gone) (one_tool name tool)
    | inr (t, there) ↦ rw (tool_in, tool_named-append name tool m.tools, there) refl
  ]

  key_eq : (a b : Bytes) → (index_key local a == index_key local b) ≡ (a == b)
  unfolding index_key ns_prefix bytes_eq
  key_eq a b = refl

  get_tool-store :
      (component q name : Bytes) (m : SkillManifest J) (l : Loader J) (w : W)
      → IsPlain l
      → get_tool (store json conv disk component m l w).1.0 (codes "local") q name
        ≡ (if component == q then tool_in name (some m) else get_tool l (codes "local") q name)
  unfolding store put_component
  get_tool-store component q name m l w plain =
      get_tool-local (store json conv disk component m l w).1.0 q name plain
      ∙ ap (tool_in name) (
          lookup-insert (index_key local component) (index_key local q) m l.components
          ∙ ap (λ b. if b then some m else lookup (index_key local q) l.components)
              (key_eq component q))
      ∙ in_branch (component == q) name m (lookup (index_key local q) l.components)
      ∙ ap (λ x. if component == q then tool_in name (some m) else x)
          (sym (get_tool-local l q name plain))

  -- a component that holds one tool
  one_new :
      (component name : Bytes) (tool : SkillTool J)
      → tool_in name (some (new_component component (tool ∷ []) []))
        ≡ or_tool (failed (negsuc 0)) name tool
  unfolding tool_in tool_named
  one_new component name tool = one_tool name tool

  -- what was found before in the component that is added to
  found_before :
      (component q name : Bytes) (l : Loader J) (o : Option (SkillManifest J))
      → IsPlain l
      → (component == q) ≡ true
      → lookup (index_key local component) l.components ≡ o
      → get_tool l (codes "local") q name ≡ tool_in name o
  found_before component q name l o plain same e =
      get_tool-local l q name plain
      ∙ ap (λ k. tool_in name (lookup (index_key local k) l.components))
          (sym ((bytes_eq_iff component q).0 same))
      ∙ ap (tool_in name) e

  -- After `addTool`, whatever it returns, a look-up in the local namespace finds in the component that
  -- was added to what it found before, or else the new tool under its name, and in every other
  -- component what it found before.
  get_tool-add_tool :
      (component : Bytes) (tool : SkillTool J) (l : Loader J) (w : W) (q name : Bytes)
      → IsPlain l
      → get_tool (add_tool json conv disk component tool l w).1.0 (codes "local") q name ≡ (
          if component == q
          then or_tool (get_tool l (codes "local") q name) name tool
          else get_tool l (codes "local") q name)
  unfolding add_tool tool_in
  get_tool-add_tool component tool l w q name plain =
      elim (Option-cases (lookup (index_key local component) l.components)) [
        | inl gone ↦
            rw (add_tool, gone)
              (get_tool-store component q name (new_component component (tool ∷ []) []) l w plain
                ∙ then_ap (component == q) (get_tool l (codes "local") q name) (λ same.
                  one_new component name tool
                  ∙ ap (λ x. or_tool x name tool)
                      (sym (found_before component q name l none plain same gone))))
        | inr (m, there) ↦
            rw (add_tool, there)
              (get_tool-store component q name (record m { tools = m.tools ++ tool ∷ [] }) l w plain
                ∙ then_ap (component == q) (get_tool l (codes "local") q name) (λ same.
                  tool_in-append name tool m
                  ∙ ap (λ x. or_tool x name tool)
                      (sym (found_before component q name l (some m) plain same there))))
      ]
