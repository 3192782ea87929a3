-- ===== src/Skills/Execute/Handlers.antt =====
-- A start without missing handlers leaves no system tool without one: `missingHandlers` and the
-- look-ups of `executeToolWithMeta` of src/skills/skill_manager.cpp.
use a.Base.{
  ◌≡◌, refl, ap, sym, ◌∙◌, Bool, true, false, ◌&&◌, ◌||◌, [], ◌++◌, Option, none, some, Bytes,
  codes, is_empty, bytes_eq, bytes_eq_iff, bytes_key, lookup, Option-cases, Bool-cases, inl, inr,
  ◌⊎◌,
}
use mathlib.Core.List.{Memᴰ}
use a.Skills.Types.{SkillTool, SkillNamespace, system, local, github, SkillManifest}
use a.Skills.Names.{
  parse_qualified_name, build_qualified_name, parse_qualified_name-build_qualified_name,
  no_underscore,
}
use a.Skills.Names
use a.Skills.Loader.{list_components, get_manifest, same_ns}
use a.Skills.Table.{ns_text, missing_handlers, is_handled}
use a.Skills.Table.Missing.{is_handled_when_none_missing}
use a.Skills.Execute.{Manager, Handler, find_handler, alias_handler, wildcard_handler, sub_command}

abbrev is_some : {A : Type 0} → Option A → Bool
is_some none = false
is_some (some a) = true

module _ {J W : Type 0} (mgr : Manager J W) where
  abbrev pub has_handler : Bytes → Bool
  has_handler qn = is_some (lookup qn mgr.handlers)

  pub IsFound : Bytes → Type 0
  IsFound qn = (call : Handler J W × Bytes) × (find_handler qn mgr ≡ some call)

  exact : (qn : Bytes) → has_handler qn ≡ true → IsFound qn
  unfolding find_handler IsFound
  exact qn h = elim (Option-cases (lookup qn mgr.handlers)) [
    | inl gone ↦ let clash : false ≡ true = sym (ap is_some gone) ∙ h in cc
    | inr (handler, there) ↦ ((handler, []), rw (find_handler, there) refl)
  ]

  -- a handler for all of a component is found when nothing nearer is
  by_wildcard :
      (qn ns comp name : Bytes)
      → parse_qualified_name qn ≡ some (ns, (comp, name))
      → has_handler (ns ++ codes "_" ++ comp ++ codes "_*") ≡ true
      → IsFound qn
  unfolding find_handler IsFound wildcard_handler
  by_wildcard qn ns comp name parsed h = elim (Option-cases (lookup qn mgr.handlers)) [
    | inr (handler, there) ↦ ((handler, []), rw (find_handler, there) refl)
    | inl gone ↦ elim (Option-cases (alias_handler qn mgr)) [
      | inr (handler, there) ↦ ((handler, []), rw (find_handler, gone, there) refl)
      | inl no_alias ↦
          elim (Option-cases (lookup (ns ++ codes "_" ++ comp ++ codes "_*") mgr.handlers)) [
            | inl none_all ↦ let clash : false ≡ true = sym (ap is_some none_all) ∙ h in cc
            | inr (handler, there) ↦ (
              (handler, sub_command qn name mgr),
              rw (find_handler, gone, no_alias, wildcard_handler, parsed, there) refl,
            )
          ]
    ]
  ]

  by_alias :
      (qn ns comp name : Bytes)
      → parse_qualified_name qn ≡ some (ns, (comp, name))
      → is_empty name ≡ false
      → has_handler (ns ++ codes "_" ++ comp ++ codes "_" ++ name) ≡ true
      → IsFound qn
  unfolding find_handler IsFound alias_handler
  by_alias qn ns comp name parsed named h =
      elim (Bool-cases (bytes_eq (ns ++ codes "_" ++ comp ++ codes "_" ++ name) qn)) [
        | inl same ↦ exact qn (
            ap has_handler
              (sym ((bytes_eq_iff (ns ++ codes "_" ++ comp ++ codes "_" ++ name) qn).0 same))
            ∙ h)
        | inr other ↦ elim (Option-cases (lookup qn mgr.handlers)) [
          | inr (handler, there) ↦ ((handler, []), rw (find_handler, there) refl)
          | inl gone ↦
              elim (Option-cases
                (lookup (ns ++ codes "_" ++ comp ++ codes "_" ++ name) mgr.handlers)) [
                  | inl none_three ↦
                      let clash : false ≡ true = sym (ap is_some none_three) ∙ h in cc
                  | inr (handler, there) ↦ (
                    (handler, []),
                    rw (find_handler, gone, alias_handler, parsed, named, other, there) refl,
                  )
                ]
        ]
      ]

  or_third : (a b c : Bool) → (a || (b || c)) ≡ true → (a ≡ true) ⊎ ((b ≡ true) ⊎ (c ≡ true))
  or_third true b c h = inl refl
  or_third false true c h = inr (inl refl)
  or_third false false c h = inr (inr h)

  and_both : (a b : Bool) → (a && b) ≡ true → (a ≡ true) × (b ≡ true)
  and_both true true h = (refl, refl)
  and_both true false h = cc
  and_both false b h = cc

  -- a tool that counts as handled is found under the name that is built for it
  is_handled-IsFound :
      (ns : SkillNamespace) (comp name : Bytes)
      → parse_qualified_name (build_qualified_name (ns_text ns) comp name)
        ≡ some (ns_text ns, (comp, name))
      → is_empty name ≡ false
      → is_handled has_handler ns comp name ≡ true
      → IsFound (build_qualified_name (ns_text ns) comp name)
  unfolding is_handled build_qualified_name
  is_handled-IsFound ns comp name parsed named h =
      let qn = build_qualified_name (ns_text ns) comp name in
      elim (or_third (has_handler (ns_text ns ++ codes "_" ++ comp ++ codes "_" ++ name))
        (has_handler (ns_text ns ++ codes "_" ++ comp ++ codes "_*"))
        (bytes_eq name comp && has_handler (ns_text ns ++ codes "_" ++ comp)) h) [
          | inl three ↦ by_alias qn (ns_text ns) comp name parsed named three
          | inr (inl all) ↦ by_wildcard qn (ns_text ns) comp name parsed all
          | inr (inr short) ↦
              let (same, there) =
                and_both (bytes_eq name comp) (has_handler (ns_text ns ++ codes "_" ++ comp))
                  short in
              exact qn (ap has_handler (built_short ns comp name named same) ∙ there)
        ]
    where
      built_short :
          (ns : SkillNamespace) (comp name : Bytes)
          → is_empty name ≡ false
          → bytes_eq name comp ≡ true
          → build_qualified_name (ns_text ns) comp name ≡ ns_text ns ++ codes "_" ++ comp
      built_short ns comp name named same = rw (build_qualified_name, named, same) refl

  -- When no handler is reported as missing, a call of a system tool by the name that the manager builds
  -- for it finds a handler: for a tool with a name, of a listed component without an underscore, in the
  -- system or the local namespace.
  pub missing_handlers-IsFound :
      (ns : SkillNamespace) (comp : Bytes) (m : SkillManifest J) (tool : SkillTool J)
      → missing_handlers mgr.loader has_handler ≡ []
      → same_ns ns github ≡ false
      → no_underscore comp ≡ true
      → Memᴰ comp (list_components mgr.loader ns)
      → get_manifest mgr.loader ns comp ≡ some m
      → Memᴰ tool m.tools
      → tool.system_tool ≡ true
      → is_empty tool.name ≡ false
      → IsFound (build_qualified_name (ns_text ns) comp tool.name)
  unfolding ns_text
  missing_handlers-IsFound system comp m tool none_missing own plain listed there in_tools is_system
        named =
      is_handled-IsFound system comp tool.name
        (parse_qualified_name-build_qualified_name Names.system comp tool.name refl plain
          ∙ rw named refl)
        named
        (is_handled_when_none_missing mgr.loader has_handler system comp m tool none_missing listed
          there in_tools is_system)
  missing_handlers-IsFound local comp m tool none_missing own plain listed there in_tools is_system
        named =
      is_handled-IsFound local comp tool.name
        (parse_qualified_name-build_qualified_name Names.local comp tool.name refl plain
          ∙ rw named refl)
        named
        (is_handled_when_none_missing mgr.loader has_handler local comp m tool none_missing listed
          there in_tools is_system)
  missing_handlers-IsFound github comp m tool none_missing own plain listed there in_tools is_system
        named =
      cc
