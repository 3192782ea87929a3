-- ===== src/Skills/Removal.antt =====
-- The removal of a skill: `remove` and `xEnsureNs` of src/skills/skill_manager.cpp over the loader and
-- the version manager.
use a.Base.{
  ◌≡◌, refl, false, [], Option, none, some, Bytes, codes, negsuc, starts_with, bytes_eq, bytes_key,
  if◌then◌else◌, if_elim, Option-cases, inl, inr,
}
use a.Shared.Json.{Json, Conversions}
use a.Skills.Types.{SkillNamespace, system, local, github}
use a.Skills.Names.{parse_qualified_name}
use a.Skills.Loader.{Disk, Loader, Code, get_manifest, same_ns, remove_component}
use a.Skills.Loader.Erasing.{remove_component-others}
use a.Skills.Versions.{VersionManager, release}

unfoldable pub ensure_ns : Bytes → Option SkillNamespace
ensure_ns ns =
    if bytes_eq ns (codes "system")
    then some system
    else if bytes_eq ns (codes "local")
    then some local
    else if starts_with (codes "github_") ns
    then some github
    else none

pub record Removal (J W : Type 0) : Type 0 where
  pub code : Code
  pub loader : Loader J
  pub versions : VersionManager
  pub world : W

module _ {J W : Type 0} (json : Json J) (conv : Conversions J) (disk : Disk J W) where
  refused : Loader J → VersionManager → W → Removal J W
  refused loader versions w = record {
    code = some (negsuc 0);
    loader = loader;
    versions = versions;
    world = w;
  }

  -- the version is released, and its code is not looked at unless it is an exception
  remove_from : SkillNamespace → Bytes → Loader J → VersionManager → W → Removal J W
  remove_from ns component loader versions w =
      let (released, (after, freed)) = release json conv disk ns component [] versions w in
      let (code, (left, last)) = remove_component disk component loader freed in
      elim released [
        | none ↦ record { code = none; loader = loader; versions = after; world = freed }
        | some _ ↦ record { code = some code; loader = left; versions = after; world = last }
      ]

  pub remove : Bytes → Loader J → VersionManager → W → Removal J W
  unfolding ensure_ns refused remove_from
  remove qualified_name loader versions w = elim (parse_qualified_name qualified_name) [
    | none ↦ refused loader versions w
    | some (ns, (component, name)) ↦ elim (ensure_ns ns) [
      | none ↦ refused loader versions w
      | some which ↦
          if same_ns which system
          then refused loader versions w
          else remove_from which component loader versions w
    ]
  ]

  abbrev Same : SkillNamespace → Bytes → Loader J → Loader J → Type 0
  Same ns component before after =
      get_manifest after ns component ≡ get_manifest before ns component

  -- the shape of the step behind the checks
  remove_from-others :
      (ns : SkillNamespace) (component : Bytes) (which : SkillNamespace) (removed : Bytes)
      (loader : Loader J) (versions : VersionManager) (w : W)
      → same_ns ns local ≡ false
      → Same ns component loader (remove_from which removed loader versions w).loader
  unfolding remove_from
  remove_from-others ns component which removed loader versions w h =
      let freed = (release json conv disk which removed [] versions w).1.1 in
      elim (Option-cases (release json conv disk which removed [] versions w).0) [
        | inl thrown ↦ rw (remove_from, thrown) refl
        | inr (code, released) ↦
            rw (remove_from, released)
              (remove_component-others disk ns component removed loader freed h)
      ]

  -- Whatever name is removed, of whatever namespace, no component of the system or the GitHub
  -- namespace leaves the loader: a removal takes away components of the local namespace only.
  pub get_manifest-remove :
      (qualified_name : Bytes) (ns : SkillNamespace) (component : Bytes) (loader : Loader J)
      (versions : VersionManager) (w : W)
      → same_ns ns local ≡ false
      → get_manifest (remove qualified_name loader versions w).loader ns component
        ≡ get_manifest loader ns component
  unfolding remove refused
  get_manifest-remove qualified_name ns component loader versions w h =
      elim (Option-cases (parse_qualified_name qualified_name)) [
        | inl bad ↦ rw (remove, bad) refl
        | inr ((space, (removed, name)), parsed) ↦ elim (Option-cases (ensure_ns space)) [
          | inl unknown ↦ rw (remove, parsed, unknown) refl
          | inr (which, known) ↦
              rw (remove, parsed, known)
                (if_elim (λ (r : Removal J W). Same ns component loader (Removal.loader r))
                  (same_ns which system) (refused loader versions w)
                  (remove_from which removed loader versions w) (λ _. refl)
                  (λ _. remove_from-others ns component which removed loader versions w h))
        ]
      ]
