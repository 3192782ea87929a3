-- ===== src/Skills/Loader/Loading.antt =====
-- The walk over the directories of the skills: `loadAll` and `xLoadNamespace` of
-- src/skills/skill_loader.cpp. The disk is only read.
pub mod Keys
pub mod Reread
use a.Base.{
  Bool, true, false, not, ◌&&◌, ◌||◌, List, [], ◌∷◌, ◌++◌, Option, none, some, Bytes, codes, ℤ, pos,
  negsuc, bytes_eq, starts_with, if◌then◌else◌, insert, bytes_key,
}
use a.Shared.Json.{Json, Conversions}
use a.Skills.Types.{SkillNamespace, system, local, github, SkillManifest}
use a.Skills.Loader.{Disk, Loader, index_key}
use a.Skills.Loader.Manifest.{parse_manifest}

-- a walk that went on to its end, or was left by an exception of the JSON library
pub data Loaded (J : Type 0) : Type 0 where
  loaded threw : Loader J → Loaded J

abbrev pub loader_of : {J : Type 0} → Loaded J → Loader J
loader_of (loaded l) = l
loader_of (threw l) = l

pub and_then : {J : Type 0} → Loaded J → (Loader J → Loaded J) → Loaded J
and_then (loaded l) next = next l
and_then (threw l) next = threw l

pub data ManifestFile (J : Type 0) : Type 0 where
  parsed : SkillManifest J → ManifestFile J
  refused exception : ManifestFile J

-- m_components[key] = manifest; m_nsMap[dir] = ns; with the namespace and name set
pub put :
    {J : Type 0} → Bytes → Bytes → SkillNamespace → Bytes → SkillManifest J → Loader J → Loader J
put key dir ns name m l = record l {
  components = insert key (record m { ns = ns; name = name }) l.components;
  ns_map = insert dir ns l.ns_map;
}

module _ {J W : Type 0} (json : Json J) (conv : Conversions J) (disk : Disk J W) (w : W) where
  pub parse_manifest_file : SkillNamespace → Bytes → ManifestFile J
  parse_manifest_file ns path = elim (disk.read_json path w) [
    | none ↦ refused
    | some j ↦
        let read : ManifestFile J =
          elim (parse_manifest json conv (λ file. disk.read_file file w) path ns j) [
            | none ↦ exception
            | some m ↦ parsed m
          ] in
        if disk.conforms j then read else refused
  ]

  pub load_sub_modules : Bytes → Bytes → SkillNamespace → List Bytes → Loader J → Loaded J
  unfolding put parse_manifest_file
  load_sub_modules key comp_dir ns [] l = loaded l
  load_sub_modules key comp_dir ns (sub ∷ rest) l =
      let sub_dir = comp_dir ++ codes "/" ++ sub in
      elim (parse_manifest_file ns (sub_dir ++ codes "/skill.json")) [
        | refused ↦ load_sub_modules key comp_dir ns rest l
        | exception ↦ threw l
        | parsed m ↦
            load_sub_modules key comp_dir ns rest (put (key ++ codes "-" ++ sub) sub_dir ns sub m l)
      ]

  -- a directory that has a manifest
  pub load_manifest : Bytes → SkillNamespace → Bytes → Loader J → Loaded J
  unfolding put parse_manifest_file load_sub_modules
  load_manifest comp_dir ns name l =
      elim (parse_manifest_file ns (comp_dir ++ codes "/skill.json")) [
        | refused ↦ loaded l
        | exception ↦ threw l
        | parsed m ↦
            load_sub_modules (index_key ns name) comp_dir ns m.sub_modules
              (put (index_key ns name) comp_dir ns name m l)
      ]

  pub load_component : Bytes → SkillNamespace → Bytes → Loader J → Loaded J
  unfolding load_manifest
  load_component dir_path ns name l =
      if bytes_eq name (codes ".")
        || bytes_eq name (codes "..")
        || not (disk.is_dir (dir_path ++ codes "/" ++ name) w)
      then loaded l
      else load_manifest (dir_path ++ codes "/" ++ name) ns name l

  pub load_components : Bytes → SkillNamespace → List Bytes → Loader J → Loaded J
  unfolding and_then load_component
  load_components dir_path ns [] l = loaded l
  load_components dir_path ns (name ∷ rest) l =
      and_then (load_component dir_path ns name l) (load_components dir_path ns rest)

  pub load_namespace : Bytes → SkillNamespace → Loader J → Loaded J
  unfolding load_components
  load_namespace dir_path ns l = elim (disk.list_dir dir_path w) [
    | none ↦ loaded l
    | some names ↦ load_components dir_path ns names l
  ]

  pub load_github : Bytes → List Bytes → Loader J → Loaded J
  unfolding and_then load_namespace
  load_github root [] l = loaded l
  load_github root (name ∷ rest) l =
      let path = root ++ codes "/" ++ name in
      let found = starts_with (codes "github_") name && disk.is_dir path w in
      and_then (if found then load_namespace path github l else loaded l) (load_github root rest)

  -- with the return code of a walk without exception
  pub load_all : Loader J → ℤ × Loaded J
  unfolding and_then load_namespace load_github
  load_all l =
      let cleared : Loader J = record l { components = []; ns_map = [] } in
      elim (disk.list_dir l.root w) [
        | none ↦ (negsuc 0, loaded cleared)
        | some names ↦ (
          pos 0,
          and_then (load_namespace (l.root ++ codes "/system") system cleared) (λ first.
              and_then (load_namespace (l.root ++ codes "/local") local first)
                (load_github l.root names)),
        )
      ]
