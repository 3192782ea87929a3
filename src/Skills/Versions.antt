-- ===== src/Skills/Versions.antt =====
-- VersionManager (src/skills/version_manager.cpp): stored versions of components by reference counts,
-- and their lock file. The steps through `system` are commands to the disk.
pub mod Collection
use a.Base.{
  ℕ, zero, suc, ◌+◌, Bool, true, false, List, [], ◌∷◌, ◌++◌, Option, none, some, Bytes, codes, ℤ,
  pos, negsuc, is_empty, is_zero, starts_with, if◌then◌else◌, lookup, insert, bytes_key,
}
use a.Base.Fault.{◌>>=◌}
use a.Shared.Json.{Json, Conversions}
use a.Skills.Types.{SkillNamespace, system, local, github}
use a.Skills.Loader.{Disk, Code}
use a.Skills.Table.{ns_text}

pub record StoredVersion : Type 0 where
  pub commit_hash : Bytes
  pub version : Bytes
  pub refcount : ℤ
  pub installed_at : ℤ

pub record VersionManager : Type 0 where
  pub store_root : Bytes
  pub skills_root : Bytes
  pub versions : List (Bytes × StoredVersion)

version_key : SkillNamespace → Bytes → Bytes → Bytes
version_key ns component commit =
    if is_empty commit
    then ns_text ns ++ codes ":" ++ component ++ codes ":"
    else ns_text ns ++ codes ":" ++ component ++ codes ":" ++ commit

active_dir : SkillNamespace → Bytes
active_dir system = codes "system"
active_dir local = codes "local"
active_dir github = codes "github_"

store_path : VersionManager → SkillNamespace → Bytes → Bytes → Bytes
store_path vm ns commit component =
    vm.store_root ++ codes "/" ++ ns_text ns ++ codes "/" ++ commit ++ codes "/" ++ component

active_path : VersionManager → SkillNamespace → Bytes → Bytes
unfolding active_dir
active_path vm ns component = vm.skills_root ++ codes "/" ++ active_dir ns ++ codes "/" ++ component

increment : ℤ → ℤ
increment (pos n) = pos (suc n)
increment (negsuc zero) = pos 0
increment (negsuc (suc n)) = negsuc n

-- one less, and not below zero
released_count : ℤ → ℤ
released_count (pos (suc n)) = pos n
released_count _ = pos 0

-- refcount <= 0
unfoldable pub is_dead : StoredVersion → Bool
is_dead sv = elim sv.refcount [ pos zero ↦ true | pos (suc n) ↦ false | negsuc n ↦ true ]

-- the first version whose key begins with a text, released
release_first : Bytes → List (Bytes × StoredVersion) → Option (List (Bytes × StoredVersion))
unfolding released_count
release_first prefix [] = none
release_first prefix (entry ∷ rest) =
    let behind : Option (List (Bytes × StoredVersion)) = elim (release_first prefix rest) [
      | none ↦ none
      | some after ↦ some (entry ∷ after)
    ] in
    if starts_with prefix entry.0
    then some ((entry.0, record (entry.1) { refcount = released_count entry.1.refcount }) ∷ rest)
    else behind

module _ {J : Type 0} (json : Json J) where
  version_json : StoredVersion → J
  version_json sv = json.set (codes "installedAt") (json.int sv.installed_at) (
      json.set (codes "refcount") (json.int sv.refcount) (
        json.set (codes "version") (json.text sv.version)
          (json.set (codes "commit") (json.text sv.commit_hash) json.object)))

  versions_json : List (Bytes × StoredVersion) → J → J
  unfolding version_json
  versions_json [] j = j
  versions_json ((key, sv) ∷ rest) j = versions_json rest (json.set key (version_json sv) j)

  lock_json : List (Bytes × StoredVersion) → J
  unfolding versions_json
  lock_json [] = json.set (codes "version") (json.int (pos 1)) json.object
  lock_json (entry ∷ rest) =
      json.set (codes "versions") (versions_json (entry ∷ rest) json.object)
        (json.set (codes "version") (json.int (pos 1)) json.object)

module _ {J W : Type 0} (json : Json J) (disk : Disk J W) where
  load_version : J → Option StoredVersion
  load_version v = do
    commit_hash ← json.value_text v (codes "commit") []
    version ← json.value_text v (codes "version") []
    refcount ← json.value_int v (codes "refcount") (pos 0)
    installed_at ← json.value_int v (codes "installedAt") (pos 0)
    some (record {
      commit_hash = commit_hash;
      version = version;
      refcount = refcount;
      installed_at = installed_at;
    })

  -- the loop over `items`, with the exception of a `value`
  load_versions :
      List (Bytes × J) → List (Bytes × StoredVersion) → Option (List (Bytes × StoredVersion))
  unfolding load_version
  load_versions [] versions = some versions
  load_versions ((key, v) ∷ rest) versions =
      load_version v >>= λ sv. load_versions rest (insert key sv versions)

  pub load_lock : (J → List (Bytes × J)) → VersionManager → W → Code × VersionManager
  unfolding load_versions
  load_lock items vm w =
      let cleared : VersionManager = record vm { versions = [] } in
      elim (disk.read_json (vm.store_root ++ codes "/lock.json") w) [
        | none ↦ (some (negsuc 0), cleared)
        | some j ↦ elim (json.find j (codes "versions")) [
          | none ↦ (some (pos 0), cleared)
          | some found ↦ elim (load_versions (items found) []) [
            | none ↦ (none, cleared)
            | some versions ↦ (some (pos 0), record vm { versions = versions })
          ]
        ]
      ]

-- what the collector leaves
pub record Collected (W : Type 0) : Type 0 where
  pub removed : ℕ
  pub kept : List (Bytes × StoredVersion)
  pub world : W

module _ {J W : Type 0} (disk : Disk J W) where
  -- the collector's loop at its iterator; `none` where the rounds do not do
  pub collect : ℕ → Bool → Bytes → List (Bytes × StoredVersion) → ℕ → W → Option (Collected W)
  collect zero dry_run store_root versions removed w = none
  collect (suc f) dry_run store_root [] removed w =
      some (record { removed = removed; kept = []; world = w })
  collect (suc f) dry_run store_root (entry ∷ rest) removed w =
      let swept = (disk.shell (codes "rm -rf " ++ store_root ++ codes "/" ++ entry.0) w).1 in
      let stays = collect f dry_run store_root (entry ∷ rest) (suc removed) w in
      let erased = collect f dry_run store_root rest (suc removed) swept in
      let passed = collect f dry_run store_root rest removed w in
      if is_dead entry.1
      then (if dry_run then stays else erased)
      else elim passed [ none ↦ none | some c ↦ some (record c { kept = entry ∷ c.kept }) ]

module _ {J W : Type 0} (json : Json J) (conv : Conversions J) (disk : Disk J W) where
  save_lock : VersionManager → W → Code × W
  unfolding lock_json
  save_lock vm w =
      let made = disk.make_dir vm.store_root w in
      elim (disk.open_file (vm.store_root ++ codes "/lock.json") made) [
        | none ↦ (some (negsuc 0), made)
        | some opened ↦ elim (conv.pretty (lock_json json vm.versions)) [
          | none ↦ (none, opened)
          | some text ↦ (
            some (pos 0),
            disk.write_text (vm.store_root ++ codes "/lock.json") (text ++ codes "\n") opened,
          )
        ]
      ]

  copy_dir : Bytes → Bytes → W → ℤ × W
  copy_dir src dst w = disk.shell (codes "cp -r " ++ src ++ codes "/* " ++ dst) w

  saved : VersionManager → W → Code × (VersionManager × W)
  unfolding save_lock
  saved vm w = let (code, after) = save_lock vm w in (code, (vm, after))

  -- `now` is the time of the call
  pub archive :
      SkillNamespace → Bytes → Bytes → Bytes → ℕ → VersionManager → W → Code × (VersionManager × W)
  unfolding version_key saved copy_dir increment store_path active_path
  archive ns component commit version now vm w =
      let key = version_key ns component commit in
      elim (lookup key vm.versions) [
        | some sv ↦
            saved
              (record vm {
                versions = insert key (record sv { refcount = increment sv.refcount }) vm.versions;
              })
              w
        | none ↦
            let dst = store_path vm ns commit component in
            let made = (disk.shell (codes "mkdir -p " ++ dst) w).1 in
            let (copied, after) = copy_dir (active_path vm ns component) dst made in
            let first : StoredVersion = record {
              commit_hash = commit;
              version = version;
              refcount = pos 1;
              installed_at = pos now;
            } in
            if is_zero copied
            then saved (record vm { versions = insert key first vm.versions }) after
            else (some (negsuc 0), (vm, after))
      ]

  pub restore : SkillNamespace → Bytes → Bytes → VersionManager → W → ℤ × W
  unfolding version_key copy_dir store_path active_path
  restore ns component commit vm w = elim (lookup (version_key ns component commit) vm.versions) [
    | none ↦ (negsuc 0, w)
    | some _ ↦
        let dst = active_path vm ns component in
        let emptied = (disk.shell (codes "rm -rf " ++ dst) w).1 in
        let made = (disk.shell (codes "mkdir -p " ++ dst) emptied).1 in
        copy_dir (store_path vm ns commit component) dst made
  ]

  release_commit : Bytes → VersionManager → W → Code × (VersionManager × W)
  unfolding saved released_count
  release_commit key vm w = elim (lookup key vm.versions) [
    | none ↦ (some (negsuc 0), (vm, w))
    | some sv ↦
        saved
          (record vm {
            versions = insert key (record sv { refcount = released_count sv.refcount }) vm.versions;
          })
          w
  ]

  release_any : Bytes → VersionManager → W → Code × (VersionManager × W)
  unfolding saved release_first
  release_any prefix vm w = elim (release_first prefix vm.versions) [
    | none ↦ (some (negsuc 0), (vm, w))
    | some versions ↦ saved (record vm { versions = versions }) w
  ]

  pub release : SkillNamespace → Bytes → Bytes → VersionManager → W → Code × (VersionManager × W)
  unfolding version_key release_commit release_any
  release ns component commit vm w =
      if is_empty commit
      then release_any (version_key ns component []) vm w
      else release_commit (version_key ns component commit) vm w

  -- the exception of `dump` in the lock file leaves the collector too
  pub gc : ℕ → Bool → VersionManager → W → Option (Option ℕ × (VersionManager × W))
  unfolding collect save_lock
  gc f dry_run vm w = elim (collect disk f dry_run vm.store_root vm.versions 0 w) [
    | none ↦ none
    | some c ↦
        let after : VersionManager = record vm { versions = c.kept } in
        let (code, last) = save_lock after c.world in
        some (
          if dry_run
          then (some c.removed, (after, c.world))
          else (elim code [ none ↦ none | some _ ↦ some c.removed ], (after, last)))
  ]
