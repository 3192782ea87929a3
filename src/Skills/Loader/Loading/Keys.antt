-- ===== src/Skills/Loader/Loading/Keys.antt =====
-- Under which keys `loadAll` of src/skills/skill_loader.cpp puts the components.
use a.Base.{
  ◌≡◌, ◌⊎◌, refl, sym, ap, ◌∙◌, not, ◌&&◌, ◌||◌, List, [], ◌∷◌, ◌++◌, append_assoc, All, Bytes,
  codes, bytes_eq, starts_with, insert, bytes_key, ◌==◌, if◌then◌else◌, if_elim, Option-cases, inl,
  inr,
}
use a.Shared.Json.{Json, Conversions}
use a.Skills.Types.{SkillNamespace, system, local, github, SkillManifest}
use a.Skills.Loader.{Disk, Loader, index_key, ns_prefix}
use a.Skills.Loader.Loading.{
  Loaded, loaded, threw, loader_of, and_then, ManifestFile, parsed, refused, exception, put,
  parse_manifest_file, load_sub_modules, load_manifest, load_component, load_components,
  load_namespace, load_github, load_all,
}

insert-All :
    {V : Type 0} (P : Bytes × V → Type 0) (q : Bytes) (v : V) (m : List (Bytes × V))
    → All P m
    → P (q, v)
    → All P (insert q v m)
unfolding insert
insert-All P q v [] all here = (here, tt)
insert-All P q v (entry ∷ m) all here =
    if_elim (All P) (entry.0 == q) ((q, v) ∷ m) (entry ∷ insert q v m) (λ _. (here, all.1))
      (λ _. (all.0, insert-All P q v m all.1 here))

-- the key begins with the prefix of the namespace that the manifest says
abbrev pub HasPrefix : {J : Type 0} → Bytes × SkillManifest J → Type 0
HasPrefix entry = (rest : Bytes) × (entry.0 ≡ index_key (SkillManifest.ns (entry.1)) rest)

abbrev pub IsKeyed : {J : Type 0} → Loader J → Type 0
IsKeyed l = All HasPrefix l.components

put-IsKeyed :
    {J : Type 0} (key dir : Bytes) (ns : SkillNamespace) (name rest : Bytes) (m : SkillManifest J)
    (l : Loader J)
    → key ≡ index_key ns rest
    → IsKeyed l
    → IsKeyed (put key dir ns name m l)
unfolding put
put-IsKeyed key dir ns name rest m l e h = insert-All HasPrefix key _ l.components h (rest, e)

and_then-IsKeyed :
    {J : Type 0} (walk : Loaded J) (next : Loader J → Loaded J)
    → IsKeyed (loader_of walk)
    → ((l : Loader J) → IsKeyed l → IsKeyed (loader_of (next l)))
    → IsKeyed (loader_of (and_then walk next))
unfolding and_then
and_then-IsKeyed (loaded l) next h step = step l h
and_then-IsKeyed (threw l) next h step = h

ManifestFile-cases :
    {J : Type 0} (p : ManifestFile J)
    → (p ≡ refused) ⊎ ((p ≡ exception) ⊎ ((m : SkillManifest J) × (p ≡ parsed m)))
ManifestFile-cases refused = inl refl
ManifestFile-cases exception = inr (inl refl)
ManifestFile-cases (parsed m) = inr (inr (m, refl))

sub_key :
    (ns : SkillNamespace) (name sub : Bytes)
    → index_key ns name ++ codes "-" ++ sub ≡ index_key ns (name ++ codes "-" ++ sub)
unfolding index_key
sub_key ns name sub =
    append_assoc (ns_prefix ns ++ name) (codes "-") sub
    ∙ append_assoc (ns_prefix ns) name (codes "-" ++ sub)
    ∙ ap (λ t. ns_prefix ns ++ t) (sym (append_assoc name (codes "-") sub))

module _ {J W : Type 0} (json : Json J) (conv : Conversions J) (disk : Disk J W) (w : W) where
  load_sub_modules-IsKeyed :
      (name comp_dir : Bytes) (ns : SkillNamespace) (subs : List Bytes) (l : Loader J)
      → IsKeyed l
      → IsKeyed
          (loader_of (load_sub_modules json conv disk w (index_key ns name) comp_dir ns subs l))
  unfolding load_sub_modules
  load_sub_modules-IsKeyed name comp_dir ns [] l h = h
  load_sub_modules-IsKeyed name comp_dir ns (sub ∷ rest) l h =
      let dir = comp_dir ++ codes "/" ++ sub in
      elim (ManifestFile-cases
        (parse_manifest_file json conv disk w ns (dir ++ codes "/skill.json"))) [
          | inl bad ↦
              rw (load_sub_modules, bad) (load_sub_modules-IsKeyed name comp_dir ns rest l h)
          | inr (inl thrown) ↦ rw (load_sub_modules, thrown) h
          | inr (inr (m, read)) ↦
              rw (load_sub_modules, read)
                (load_sub_modules-IsKeyed name comp_dir ns rest
                  (put (index_key ns name ++ codes "-" ++ sub) dir ns sub m l)
                  (put-IsKeyed (index_key ns name ++ codes "-" ++ sub) dir ns sub
                    (name ++ codes "-" ++ sub) m l (sub_key ns name sub) h))
        ]

  load_manifest-IsKeyed :
      (comp_dir : Bytes) (ns : SkillNamespace) (name : Bytes) (l : Loader J)
      → IsKeyed l
      → IsKeyed (loader_of (load_manifest json conv disk w comp_dir ns name l))
  unfolding load_manifest
  load_manifest-IsKeyed comp_dir ns name l h =
      elim (ManifestFile-cases
        (parse_manifest_file json conv disk w ns (comp_dir ++ codes "/skill.json"))) [
          | inl bad ↦ rw (load_manifest, bad) h
          | inr (inl thrown) ↦ rw (load_manifest, thrown) h
          | inr (inr (m, read)) ↦
              rw (load_manifest, read)
                (load_sub_modules-IsKeyed name comp_dir ns m.sub_modules
                  (put (index_key ns name) comp_dir ns name m l)
                  (put-IsKeyed (index_key ns name) comp_dir ns name name m l refl h))
        ]

  load_component-IsKeyed :
      (dir_path : Bytes) (ns : SkillNamespace) (name : Bytes) (l : Loader J)
      → IsKeyed l
      → IsKeyed (loader_of (load_component json conv disk w dir_path ns name l))
  unfolding load_component
  load_component-IsKeyed dir_path ns name l h =
      if_elim (λ (r : Loaded J). IsKeyed (loader_of r))
        (bytes_eq name (codes ".")
          || bytes_eq name (codes "..")
          || not (disk.is_dir (dir_path ++ codes "/" ++ name) w))
        (loaded l) _ (λ _. h)
        (λ _. load_manifest-IsKeyed (dir_path ++ codes "/" ++ name) ns name l h)

  load_components-IsKeyed :
      (dir_path : Bytes) (ns : SkillNamespace) (names : List Bytes) (l : Loader J)
      → IsKeyed l
      → IsKeyed (loader_of (load_components json conv disk w dir_path ns names l))
  unfolding load_components
  load_components-IsKeyed dir_path ns [] l h = h
  load_components-IsKeyed dir_path ns (name ∷ rest) l h =
      and_then-IsKeyed (load_component json conv disk w dir_path ns name l)
        (load_components json conv disk w dir_path ns rest)
        (load_component-IsKeyed dir_path ns name l h) (load_components-IsKeyed dir_path ns rest)

  load_namespace-IsKeyed :
      (dir_path : Bytes) (ns : SkillNamespace) (l : Loader J)
      → IsKeyed l
      → IsKeyed (loader_of (load_namespace json conv disk w dir_path ns l))
  unfolding load_namespace
  load_namespace-IsKeyed dir_path ns l h = elim (Option-cases (disk.list_dir dir_path w)) [
    | inl gone ↦ rw (load_namespace, gone) h
    | inr (names, there) ↦
        rw (load_namespace, there) (load_components-IsKeyed dir_path ns names l h)
  ]

  load_github-IsKeyed :
      (root : Bytes) (names : List Bytes) (l : Loader J)
      → IsKeyed l
      → IsKeyed (loader_of (load_github json conv disk w root names l))
  unfolding load_github
  load_github-IsKeyed root [] l h = h
  load_github-IsKeyed root (name ∷ rest) l h =
      let path = root ++ codes "/" ++ name in
      let found = starts_with (codes "github_") name && disk.is_dir path w in
      and_then-IsKeyed (if found then load_namespace json conv disk w path github l else loaded l)
        (load_github json conv disk w root rest)
        (if_elim (λ (r : Loaded J). IsKeyed (loader_of r)) found
          (load_namespace json conv disk w path github l) (loaded l)
          (λ _. load_namespace-IsKeyed path github l h) (λ _. h))
        (load_github-IsKeyed root rest)

  -- After `loadAll`, whatever was loaded before, is on the disk, or throws on the way, every component in
  -- the loader stands under a key that begins with the prefix of the namespace that its manifest has,
  -- sub-modules included.
  pub load_all-IsKeyed : (l : Loader J) → IsKeyed (loader_of (load_all json conv disk w l).1)
  unfolding load_all
  load_all-IsKeyed l = elim (Option-cases (disk.list_dir l.root w)) [
    | inl gone ↦ rw (load_all, gone) tt
    | inr (names, there) ↦
        let cleared : Loader J = record l { components = []; ns_map = [] } in
        rw (load_all, there)
          (and_then-IsKeyed
            (load_namespace json conv disk w (l.root ++ codes "/system") system cleared) _
            (load_namespace-IsKeyed (l.root ++ codes "/system") system cleared tt)
            (λ first keyed.
              and_then-IsKeyed
                (load_namespace json conv disk w (l.root ++ codes "/local") local first)
                (load_github json conv disk w l.root names)
                (load_namespace-IsKeyed (l.root ++ codes "/local") local first keyed)
                (load_github-IsKeyed l.root names)))
  ]
