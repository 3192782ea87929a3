-- ===== src/Skills/Names.antt =====
-- Qualified names of tools and prompts: `parseQualifiedName` and `buildQualifiedName` of
-- src/skills/skill_manager.cpp.
use a.Base.{
  ◌≡◌, refl, ap, ◌∙◌, Bool, true, not, ◌||◌, [], ◌∷◌, ◌++◌, Option, none, some, Bytes, codes,
  starts_with, bytes_eq, bytes_eq_iff, drop, take, is_empty, every, nat_eq, arith, if◌then◌else◌,
  append_assoc, Bool-cases, inl, inr,
}

-- find('_') with the text before it and the text behind it
abbrev pub split_underscore : Bytes → Option (Bytes × Bytes)
split_underscore [] = none
split_underscore (c ∷ s) =
    let rest = split_underscore s in
    if nat_eq c 95 then some ([], s) else elim rest [ none ↦ none | some r ↦ some (c ∷ r.0, r.1) ]

-- component and name in what follows the namespace
unfoldable pub parse_rest : Bytes → Bytes × Bytes
parse_rest rest = elim (split_underscore rest) [ none ↦ (rest, rest) | some r ↦ r ]

-- namespace, component and name
unfoldable pub parse_qualified_name : Bytes → Option (Bytes × (Bytes × Bytes))
unfolding parse_rest
parse_qualified_name qualified =
    let inside : Option (Bytes × (Bytes × Bytes)) = elim (split_underscore (drop 7 qualified)) [
      | none ↦ none
      | some r ↦ some (take 7 qualified ++ r.0, parse_rest r.1)
    ] in
    let outside : Option (Bytes × (Bytes × Bytes)) = elim (split_underscore qualified) [
      | none ↦ none
      | some r ↦ some (r.0, parse_rest r.1)
    ] in
    if starts_with (codes "github_") qualified then inside else outside

unfoldable pub build_qualified_name : Bytes → Bytes → Bytes → Bytes
build_qualified_name ns component name =
    if is_empty name || bytes_eq name component
    then ns ++ codes "_" ++ component
    else ns ++ codes "_" ++ component ++ codes "_" ++ name

-- the namespaces of the program
pub data Namespace : Type 0 where
  system local : Namespace
  github : Bytes → Namespace

abbrev pub namespace_text : Namespace → Bytes
namespace_text system = codes "system"
namespace_text local = codes "local"
namespace_text (github user) = codes "github_" ++ user

abbrev pub no_underscore : Bytes → Bool
no_underscore = every (λ c. not (nat_eq c 95))

abbrev user_of : Namespace → Bytes
user_of system = []
user_of local = []
user_of (github user) = user

split_underscore_at :
    (s t : Bytes) → no_underscore s ≡ true → split_underscore (s ++ 95 ∷ t) ≡ some (s, t)
split_underscore_at [] t h = refl
split_underscore_at (c ∷ s) t h = ground (arith, split_underscore_at s t (ground arith))

split_underscore-none : (s : Bytes) → no_underscore s ≡ true → split_underscore s ≡ none
split_underscore-none [] h = refl
split_underscore-none (c ∷ s) h = ground (arith, split_underscore-none s (ground arith))

-- what is built behind the namespace
abbrev built_rest : Bytes → Bytes → Bytes
built_rest component name =
    if is_empty name || bytes_eq name component then component else component ++ 95 ∷ name

build-built_rest :
    (ns component name : Bytes)
    → build_qualified_name ns component name ≡ ns ++ 95 ∷ built_rest component name
unfolding build_qualified_name
build-built_rest ns component name = elim (Bool-cases (is_empty name || bytes_eq name component)) [
  | inl same ↦ rw same (append_assoc ns (codes "_") component)
  | inr apart ↦ rw apart (
      append_assoc (ns ++ codes "_" ++ component) (codes "_") name
      ∙ append_assoc (ns ++ codes "_") component (95 ∷ name)
      ∙ append_assoc ns (codes "_") (component ++ 95 ∷ name))
]

parse_rest_plain :
    (component : Bytes)
    → no_underscore component ≡ true
    → parse_rest component ≡ (component, component)
unfolding parse_rest
parse_rest_plain component h = rw (parse_rest, split_underscore-none component h) refl

parse_rest_named :
    (component name : Bytes)
    → no_underscore component ≡ true
    → parse_rest (component ++ 95 ∷ name) ≡ (component, name)
unfolding parse_rest
parse_rest_named component name h = rw (parse_rest, split_underscore_at component name h) refl

parse_rest-built_rest :
    (component name : Bytes)
    → no_underscore component ≡ true
    → parse_rest (built_rest component name)
      ≡ (component, if is_empty name then component else name)
parse_rest-built_rest component name h =
    elim (Bool-cases (is_empty name || bytes_eq name component)) [
      | inl same ↦
          let equal : (if is_empty name then component else name) ≡ component =
            ground (arith, bytes_eq_iff name component) in
          rw (same, equal) (parse_rest_plain component h)
      | inr apart ↦
          let equal : (if is_empty name then component else name) ≡ name = ground arith in
          rw (apart, equal) (parse_rest_named component name h)
    ]

-- Parsing what was built gives the parts back, for each namespace of the program, a component (and a
-- user) without underscores and any name, which may have underscores; the empty name, which is
-- built like the name of the component, comes back as that.
pub parse_qualified_name-build_qualified_name :
    (ns : Namespace) (component name : Bytes)
    → no_underscore (user_of ns) ≡ true
    → no_underscore component ≡ true
    → parse_qualified_name (build_qualified_name (namespace_text ns) component name)
      ≡ some (namespace_text ns, (component, if is_empty name then component else name))
unfolding parse_qualified_name starts_with
parse_qualified_name-build_qualified_name system component name u h =
    rw (build-built_rest (codes "system") component name, parse_rest-built_rest component name h)
      refl
parse_qualified_name-build_qualified_name local component name u h =
    rw (build-built_rest (codes "local") component name, parse_rest-built_rest component name h)
      refl
parse_qualified_name-build_qualified_name (github user) component name u h =
    ap parse_qualified_name (build-built_rest (codes "github_" ++ user) component name)
    ∙ rw
        (
          split_underscore_at user (built_rest component name) u,
          parse_rest-built_rest component name h,
        )
        refl
