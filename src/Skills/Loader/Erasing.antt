-- ===== src/Skills/Loader/Erasing.antt =====
-- A component that is removed takes no component of another namespace along: `removeComponent` of
-- src/skills/skill_loader.cpp.
use a.Base.{
  ◌≡◌, refl, ◌∙◌, false, Bytes, ℤ, bytes_eq, bytes_key, ◌==◌, lookup, lookup-erase, if_elim,
  Option-cases, inl, inr,
}
use a.Skills.Types.{SkillNamespace, system, local, github}
use a.Skills.Loader.{
  Disk, Loader, index_key, ns_prefix, get_manifest, same_ns, remove_component, is_read_only,
}

keys_apart :
    (ns : SkillNamespace) (a b : Bytes)
    → same_ns ns local ≡ false
    → (index_key local a == index_key ns b) ≡ false
unfolding index_key ns_prefix bytes_eq
keys_apart system a b h = refl
keys_apart local a b h = cc
keys_apart github a b h = refl

module _ {J W : Type 0} (disk : Disk J W) where
  pub remove_component-others :
      (ns : SkillNamespace) (component removed : Bytes) (loader : Loader J) (w : W)
      → same_ns ns local ≡ false
      → get_manifest (remove_component disk removed loader w).1.0 ns component
        ≡ get_manifest loader ns component
  unfolding get_manifest remove_component
  remove_component-others ns component removed loader w h =
      elim (Option-cases (lookup (index_key local removed) loader.components)) [
        | inl gone ↦ rw (remove_component, gone) refl
        | inr (m, there) ↦
            rw (remove_component, there)
              (if_elim
                (λ (r : ℤ × (Loader J × W)).
                  lookup (index_key ns component) (Loader.components (r.1.0))
                  ≡ lookup (index_key ns component) loader.components)
                (is_read_only m.ns) _ _ (λ _. refl)
                (λ _.
                  lookup-erase (index_key local removed) (index_key ns component) loader.components
                  ∙ rw (keys_apart ns removed component h) refl))
      ]
