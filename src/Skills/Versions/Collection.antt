-- ===== src/Skills/Versions/Collection.antt =====
-- What the collector keeps, and when it ends: `gc` of src/skills/version_manager.cpp.
use a.Base.{
  ℕ, zero, suc, ◌+◌, ◌≡◌, refl, ap, ◌<◌, true, false, not, List, [], ◌∷◌, ◌++◌, codes, none, some,
  arith, Bytes, length, select, Bool-cases, inl, inr,
}
use a.Skills.Loader.{Disk}
use a.Skills.Versions.{StoredVersion, is_dead, collect}

-- the versions that are referred to, and the others
abbrev pub live : List (Bytes × StoredVersion) → List (Bytes × StoredVersion)
live = select (λ entry. not (is_dead entry.1))

abbrev pub dead : List (Bytes × StoredVersion) → List (Bytes × StoredVersion)
dead = select (λ entry. is_dead entry.1)

module _ {J W : Type 0} (disk : Disk J W) where
  -- A collection that is no dry run ends, with more rounds than there are versions; it removes every
  -- version without a reference, counts them, and keeps the others in order.
  pub collect_lem :
      (f : ℕ) (store_root : Bytes) (versions : List (Bytes × StoredVersion)) (removed : ℕ) (w : W)
      → length versions < f
      → (last : W) × (collect disk f false store_root versions removed w
          ≡ some (record {
            removed = removed + length (dead versions);
            kept = live versions;
            world = last;
          }))
  unfolding collect
  collect_lem zero store_root versions removed w h = absurd (omega (arith, h))
  collect_lem (suc f) store_root [] removed w h =
      (w, ap (λ n. some (record { removed = n; kept = []; world = w })) (omega arith))
  collect_lem (suc f) store_root (entry ∷ rest) removed w h = elim (Bool-cases (is_dead entry.1)) [
    | inl gone ↦
        let (last, done) =
          collect_lem f store_root rest (suc removed)
            (disk.shell (codes "rm -rf " ++ store_root ++ codes "/" ++ entry.0) w).1
            (omega (arith, h)) in
        (
          last,
          rw (collect, gone, done)
              (ap (λ n. some (record { removed = n; kept = live rest; world = last }))
                (omega arith)),
        )
    | inr alive ↦
        let (last, done) = collect_lem f store_root rest removed w (omega (arith, h)) in
        (last, rw (collect, alive, done) refl)
  ]

  -- A dry run never ends when some version has no reference: it stays at the first of them, whatever
  -- the number of rounds.
  pub collect-dry :
      (f : ℕ) (store_root : Bytes) (versions : List (Bytes × StoredVersion)) (removed : ℕ) (w : W)
      → 0 < length (dead versions)
      → collect disk f true store_root versions removed w ≡ none
  unfolding collect
  collect-dry zero store_root versions removed w h = refl
  collect-dry (suc f) store_root [] removed w h = absurd (omega (arith, h))
  collect-dry (suc f) store_root (entry ∷ rest) removed w h = elim (Bool-cases (is_dead entry.1)) [
    | inl gone ↦ rw (collect, gone) (collect-dry f store_root (entry ∷ rest) (suc removed) w h)
    | inr alive ↦
        let behind : 0 < length (dead rest) = ground (arith, alive, h) in
        rw (collect, alive, collect-dry f store_root rest removed w behind) refl
  ]
