-- ===== src/Base/Assoc.antt =====
-- std::unordered_map as an association list with one entry to a key. The order of iteration, which
-- the standard leaves open, is that of the list.
use mathlib.Core.Path.{◌≡◌, refl}
use mathlib.Core.Logic.{◌↔◌}
use mathlib.Core.Bool.{Bool, true}
use mathlib.Core.Option.{Option, none, some}
use mathlib.Core.List.{List, [], ◌∷◌}
use Prim.Native.Nat.{ℕ}
use native.Mathlib.Omega.{arith}
use a.Base.Tests.{if◌then◌else◌, nat_eq, nat_eq_iff}
use a.Base.Text.{Bytes, bytes_eq, bytes_eq_iff}

-- A type of keys, by its operator==.
pub record Key {ℓ} (K : Type ℓ) : Type ℓ where
  pub same : K → K → Bool
  pub same_iff : (k q : K) → (same k q ≡ true) ↔ (k ≡ q)

instance abbrev pub bytes_key : Key Bytes
bytes_key = record { same = bytes_eq; same_iff = bytes_eq_iff }

instance abbrev pub nat_key : Key ℕ
nat_key = record { same = nat_eq; same_iff = nat_eq_iff }

infix 50 ◌==◌
abbrev pub ◌==◌ {κ} : {K : Type κ} ⦃key : Key K⦄ → K → K → Bool
◌==◌ ⦃key⦄ k q = key.same k q

pub eq_refl {ℓ} : {K : Type ℓ} ⦃key : Key K⦄ (k : K) → (k == k) ≡ true
eq_refl ⦃key⦄ k = (key.same_iff k k).1 refl

module _ {κ ℓ} {K : Type κ} {V : Type ℓ} ⦃key : Key K⦄ where
  -- m.find(q)
  unfoldable pub lookup : K → List (K × V) → Option V
  lookup q [] = none
  lookup q (entry ∷ m) = let behind = lookup q m in if entry.0 == q then some entry.1 else behind

  -- m.erase(q)
  unfoldable pub erase : K → List (K × V) → List (K × V)
  erase q [] = []
  erase q (entry ∷ m) = let behind = erase q m in if entry.0 == q then behind else entry ∷ behind

  -- m[q] = v
  unfoldable pub insert : K → V → List (K × V) → List (K × V)
  insert q v [] = (q, v) ∷ []
  insert q v (entry ∷ m) =
      let behind = insert q v m in if entry.0 == q then (q, v) ∷ m else entry ∷ behind

  pub lookup-erase :
      (q r : K) (m : List (K × V)) → lookup r (erase q m) ≡ (if q == r then none else lookup r m)
  unfolding lookup erase
  lookup-erase q r [] = ground arith
  lookup-erase q r (entry ∷ m) =
      let rest = lookup-erase q r m in
      ground (arith, rest, key.same_iff entry.0 q, key.same_iff entry.0 r, key.same_iff q r)

  pub lookup-insert :
      (q r : K) (v : V) (m : List (K × V))
      → lookup r (insert q v m) ≡ (if q == r then some v else lookup r m)
  unfolding lookup insert
  lookup-insert q r v [] = refl
  lookup-insert q r v (entry ∷ m) =
      let rest = lookup-insert q r v m in
      ground (arith, rest, key.same_iff entry.0 q, key.same_iff entry.0 r, key.same_iff q r)
