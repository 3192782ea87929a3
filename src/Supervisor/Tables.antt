-- ===== src/Supervisor/Tables.antt =====
-- Tables of which one covers the other: the agents and the sockets of src/b1/supervisor.cpp.
use a.Base.{
  ℕ, ◌≡◌, refl, ap, sym, ◌∙◌, subst, Bool, true, false, List, [], ◌∷◌, Option, none, some, ℤ,
  nat_key, nat_eq_iff, ◌==◌, if◌then◌else◌, lookup, insert, erase, lookup-insert, lookup-erase,
  Bool-cases, inl, inr,
}
use a.Supervisor.{int_key, AgentRecord, detect_crashes}

abbrev pub is_some : {A : Type 0} → Option A → Bool
is_some none = false
is_some (some a) = true

abbrev pub Covers : List (ℕ × AgentRecord) → List (ℕ × ℕ) → Type 0
Covers agents sockets =
    (fd : ℕ) → is_some (lookup fd agents) ≡ true → is_some (lookup fd sockets) ≡ true

is_some_if :
    {A : Type 0} (b : Bool) (x y : Option A)
    → is_some (if b then x else y) ≡ (if b then is_some x else is_some y)
is_some_if true x y = refl
is_some_if false x y = refl

-- an entry that is there is written over
pub insert-Covers :
    (fd : ℕ) (rec : AgentRecord) (agents : List (ℕ × AgentRecord)) (sockets : List (ℕ × ℕ))
    → is_some (lookup fd sockets) ≡ true
    → Covers agents sockets
    → Covers (insert fd rec agents) sockets
insert-Covers fd rec agents sockets there covers q h =
    let at = lookup-insert fd q rec agents in
    elim (Bool-cases (fd == q)) [
      | inl same ↦ subst (λ k. is_some (lookup k sockets) ≡ true) ((nat_eq_iff fd q).0 same) there
      | inr other ↦ covers q (sym (ap is_some at ∙ rw other refl) ∙ h)
    ]

pub erase-Covers :
    (fd : ℕ) (agents : List (ℕ × AgentRecord)) (sockets : List (ℕ × ℕ))
    → Covers agents sockets
    → Covers (erase fd agents) sockets
erase-Covers fd agents sockets covers q h =
    let at = lookup-erase fd q agents in
    elim (Bool-cases (fd == q)) [
      | inl same ↦ let clash : false ≡ true = sym (ap is_some at ∙ rw same refl) ∙ h in cc
      | inr other ↦ covers q (sym (ap is_some at ∙ rw other refl) ∙ h)
    ]

pub erase_both-Covers :
    (fd : ℕ) (agents : List (ℕ × AgentRecord)) (sockets : List (ℕ × ℕ))
    → Covers agents sockets
    → Covers (erase fd agents) (erase fd sockets)
erase_both-Covers fd agents sockets covers q h =
    let at = lookup-erase fd q agents in
    let to = lookup-erase fd q sockets in
    elim (Bool-cases (fd == q)) [
      | inl same ↦ let clash : false ≡ true = sym (ap is_some at ∙ rw same refl) ∙ h in cc
      | inr other ↦ ap is_some to ∙ rw other (covers q (sym (ap is_some at ∙ rw other refl) ∙ h))
    ]

pub insert_both-Covers :
    (fd socket : ℕ) (rec : AgentRecord) (agents : List (ℕ × AgentRecord)) (sockets : List (ℕ × ℕ))
    → Covers agents sockets
    → Covers (insert fd rec agents) (insert fd socket sockets)
insert_both-Covers fd socket rec agents sockets covers q h =
    let at = lookup-insert fd q rec agents in
    let to = lookup-insert fd q socket sockets in
    elim (Bool-cases (fd == q)) [
      | inl same ↦ ap is_some to ∙ rw same refl
      | inr other ↦ ap is_some to ∙ rw other (covers q (sym (ap is_some at ∙ rw other refl) ∙ h))
    ]

pub is_some_detect :
    (reaped : ℤ → Bool) (agents : List (ℕ × AgentRecord)) (q : ℕ)
    → is_some (lookup q (detect_crashes reaped agents)) ≡ is_some (lookup q agents)
unfolding detect_crashes lookup
is_some_detect reaped [] q = refl
is_some_detect reaped ((fd, rec) ∷ rest) q = elim (Bool-cases (fd == q)) [
  | inl same ↦ rw same refl
  | inr other ↦ rw other (is_some_detect reaped rest q)
]
