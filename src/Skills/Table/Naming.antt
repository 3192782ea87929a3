-- ===== src/Skills/Table/Naming.antt =====
-- The names of the dispatch table: every entry is reached by one, and the loop that looks for a name
-- ends (`buildDispatchTable` of src/skills/skill_manager.cpp).
pub mod Building
use a.Base.{
  ℕ, zero, suc, ◌+◌, ◌-◌, ◌≡◌, refl, ap, ◌∙◌, sym, subst, ◌≤◌, List, [], ◌∷◌, none, some, All,
  arith, Bytes, length, drop, lookup, insert, lookup-insert, bytes_key, bytes_eq_iff, ◌==◌,
  Option-cases, inl, inr, Bool-cases, eq_refl,
}
use a.Skills.Table.{
  Table, rebuilt, choose, place, place_all, split_parts, short_name, min_of, join_from,
}

pub choose_now :
    (f attempt : ℕ) (parts : List Bytes) (candidate : Bytes) (table : Table)
    → lookup candidate table ≡ none
    → choose (suc f) attempt parts candidate table ≡ some candidate
unfolding choose
choose_now f attempt parts candidate table free = rw (choose, free) refl

pub choose_later :
    (f attempt : ℕ) (parts : List Bytes) (candidate qn : Bytes) (table : Table)
    → lookup candidate table ≡ some qn
    → choose (suc f) attempt parts candidate table
      ≡ choose f (suc attempt) parts (rebuilt parts (attempt + 2)) table
unfolding choose
choose_later f attempt parts candidate qn table taken = rw (choose, taken) refl

pub choose_free :
    (f attempt : ℕ) (parts : List Bytes) (candidate name : Bytes) (table : Table)
    → choose f attempt parts candidate table ≡ some name
    → lookup name table ≡ none
unfolding choose
choose_free zero attempt parts candidate name table e = cc
choose_free (suc f) attempt parts candidate name table e =
    elim (Option-cases (lookup candidate table)) [
      | inl free ↦
          let same : some candidate ≡ some name =
            sym (choose_now f attempt parts candidate table free) ∙ e in
          let equal : candidate ≡ name = cc in subst (λ c. lookup c table ≡ none) equal free
      | inr (q, taken) ↦
          choose_free f (suc attempt) parts (rebuilt parts (attempt + 2)) name table
            (sym (choose_later f attempt parts candidate q table taken) ∙ e)
    ]

-- the whole name, as it is put together again
abbrev pub whole : Bytes → Bytes
whole qn = rebuilt (split_parts qn) (length (split_parts qn))

min_all : (n k : ℕ) → k ≤ n → min_of n k ≡ k
min_all n k h = ground arith

pub all_parts :
    (parts : List Bytes) (n : ℕ) → length parts ≤ n → rebuilt parts n ≡ rebuilt parts (length parts)
unfolding rebuilt
all_parts parts n h =
    ap (λ k. join_from [] (drop (length parts - k) parts))
      (min_all n (length parts) h ∙ sym (min_all (length parts) (length parts) (omega arith)))

pub choose_ends :
    (f attempt : ℕ) (parts : List Bytes) (candidate : Bytes) (table : Table)
    → lookup (rebuilt parts (length parts)) table ≡ none
    → length parts ≤ attempt + suc f
    → (name : Bytes) × (choose (suc (suc f)) attempt parts candidate table ≡ some name)
choose_ends f attempt parts candidate table free h = elim (Option-cases (lookup candidate table)) [
  | inl now ↦ (candidate, choose_now (suc f) attempt parts candidate table now)
  | inr (q, taken) ↦
      let (name, found) = next_ends f attempt parts table free h in
      (name, choose_later (suc f) attempt parts candidate q table taken ∙ found)
]
  where
    next_ends :
        (f attempt : ℕ) (parts : List Bytes) (table : Table)
        → lookup (rebuilt parts (length parts)) table ≡ none
        → length parts ≤ attempt + suc f
        → (name : Bytes) × (choose (suc f) (suc attempt) parts (rebuilt parts (attempt + 2)) table
            ≡ some name)
    next_ends zero attempt parts table free h =
        let end : rebuilt parts (attempt + 2) ≡ rebuilt parts (length parts) =
          all_parts parts (attempt + 2) (omega (arith, h)) in
        (
          _,
          choose_now 0 (suc attempt) parts (rebuilt parts (attempt + 2)) table
              (ap (λ n. lookup n table) end ∙ free),
        )
    next_ends (suc f) attempt parts table free h =
        elim (Option-cases (lookup (rebuilt parts (attempt + 2)) table)) [
          | inl now ↦
              (_, choose_now (suc f) (suc attempt) parts (rebuilt parts (attempt + 2)) table now)
          | inr (q, taken) ↦
              let (name, found) = next_ends f (suc attempt) parts table free (omega (arith, h)) in
              (
                name,
                choose_later (suc f) (suc attempt) parts (rebuilt parts (attempt + 2)) q table taken
                    ∙ found,
              )
        ]

place_inv :
    (f : ℕ) (qn : Bytes) (table next : Table)
    → place f qn table ≡ some next
    → (name : Bytes) × (lookup name table ≡ none) × (next ≡ insert name qn table)
unfolding place
place_inv f qn table next e =
    elim (Option-cases (choose f 0 (split_parts qn) (short_name qn) table)) [
      | inl nowhere ↦ let clash : none ≡ some next = sym (rw (place, nowhere) refl) ∙ e in cc
      | inr (name, chosen) ↦
          let same : some (insert name qn table) ≡ some next = sym (rw (place, chosen) refl) ∙ e in
          (name, choose_free f 0 (split_parts qn) (short_name qn) name table chosen, cc)
    ]

pub Reached : Table → Bytes → Type 0
Reached table qn = (name : Bytes) × (lookup name table ≡ some qn)

-- a name that was not taken is added, so no entry loses its name
insert_keeps :
    (q name qn old : Bytes) (table : Table)
    → lookup name table ≡ none
    → lookup q table ≡ some old
    → lookup q (insert name qn table) ≡ some old
insert_keeps q name qn old table free there = elim (Bool-cases (name == q)) [
  | inl same ↦
      let equal : name ≡ q = (bytes_eq_iff name q).0 same in
      let clash : none ≡ some old = sym free ∙ ap (λ n. lookup n table) equal ∙ there in
      absurd_option clash
  | inr other ↦ lookup-insert name q qn table ∙ rw other there
]
  where
    absurd_option : {A : Type 0} {a : A} {B : Type 0} → none ≡ some a → B
    absurd_option e = cc

insert_there : (name qn : Bytes) (table : Table) → lookup name (insert name qn table) ≡ some qn
insert_there name qn table = lookup-insert name name qn table ∙ rw (eq_refl name) refl

place_all_keeps :
    (f : ℕ) (qns : List Bytes) (old : Bytes) (table last : Table)
    → place_all f qns table ≡ some last
    → Reached table old
    → Reached last old
unfolding place_all Reached
place_all_keeps f [] old table last e there =
    let same : table ≡ last = cc in subst (λ t. Reached t old) same there
place_all_keeps f (qn ∷ rest) old table last e (q, there) = elim (Option-cases (place f qn table)) [
  | inl nowhere ↦ let clash : none ≡ some last = sym (rw (place_all, nowhere) refl) ∙ e in cc
  | inr (next, placed) ↦
      let (name, free, made) = place_inv f qn table next placed in
      place_all_keeps f rest old next last (sym (rw (place_all, placed) refl) ∙ e)
        (q, ap (lookup q) made ∙ insert_keeps q name qn old table free there)
]

-- If the table gets built, every tool and prompt that was collected is in it under some name; none is
-- overwritten by a later one.
pub place_all-Reached :
    (f : ℕ) (qns : List Bytes) (table last : Table)
    → place_all f qns table ≡ some last
    → All (Reached last) qns
unfolding place_all Reached
place_all-Reached f [] table last e = tt
place_all-Reached f (qn ∷ rest) table last e = elim (Option-cases (place f qn table)) [
  | inl nowhere ↦ let clash : none ≡ some last = sym (rw (place_all, nowhere) refl) ∙ e in cc
  | inr (next, placed) ↦
      let (name, free, made) = place_inv f qn table next placed in
      let on : place_all f rest next ≡ some last = sym (rw (place_all, placed) refl) ∙ e in
      (
        place_all_keeps f rest qn next last on
            (name, ap (lookup name) made ∙ insert_there name qn table),
        place_all-Reached f rest next last on,
      )
]

-- The loop that looks for a name of an entry ends within two rounds more than the name has parts, and
-- in as many with more fuel, where the name with all its parts is not taken; what it adds then
-- was not in the table.
pub place_ends :
    (f : ℕ) (qn : Bytes) (table : Table)
    → lookup (whole qn) table ≡ none
    → length (split_parts qn) + 2 ≤ f
    → (name : Bytes) × (lookup name table ≡ none) × (place f qn table ≡ some (insert name qn table))
unfolding place
place_ends zero qn table free h = absurd (omega (arith, h))
place_ends (suc zero) qn table free h = absurd (omega (arith, h))
place_ends (suc (suc f)) qn table free h =
    let (name, chosen) =
      choose_ends f 0 (split_parts qn) (short_name qn) table free (omega (arith, h)) in
    (
      name,
      choose_free (suc (suc f)) 0 (split_parts qn) (short_name qn) name table chosen,
      rw (place, chosen) refl,
    )
