-- ===== src/Skills/Table/Naming/Building.antt =====
-- When the dispatch table is built, and when the loop for a name has no end: `buildDispatchTable` of
-- src/skills/skill_manager.cpp.
use a.Base.{
  ℕ, zero, suc, ◌+◌, ◌≡◌, ◌≢◌, refl, sym, ◌∙◌, ◌≤◌, ◌⊎◌, List, [], ◌∷◌, none, some, All, arith,
  Bytes, length, lookup, insert, lookup-insert, bytes_key, bytes_eq_iff, ◌==◌, Option-cases, inl,
  inr, Bool-cases,
}
use a.Skills.Table.{Table, rebuilt, choose, place, place_all, split_parts, short_name}
use a.Skills.Table.Naming.{whole, choose_ends, choose_now, choose_later, Reached, place_all-Reached}

-- the names that the loop may give to an entry
abbrev pub IsNameOf : Bytes → Bytes → Type 0
IsNameOf qn name = (name ≡ short_name qn) ⊎ ((k : ℕ) × (name ≡ rebuilt (split_parts qn) (k + 2)))

choose_among :
    (f attempt : ℕ) (parts : List Bytes) (candidate name : Bytes) (table : Table)
    → choose f attempt parts candidate table ≡ some name
    → (name ≡ candidate) ⊎ ((k : ℕ) × (name ≡ rebuilt parts (k + 2)))
unfolding choose
choose_among zero attempt parts candidate name table e = cc
choose_among (suc f) attempt parts candidate name table e =
    elim (Option-cases (lookup candidate table)) [
      | inl free ↦
          let same : some candidate ≡ some name =
            sym (choose_now f attempt parts candidate table free) ∙ e in
          inl cc
      | inr (q, taken) ↦
          elim (choose_among f (suc attempt) parts (rebuilt parts (attempt + 2)) name table
            (sym (choose_later f attempt parts candidate q table taken) ∙ e)) [
              | inl same ↦ inr (attempt, same)
              | inr other ↦ inr other
            ]
    ]

place_builds :
    (f : ℕ) (qn : Bytes) (table : Table)
    → lookup (whole qn) table ≡ none
    → length (split_parts qn) + 2 ≤ f
    → (name : Bytes) × IsNameOf qn name × (place f qn table ≡ some (insert name qn table))
unfolding place
place_builds zero qn table free h = absurd (omega (arith, h))
place_builds (suc zero) qn table free h = absurd (omega (arith, h))
place_builds (suc (suc f)) qn table free h =
    let (name, chosen) =
      choose_ends f 0 (split_parts qn) (short_name qn) table free (omega (arith, h)) in
    (
      name,
      choose_among (suc (suc f)) 0 (split_parts qn) (short_name qn) name table chosen,
      rw (place, chosen) refl,
    )

-- no name that an entry may get is the whole name of a later one
abbrev pub Apart : List Bytes → Type 0
Apart [] = Unit
Apart (q ∷ qns) = All (λ qn. (name : Bytes) → IsNameOf q name → name ≢ whole qn) qns × Apart qns

-- the whole names are not taken
abbrev pub AllFree : Table → List Bytes → Type 0
AllFree table = All (λ qn. lookup (whole qn) table ≡ none)

-- the rounds are more than an entry has parts
abbrev pub Enough : ℕ → List Bytes → Type 0
Enough f = All (λ qn. length (split_parts qn) + 2 ≤ f)

still_free :
    (q name : Bytes) (table : Table) (qns : List Bytes)
    → IsNameOf q name
    → All (λ qn. (name : Bytes) → IsNameOf q name → name ≢ whole qn) qns
    → AllFree table qns
    → AllFree (insert name q table) qns
still_free q name table [] named apart free = tt
still_free q name table (qn ∷ qns) named (here, apart) (open_, free) = (
  elim (Bool-cases (name == whole qn)) [
    | inl same ↦ absurd (here name named ((bytes_eq_iff name (whole qn)).0 same))
    | inr other ↦ lookup-insert name (whole qn) q table ∙ rw other open_
  ],
  still_free q name table qns named apart free,
)

built :
    (f : ℕ) (qns : List Bytes) (table : Table)
    → Apart qns
    → AllFree table qns
    → Enough f qns
    → (last : Table) × (place_all f qns table ≡ some last)
unfolding place_all
built f [] table apart free enough = (table, refl)
built f (q ∷ qns) table (one, apart) (open_, free) (h, enough) =
    let (name, named, placed) = place_builds f q table open_ h in
    let (last, rest) =
      built f qns (insert name q table) apart (still_free q name table qns named one free) enough in
    (last, rw (place_all, placed) rest)

-- The dispatch table is built, by loops that all end within two rounds more than the longest name has
-- parts, where the whole names of the entries are not taken, and no entry may get the whole name of a
-- later one (so no two have the same). Every tool and prompt that was collected is then in the table
-- under some name; none is overwritten by a later one.
pub place_all-builds :
    (f : ℕ) (qns : List Bytes) (table : Table)
    → Apart qns
    → AllFree table qns
    → Enough f qns
    → (last : Table) × (place_all f qns table ≡ some last) × All (Reached last) qns
place_all-builds f qns table apart free enough =
    let (last, ends) = built f qns table apart free enough in
    (last, ends, place_all-Reached f qns table last ends)

abbrev pub IsTaken : Table → Bytes → Type 0
IsTaken table name = (q : Bytes) × (lookup name table ≡ some q)

choose_endless :
    (f attempt : ℕ) (parts : List Bytes) (candidate : Bytes) (table : Table)
    → IsTaken table candidate
    → ((k : ℕ) → IsTaken table (rebuilt parts (k + 2)))
    → choose f attempt parts candidate table ≡ none
unfolding choose
choose_endless zero attempt parts candidate table now later = refl
choose_endless (suc f) attempt parts candidate table (q, taken) later =
    choose_later f attempt parts candidate q table taken
    ∙ choose_endless f (suc attempt) parts (rebuilt parts (attempt + 2)) table (later attempt) later

-- The loop for the name of an entry never ends when its short name is taken, and so are its last two
-- parts together, its last three and so on up to all of them: with any number of rounds there is no table. So it is for an entry
-- whose whole name is that of an earlier one, once other entries have the shorter names.
pub place_endless :
    (f : ℕ) (qn : Bytes) (table : Table)
    → IsTaken table (short_name qn)
    → ((k : ℕ) → IsTaken table (rebuilt (split_parts qn) (k + 2)))
    → place f qn table ≡ none
unfolding place
place_endless f qn table short later =
    rw (place, choose_endless f 0 (split_parts qn) (short_name qn) table short later) refl
