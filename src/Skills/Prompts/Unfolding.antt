-- ===== src/Skills/Prompts/Unfolding.antt =====
-- When a chain of prompts has an end, and what is collected then: `xCollectChain` of
-- src/skills/skill_manager.cpp.
use a.Base.{
  ℕ, zero, suc, ◌≡◌, refl, ◌∙◌, sym, ◌<◌, ◌≤◌, false, List, [], ◌∷◌, ◌++◌, Option, none, some, All,
  arith, Bytes, is_empty, if◌then◌else◌, Option-cases, Bool-cases, inl, inr, subst, bytes_key,
  bytes_eq, ◌==◌, lookup, if_yes, if_no,
}
use a.Skills.Types.{Prompt, SkillManifest}
use a.Skills.Names.{parse_qualified_name}
use a.Skills.Loader.{Loader, get_prompt, prompt_named, index_key, ns_for_dir}
use a.Skills.Prompts.{chain_prompt, walk_chain, collect_chain, is_qualified, found_prompt}

lookup-All :
    {J : Type 0} (Q : SkillManifest J → Type 0) (k : Bytes) (m : SkillManifest J)
    (entries : List (Bytes × SkillManifest J))
    → All (λ entry. Q (entry.1)) entries
    → lookup k entries ≡ some m
    → Q m
unfolding lookup
lookup-All Q k m [] all e = cc
lookup-All Q k m (entry ∷ rest) all e = elim (Bool-cases (entry.0 == k)) [
  | inl same ↦
      let here : some (entry.1) ≡ some m = sym (if_yes (entry.0 == k) _ (lookup k rest) same) ∙ e in
      let equal : entry.1 ≡ m = cc in subst Q equal all.0
  | inr other ↦ lookup-All Q k m rest all.1 (sym (if_no (entry.0 == k) _ (lookup k rest) other) ∙ e)
]

prompt_named-All :
    (P : Prompt → Type 0) (name : Bytes) (p : Prompt) (prompts : List Prompt)
    → All P prompts
    → prompt_named name prompts ≡ some p
    → P p
unfolding prompt_named
prompt_named-All P name p [] all e = cc
prompt_named-All P name p (q ∷ rest) all e = elim (Bool-cases (bytes_eq q.name name)) [
  | inl same ↦
      let here : some q ≡ some p =
        sym (if_yes (bytes_eq q.name name) _ (prompt_named name rest) same) ∙ e in
      let equal : q ≡ p = cc in subst P equal all.0
  | inr other ↦
      prompt_named-All P name p rest all.1
        (sym (if_no (bytes_eq q.name name) _ (prompt_named name rest) other) ∙ e)
]

get_prompt-All :
    {J : Type 0} (loader : Loader J) (P : Prompt → Type 0) (ns component name : Bytes) (p : Prompt)
    → All (λ entry. All P (SkillManifest.prompts (entry.1))) loader.components
    → found_prompt (get_prompt loader ns component name) ≡ some p
    → P p
unfolding get_prompt found_prompt
get_prompt-All loader P ns component name p all e =
    elim (Option-cases (lookup (index_key (ns_for_dir loader ns) component) loader.components)) [
      | inl gone ↦ let clash : none ≡ some p = sym (rw (get_prompt, gone) refl) ∙ e in cc
      | inr (m, there) ↦ elim (Option-cases (prompt_named name m.prompts)) [
        | inl none_so ↦
            let clash : none ≡ some p = sym (rw (get_prompt, there, none_so) refl) ∙ e in cc
        | inr (q, named) ↦
            let here : some q ≡ some p = sym (rw (get_prompt, there, named) refl) ∙ e in
            let equal : q ≡ p = cc in
            let in_component =
              lookup-All (λ m. All P (SkillManifest.prompts m)) _ m loader.components all there in
            subst P equal (prompt_named-All P name q m.prompts in_component named)
      ]
    ]

module _ {J : Type 0} (loader : Loader J) (ns component : Bytes) where
  -- A chain is the texts of its entries in order, each behind what its own chain is; a name that is
  -- not found is left out.
  pub data Flattens : List Bytes → List Bytes → Type 0 where
    nothing : Flattens [] []
    skipped :
        {name : Bytes} {rest parts : List Bytes}
        → chain_prompt loader ns component name ≡ none
        → Flattens rest parts
        → Flattens (name ∷ rest) parts
    entry :
        {name : Bytes} {rest inner outer : List Bytes} (cp : Prompt)
        → chain_prompt loader ns component name ≡ some cp
        → Flattens cp.chain inner
        → Flattens rest outer
        → Flattens (name ∷ rest) (inner ++ cp.prompt ∷ outer)

  -- A prompt that a chain finds is one that the loader holds.
  pub chain_prompt-All :
      (P : Prompt → Type 0)
      → All (λ entry. All P (SkillManifest.prompts (entry.1))) loader.components
      → (name : Bytes) (cp : Prompt) → chain_prompt loader ns component name ≡ some cp
      → P cp
  unfolding chain_prompt
  chain_prompt-All P all name cp e = elim (Bool-cases (is_qualified name)) [
    | inl qualified ↦ elim (Option-cases (parse_qualified_name name)) [
      | inl bad ↦
          let clash : none ≡ some cp = sym (rw (chain_prompt, qualified, bad) refl) ∙ e in cc
      | inr ((ns2, (component2, name2)), parsed) ↦
          get_prompt-All loader P ns2 component2 name2 cp all
            (sym (rw (chain_prompt, qualified, parsed) refl) ∙ e)
    ]
    | inr short ↦
        get_prompt-All loader P ns component name cp all (sym (rw (chain_prompt, short) refl) ∙ e)
  ]

  -- a rank that goes down from a prompt to the entries of its chain
  abbrev pub IsRanking : (Bytes → ℕ) → Type 0
  IsRanking rank =
      (name : Bytes) (cp : Prompt)
      → chain_prompt loader ns component name ≡ some cp
      → All (λ inner. rank inner < rank name) cp.chain

  abbrev Ends : Option (List Bytes) → List Bytes → Type 0
  Ends result chain = (parts : List Bytes) × (result ≡ some parts) × Flattens chain parts

  below :
      (rank : Bytes → ℕ) (f n : ℕ) (chain : List Bytes)
      → n ≤ f
      → All (λ name. rank name < n) chain
      → All (λ name. rank name < f) chain
  below rank f n [] h all = all
  below rank f n (name ∷ rest) h all = (omega (arith, all.0), below rank f n rest h all.1)

  inner-Ends :
      (nested : List Bytes → Option (List Bytes)) (chain : List Bytes)
      → (is_empty chain ≡ false → Ends (nested chain) chain)
      → Ends (if is_empty chain then some [] else nested chain) chain
  inner-Ends nested [] e = ([], refl, nothing)
  inner-Ends nested (name ∷ rest) e = e refl

  walk_chain-Ends :
      (rank : Bytes → ℕ) (f : ℕ) (nested : List Bytes → Option (List Bytes))
      → IsRanking rank
      → ((chain : List Bytes)
          → is_empty chain ≡ false
          → All (λ name. rank name < f) chain
          → Ends (nested chain) chain)
      → (chain : List Bytes) → All (λ name. rank name < suc f) chain
      → Ends (walk_chain loader nested ns component chain) chain
  unfolding walk_chain
  walk_chain-Ends rank f nested ranking ends [] all = ([], refl, nothing)
  walk_chain-Ends rank f nested ranking ends (name ∷ rest) all =
      let (outer, behind, flat) = walk_chain-Ends rank f nested ranking ends rest all.1 in
      elim (Option-cases (chain_prompt loader ns component name)) [
        | inl gone ↦ (outer, rw (walk_chain, gone) behind, skipped gone flat)
        | inr (cp, there) ↦
            let (inner, ended, deep) = inner-Ends nested cp.chain (λ some_chain.
              ends cp.chain some_chain (
                below rank f (rank name) cp.chain (omega (arith, all.0))
                  (ranking name cp there))) in
            (
              inner ++ cp.prompt ∷ outer,
              rw (walk_chain, there, ended, behind) refl,
              entry cp there deep flat,
            )
      ]

  -- Where the prompts have a rank that goes down from a prompt to the entries of its chain, a chain
  -- has an end, with fuel above the ranks of its entries, and the collected parts are the chain
  -- flattened: the text of each entry that is found behind its own chain, in order.
  pub collect_chain-Flattens :
      (rank : Bytes → ℕ) (f : ℕ) (chain : List Bytes)
      → IsRanking rank
      → is_empty chain ≡ false
      → All (λ name. rank name < f) chain
      → (parts : List Bytes) × (collect_chain loader f ns component chain ≡ some parts)
        × Flattens chain parts
  unfolding collect_chain
  collect_chain-Flattens rank zero [] ranking some_chain all = cc
  collect_chain-Flattens rank zero (name ∷ rest) ranking some_chain all =
      absurd (omega (arith, all.0))
  collect_chain-Flattens rank (suc f) chain ranking some_chain all =
      walk_chain-Ends rank f (collect_chain loader f ns component) ranking
        (λ inner has all_inner. collect_chain-Flattens rank f inner ranking has all_inner) chain all

  -- A prompt whose chain begins with the prompt itself is never resolved: whatever the depth of
  -- calls that is allowed, it does not do.
  pub collect_chain-endless :
      (name : Bytes) (rest : List Bytes) (cp : Prompt)
      → chain_prompt loader ns component name ≡ some cp
      → cp.chain ≡ name ∷ rest
      → (f : ℕ) (behind : List Bytes) → collect_chain loader f ns component (name ∷ behind) ≡ none
  unfolding collect_chain walk_chain
  collect_chain-endless name rest cp there itself zero behind = refl
  collect_chain-endless name rest cp there itself (suc f) behind =
      rw
        (
          collect_chain,
          walk_chain,
          there,
          itself,
          collect_chain-endless name rest cp there itself f rest,
        )
        refl
