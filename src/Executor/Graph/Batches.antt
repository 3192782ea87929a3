-- ===== src/Executor/Graph/Batches.antt =====
-- The batches hold every call once, readers first, and nothing but readers runs beside another call.
use mathlib.Core.List.{flatten, Perm, perm_middle}
use mathlib.Core.List.Perm
use a.Base.{
  ◌≡◌, refl, ap, ◌∙◌, ◌<◌, Bool, true, false, ◌⊎◌, inl, inr, List, [], ◌∷◌, ◌++◌, append-nil,
  append_assoc, arith, ◌+◌, length-append, All, All-append, select, every, length, is_empty,
  if◌then◌else◌,
}
use a.Skills.Types.{ToolInvocation}
use a.Executor.Graph.{
  ResourceClass, reader, writer, read_write, classify_tool, group, singletons, build_batches,
}

abbrev pub is_class : ResourceClass → ResourceClass → Bool
is_class reader reader = true
is_class writer writer = true
is_class read_write read_write = true
is_class _ _ = false

module _ {J : Type 0} where
  abbrev pub has_class : ResourceClass → ToolInvocation J → Bool
  has_class c inv = is_class c (classify_tool inv.qualified_name)

  record Grouped (xs : List (ToolInvocation J)) : Type 0 where
    readers : (group xs).readers ≡ select (has_class reader) xs
    writers : (group xs).writers ≡ select (has_class writer) xs
    read_writes : (group xs).read_writes ≡ select (has_class read_write) xs

  group-Grouped : (xs : List (ToolInvocation J)) → Grouped xs
  unfolding group
  group-Grouped [] = record { readers = refl; writers = refl; read_writes = refl }
  group-Grouped (inv ∷ rest) = record {
    readers = ground (arith, (group-Grouped rest).readers);
    writers = ground (arith, (group-Grouped rest).writers);
    read_writes = ground (arith, (group-Grouped rest).read_writes);
  }

  flatten-singletons : (xs : List (ToolInvocation J)) → flatten (singletons xs) ≡ xs
  unfolding flatten
  flatten-singletons [] = refl
  flatten-singletons (x ∷ xs) = ap (◌∷◌ x) (flatten-singletons xs)

  flatten_append :
      (xs ys : List (List (ToolInvocation J))) → flatten (xs ++ ys) ≡ flatten xs ++ flatten ys
  unfolding flatten
  flatten_append [] ys = refl
  flatten_append (x ∷ xs) ys = ap (◌++◌ x) (flatten_append xs ys) ∙ append_assoc_sym x xs ys
    where
      append_assoc_sym :
          (x : List (ToolInvocation J)) (xs ys : List (List (ToolInvocation J)))
          → x ++ (flatten xs ++ flatten ys) ≡ (x ++ flatten xs) ++ flatten ys
      append_assoc_sym x xs ys = rw append_assoc

  flatten_optional :
      (rs : List (ToolInvocation J)) → flatten (if is_empty rs then [] else rs ∷ []) ≡ rs
  unfolding flatten
  flatten_optional [] = refl
  flatten_optional (r ∷ rs) = rw append-nil

  -- The batches of `buildBatches` in order hold the readers, then the writers, then the rest, and each of the three
  -- kinds in the order of the calls.
  flatten-build_batches :
      (xs : List (ToolInvocation J))
      → flatten (build_batches xs)
        ≡ select (has_class reader) xs
          ++ (select (has_class writer) xs ++ select (has_class read_write) xs)
  unfolding build_batches
  flatten-build_batches xs =
      let g = group xs in
      let is = group-Grouped xs in
      flatten_append (if is_empty g.readers then [] else g.readers ∷ [])
        (singletons g.writers ++ singletons g.read_writes)
      ∙ rw (
        flatten_optional, flatten_append, flatten-singletons, flatten-singletons, is.readers,
        is.writers, is.read_writes,
      )

  select-perm :
      (xs : List (ToolInvocation J))
      → Perm
          (select (has_class reader) xs
            ++ (select (has_class writer) xs ++ select (has_class read_write) xs))
          xs
  select-perm [] = Perm.nil
  select-perm (x ∷ xs) = split (classify_tool x.qualified_name) (select-perm xs)
    where
      rs : List (ToolInvocation J)
      rs = select (has_class reader) xs

      ws : List (ToolInvocation J)
      ws = select (has_class writer) xs

      os : List (ToolInvocation J)
      os = select (has_class read_write) xs

      split :
          (c : ResourceClass)
          → Perm (rs ++ (ws ++ os)) xs
          → Perm
              ((if is_class reader c then x ∷ rs else rs)
                ++ ((if is_class writer c then x ∷ ws else ws)
                    ++ (if is_class read_write c then x ∷ os else os)))
              (x ∷ xs)
      split reader ih = Perm.cons x ih
      split writer ih = Perm.trans (perm_middle rs (ws ++ os)) (Perm.cons x ih)
      split read_write ih =
          Perm.trans (Perm.append (Perm.refl rs) (perm_middle ws os))
            (Perm.trans (perm_middle rs (ws ++ os)) (Perm.cons x ih))

  -- `buildBatches` loses, makes up and repeats no call: its batches together are a permutation of
  -- the calls.
  pub build_batches-perm : (xs : List (ToolInvocation J)) → Perm (flatten (build_batches xs)) xs
  build_batches-perm xs = rw flatten-build_batches (select-perm xs)

  -- A batch that is safe to run as one: a single call, or readers only; and never empty.
  abbrev pub IsSafe : List (ToolInvocation J) → Type 0
  IsSafe b = (0 < length b) × ((length b ≡ 1) ⊎ (every (has_class reader) b ≡ true))

  singletons-IsSafe : (xs : List (ToolInvocation J)) → All IsSafe (singletons xs)
  singletons-IsSafe [] = tt
  singletons-IsSafe (x ∷ xs) = ((omega arith, inl refl), singletons-IsSafe xs)

  every-select :
      (c : ResourceClass) (xs : List (ToolInvocation J))
      → every (has_class c) (select (has_class c) xs) ≡ true
  every-select c [] = refl
  every-select c (x ∷ xs) = ground (arith, every-select c xs)

  optional-IsSafe :
      (rs : List (ToolInvocation J))
      → every (has_class reader) rs ≡ true
      → All IsSafe (if is_empty rs then [] else rs ∷ [])
  optional-IsSafe [] h = tt
  optional-IsSafe (r ∷ rs) h = ((omega arith, inr h), tt)

  -- Every batch that `buildBatches` makes is safe to run as one: it is not empty, and it is a single
  -- call or holds readers only.
  pub build_batches-IsSafe : (xs : List (ToolInvocation J)) → All IsSafe (build_batches xs)
  unfolding build_batches
  build_batches-IsSafe xs =
      let g = group xs in
      let is = group-Grouped xs in
      All-append IsSafe (if is_empty g.readers then [] else g.readers ∷ [])
        (singletons g.writers ++ singletons g.read_writes)
        (optional-IsSafe g.readers (rw is.readers (every-select reader xs)))
        (All-append IsSafe (singletons g.writers) (singletons g.read_writes)
          (singletons-IsSafe g.writers) (singletons-IsSafe g.read_writes))

  length-flatten-append :
      (rs ws os : List (ToolInvocation J))
      → length (rs ++ (ws ++ os)) ≡ length rs + (length ws + length os)
  length-flatten-append rs ws os = omega (arith, length-append rs (ws ++ os), length-append ws os)

  length-select :
      (xs : List (ToolInvocation J))
      → length (select (has_class reader) xs)
          + (length (select (has_class writer) xs) + length (select (has_class read_write) xs))
        ≡ length xs
  length-select [] = omega arith
  length-select (x ∷ xs) = ground (arith, length-select xs)

  pub length-flatten-build_batches :
      (xs : List (ToolInvocation J)) → length (flatten (build_batches xs)) ≡ length xs
  length-flatten-build_batches xs = rw flatten-build_batches (
      length-flatten-append (select (has_class reader) xs) (select (has_class writer) xs)
        (select (has_class read_write) xs)
      ∙ length-select xs)

  -- a reader that is called after another call is run before it
  pub build_batches_swaps :
      (x y : ToolInvocation J)
      → classify_tool x.qualified_name ≡ read_write
      → classify_tool y.qualified_name ≡ reader
      → build_batches (x ∷ y ∷ []) ≡ (y ∷ []) ∷ (x ∷ []) ∷ []
  unfolding build_batches group
  build_batches_swaps x y h k = ground arith
