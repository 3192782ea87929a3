-- ===== src/Skills/Loader/Manifest/Fields.antt =====
-- What is read back of the fields of an object that was written field by field, as
-- src/skills/skill_loader.cpp does.
use a.Base.{
  ◌≡◌, refl, sym, ap, ◌∙◌, Bool, true, false, not, List, [], ◌∷◌, map, Option, none, some, Bytes, ℤ,
  is_empty, bytes_key, int_eq, int_eq_iff, Bool-cases, inl, inr,
}
use a.Shared.Json.{Json, Laws, Conversions, ConversionLaws}
use a.Ipc.Message.{assign}
use a.Ipc.Message.RoundTrip.{find-assign, assign_is_object, field_at, over}
use a.Skills.Loader.Manifest.{unless, each, given}

nothing_in : {A : Type 0} (xs : List A) → is_empty xs ≡ true → [] ≡ xs
nothing_in [] h = refl
nothing_in (x ∷ xs) h = cc

over_first : {J : Type 0} (o : Option J) → over true o none ≡ o
over_first none = refl
over_first (some v) = refl

each-map :
    {A B C : Type 0} (f : B → Option C) (g : A → B) (h : A → C) (xs : List A)
    → ((x : A) → f (g x) ≡ some (h x))
    → each f (map g xs) ≡ some (map h xs)
unfolding each
each-map f g h [] e = refl
each-map f g h (x ∷ xs) e = rw (each, e x, each-map f g h xs e) refl

module _ {J : Type 0} (json : Json J) (conv : Conversions J) (laws : Laws json)
    (more : ConversionLaws json conv) where
  pub given-unless :
      {A : Type 0} (read : J → Option A) (absent kept : A) (b : Bool) (v j : J) (k : Bytes)
      → json.find j k ≡ unless json conv b v
      → (b ≡ true → absent ≡ kept)
      → (b ≡ false → read v ≡ some kept)
      → given json conv read absent j k ≡ some kept
  unfolding given unless
  given-unless read absent kept true v j k e h g = rw (given, e) (ap some (h refl))
  given-unless read absent kept false v j k e h g = rw (given, e) (g refl)

  -- an object that was written
  abbrev pub written : List (Bytes × Option J) → J
  written fs = assign json fs json.object

  pub find-written :
      (q : Bytes) (fs : List (Bytes × Option J)) → json.find (written fs) q ≡ field_at q fs none
  find-written q fs =
      find-assign json laws q fs json.object laws.object_is
      ∙ ap (field_at q fs) (laws.find-object q)

  pub find_back :
      (fs : List (Bytes × Option J)) (k : Bytes) (o : Option J)
      → field_at k fs none ≡ over true o none
      → json.find (written fs) k ≡ o
  find_back fs k o e = find-written k fs ∙ e ∙ over_first o

  pub text_back :
      (fs : List (Bytes × Option J)) (k s d : Bytes)
      → field_at k fs none ≡ some (json.text s)
      → json.value_text (written fs) k d ≡ some s
  text_back fs k s d e =
      more.value_text_object (written fs) k d
        (assign_is_object json laws fs json.object laws.object_is)
      ∙ rw (find-written k fs ∙ e) (laws.as_text-text s)

  pub short_text_back :
      (fs : List (Bytes × Option J)) (k s : Bytes)
      → field_at k fs none ≡ over true (unless json conv (is_empty s) (json.text s)) none
      → json.value_text (written fs) k [] ≡ some s
  unfolding unless
  short_text_back fs k [] e =
      more.value_text_object (written fs) k []
        (assign_is_object json laws fs json.object laws.object_is)
      ∙ rw (find_back fs k none e) refl
  short_text_back fs k (c ∷ s) e = text_back fs k (c ∷ s) [] e

  pub flag_back :
      (fs : List (Bytes × Option J)) (k : Bytes) (b : Bool)
      → field_at k fs none ≡ over true (unless json conv (not b) (conv.bool true)) none
      → conv.value_bool (written fs) k false ≡ some b
  unfolding unless
  flag_back fs k true e =
      more.value_bool_object (written fs) k false
        (assign_is_object json laws fs json.object laws.object_is)
      ∙ rw (find_back fs k (some (conv.bool true)) e) (more.as_bool-bool true)
  flag_back fs k false e =
      more.value_bool_object (written fs) k false
        (assign_is_object json laws fs json.object laws.object_is)
      ∙ rw (find_back fs k none e) refl

  pub number_back :
      (fs : List (Bytes × Option J)) (k : Bytes) (n d : ℤ)
      → field_at k fs none ≡ over true (unless json conv (int_eq n d) (json.int n)) none
      → json.value_int (written fs) k d ≡ some n
  unfolding unless
  number_back fs k n d e = elim (Bool-cases (int_eq n d)) [
    | inl same ↦
        more.value_int_object (written fs) k d
          (assign_is_object json laws fs json.object laws.object_is)
        ∙ rw (find_back fs k (unless json conv (int_eq n d) (json.int n)) e, same)
            (ap some (sym ((int_eq_iff n d).0 same)))
    | inr other ↦
        more.value_int_object (written fs) k d
          (assign_is_object json laws fs json.object laws.object_is)
        ∙ rw (find_back fs k (unless json conv (int_eq n d) (json.int n)) e, other)
            (laws.as_int-int n)
  ]

  pub given_back :
      {A : Type 0} (read : J → Option A) (absent kept : A) (b : Bool) (v : J)
      (fs : List (Bytes × Option J)) (k : Bytes)
      → field_at k fs none ≡ over true (unless json conv b v) none
      → (b ≡ true → absent ≡ kept)
      → (b ≡ false → read v ≡ some kept)
      → given json conv read absent (written fs) k ≡ some kept
  given_back read absent kept b v fs k e h g =
      given-unless read absent kept b v (written fs) k (find_back fs k (unless json conv b v) e) h g

  pub texts_back :
      (ss : List Bytes) (fs : List (Bytes × Option J)) (k : Bytes)
      → field_at k fs none ≡ over true (unless json conv (is_empty ss) (conv.texts ss)) none
      → given json conv conv.as_texts [] (written fs) k ≡ some ss
  texts_back ss fs k e =
      given_back conv.as_texts [] ss (is_empty ss) (conv.texts ss) fs k e (nothing_in ss)
        (λ h. more.as_texts-texts ss)

  pub string_back :
      (fs : List (Bytes × Option J)) (k s : Bytes)
      → field_at k fs none ≡ over true (unless json conv (is_empty s) (json.text s)) none
      → given json conv json.as_text [] (written fs) k ≡ some s
  string_back fs k s e =
      given_back json.as_text [] s (is_empty s) (json.text s) fs k e (nothing_in s)
        (λ h. laws.as_text-text s)

  pub absent_flag :
      (fs : List (Bytes × Option J)) (k : Bytes)
      → field_at k fs none ≡ none
      → conv.value_bool (written fs) k false ≡ some false
  absent_flag fs k e =
      more.value_bool_object (written fs) k false
        (assign_is_object json laws fs json.object laws.object_is)
      ∙ rw (find-written k fs, e) refl

  -- an array of what was written, left out when it is empty
  pub array_back :
      {A B : Type 0} (parse : J → Option B) (write : A → J) (back : A → B) (xs : List A)
      (fs : List (Bytes × Option J)) (k : Bytes)
      → ((x : A) → parse (write x) ≡ some (back x))
      → field_at k fs none
        ≡ over true (unless json conv (is_empty xs) (json.array (map write xs))) none
      → given json conv (λ v. each parse (conv.walk v)) [] (written fs) k ≡ some (map back xs)
  array_back parse write back xs fs k each_back e =
      given_back (λ v. each parse (conv.walk v)) [] (map back xs) (is_empty xs)
        (json.array (map write xs)) fs k e (λ h. ap (map back) (nothing_in xs h))
        (λ h. rw (more.walk-array (map write xs)) (each-map parse write back xs each_back))
