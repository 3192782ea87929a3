-- ===== src/Executor/ToolRunner/Words.antt =====
-- What the shell makes of the arguments that src/executor/tool_runner.cpp puts behind a command.
use a.Base.{
  ℕ, ◌≡◌, refl, ap, sym, ◌∙◌, subst, Bool, true, false, ◌&&◌, ◌||◌, List, [], ◌∷◌, ◌++◌, append-nil,
  append_assoc, Option, none, some, Bytes, codes, nat_eq, nat_eq_iff, leb, every, bytes_eq,
  if◌then◌else◌, Bool-cases, Option-cases, inl, inr, All, if_yes, if_no,
}
use a.Base.Fault.{◌>>=◌}
use a.Shared.Json.{Json, Conversions}
use a.Executor.Runner.{shell_escape}
use a.Executor.Runner.Escape.{
  plain, read_word, ends_word, prepend, prepend_all, prepend_all-some, read_word-shell_escape,
}
use a.Executor.ToolRunner.{Params, argument_text, option_text, one_argument, arguments}

-- The words of a command line: blanks part them, and no operator stands between them.
pub data Words : Bytes → List Bytes → Type 0 where
  end_of_line : Words [] []
  blank : {s : Bytes} {words : List Bytes} → Words s words → Words (32 ∷ s) words
  word :
      {c : ℕ} {s w r : Bytes} {words : List Bytes}
      → ends_word c ≡ false
      → read_word plain (c ∷ s) ≡ some (w, r)
      → Words r words
      → Words (c ∷ s) (w ∷ words)

-- letters, digits, `_` and `-`
abbrev pub is_name_byte : ℕ → Bool
is_name_byte c =
    (leb 97 c && leb c 122)
    || (leb 65 c && leb c 90)
    || (leb 48 c && leb c 57)
    || nat_eq c 95
    || nat_eq c 45

other_byte : (c k : ℕ) → is_name_byte c ≡ true → is_name_byte k ≡ false → nat_eq c k ≡ false
other_byte c k h g = elim (Bool-cases (nat_eq c k)) [
  | inl same ↦
      let clash : true ≡ false = sym h ∙ ap is_name_byte ((nat_eq_iff c k).0 same) ∙ g in cc
  | inr other ↦ other
]

in_word : (c : ℕ) → is_name_byte c ≡ true → ends_word c ≡ false
in_word c h =
    rw
      (
        other_byte c 32 h refl,
        other_byte c 9 h refl,
        other_byte c 10 h refl,
        other_byte c 59 h refl,
        other_byte c 38 h refl,
        other_byte c 124 h refl,
        other_byte c 60 h refl,
        other_byte c 62 h refl,
        other_byte c 40 h refl,
        other_byte c 41 h refl,
      )
      refl

read_word_byte :
    (c : ℕ) (s : Bytes)
    → is_name_byte c ≡ true
    → read_word plain (c ∷ s) ≡ prepend c (read_word plain s)
unfolding read_word
read_word_byte c s h =
    if_no (nat_eq c 39) _ _ (other_byte c 39 h refl)
    ∙ if_no (nat_eq c 92) _ _ (other_byte c 92 h refl)
    ∙ if_no (ends_word c) _ _ (in_word c h)

and_parts : (a b : Bool) → (a && b) ≡ true → (a ≡ true) × (b ≡ true)
and_parts true b h = (refl, h)
and_parts false b h = cc

read_word_name :
    (key rest : Bytes)
    → every is_name_byte key ≡ true
    → read_word plain (key ++ rest) ≡ prepend_all key (read_word plain rest)
read_word_name [] rest h = refl
read_word_name (c ∷ key) rest h =
    let (byte, others) = and_parts (is_name_byte c) (every is_name_byte key) h in
    read_word_byte c (key ++ rest) byte ∙ ap (prepend c) (read_word_name key rest others)

-- what an argument is to the program that is run
abbrev pub argument_word : Bytes → Bytes → Bytes
argument_word key text =
    if bytes_eq key (codes "_") then text else codes "--" ++ key ++ codes "=" ++ text

-- behind an argument the line ends or a blank follows
abbrev IsTail : Bytes → Type 0
IsTail s = read_word plain s ≡ some ([], s)

blank-IsTail : (s : Bytes) → IsTail (32 ∷ s)
unfolding read_word
blank-IsTail s = refl

end-IsTail : IsTail []
unfolding read_word
end-IsTail = refl

plain_Words :
    (text rest : Bytes) (words : List Bytes)
    → IsTail rest
    → Words rest words
    → Words (codes " " ++ shell_escape text ++ rest) (text ∷ words)
unfolding shell_escape
plain_Words text rest words tail behind = blank (
    word refl
      (read_word-shell_escape text rest [] rest tail ∙ ap (λ t. some (t, rest)) (append-nil text))
      behind)

read_escaped :
    (text rest : Bytes)
    → IsTail rest
    → read_word plain (shell_escape text ++ rest) ≡ some (text, rest)
read_escaped text rest tail =
    read_word-shell_escape text rest [] rest tail ∙ ap (λ t. some (t, rest)) (append-nil text)

read_named :
    (key text rest : Bytes)
    → every is_name_byte key ≡ true
    → IsTail rest
    → read_word plain (codes "--" ++ key ++ codes "=" ++ shell_escape text ++ rest)
      ≡ some (codes "--" ++ key ++ codes "=" ++ text, rest)
unfolding read_word
read_named key text rest h tail =
    let tail_of = shell_escape text ++ rest in
    let joined : key ++ codes "=" ++ shell_escape text ++ rest ≡ key ++ (61 ∷ tail_of) =
      append_assoc (key ++ codes "=") (shell_escape text) rest
      ∙ append_assoc key (codes "=") tail_of in
    let inner : read_word plain (key ++ codes "=" ++ shell_escape text ++ rest)
        ≡ some (key ++ codes "=" ++ text, rest) =
      ap (read_word plain) joined
      ∙ read_word_name key (61 ∷ tail_of) h
      ∙ ap (λ o. prepend_all key (prepend 61 o)) (read_escaped text rest tail)
      ∙ prepend_all-some key (61 ∷ text) rest
      ∙ ap (λ t. some (t, rest)) (sym (append_assoc key (codes "=") text)) in
    ap (λ o. prepend 45 (prepend 45 o)) inner

named_Words :
    (key text rest : Bytes) (words : List Bytes)
    → every is_name_byte key ≡ true
    → IsTail rest
    → Words rest words
    → Words
        (codes " --" ++ key ++ codes "=" ++ shell_escape text ++ rest)
        ((codes "--" ++ key ++ codes "=" ++ text) ∷ words)
named_Words key text rest words h tail behind =
    blank (word refl (read_named key text rest h tail) behind)

module _ {J : Type 0} (json : Json J) (conv : Conversions J) (params : Params J) where
  -- the text of one parameter
  abbrev pub parameter_text : Bytes → J → Option Bytes
  parameter_text key v =
      if bytes_eq key (codes "_")
      then argument_text json conv params v
      else option_text json conv params v

  abbrev pub parameter_texts : List (Bytes × J) → Option (List Bytes)
  parameter_texts [] = some []
  parameter_texts ((key, v) ∷ rest) =
      parameter_text key v >>= λ s. parameter_texts rest >>= λ ss. some (argument_word key s ∷ ss)

  -- keys that are names
  abbrev pub HasNames : List (Bytes × J) → Type 0
  HasNames entries = All (λ entry. every is_name_byte (entry.0) ≡ true) entries

  one_inv :
      (key : Bytes) (v : J) (s : Bytes)
      → parameter_text key v ≡ some s
      → every is_name_byte key ≡ true
      → (line : Bytes) × (one_argument json conv params key v ≡ some line)
        × ((rest : Bytes) (words : List Bytes)
            → IsTail rest
            → Words rest words
            → Words (line ++ rest) (argument_word key s ∷ words))
        × ((rest : Bytes) → IsTail (line ++ rest))
  unfolding one_argument
  one_inv key v s e h = elim (Bool-cases (bytes_eq key (codes "_"))) [
    | inl bare ↦
        let text : argument_text json conv params v ≡ some s =
          sym (if_yes (bytes_eq key (codes "_")) _ _ bare) ∙ e in
        (
          codes " " ++ shell_escape s,
          rw (one_argument, bare, text) refl,
          λ rest words tail behind. rw bare (plain_Words s rest words tail behind),
          λ rest. blank-IsTail (shell_escape s ++ rest),
        )
    | inr named ↦
        let text : option_text json conv params v ≡ some s =
          sym (if_no (bytes_eq key (codes "_")) _ _ named) ∙ e in
        (
          codes " --" ++ key ++ codes "=" ++ shell_escape s,
          rw (one_argument, named, text) refl,
          λ rest words tail behind. rw named (named_Words key s rest words h tail behind),
          λ rest. blank-IsTail (codes "--" ++ key ++ codes "=" ++ shell_escape s ++ rest),
        )
  ]

  arguments_inv :
      (entries : List (Bytes × J)) (words : List Bytes)
      → parameter_texts entries ≡ some words
      → HasNames entries
      → (line : Bytes) × (arguments json conv params entries ≡ some line)
        × Words line words
        × IsTail line
  unfolding arguments
  arguments_inv [] words e names =
      let none_left : [] ≡ words = cc in
      ([], refl, subst (Words []) none_left end_of_line, end-IsTail)
  arguments_inv ((key, v) ∷ rest) words e names = elim (Option-cases (parameter_text key v)) [
    | inl thrown ↦ let clash : none ≡ some words = sym (rw thrown refl) ∙ e in cc
    | inr (s, text) ↦ elim (Option-cases (parameter_texts rest)) [
      | inl thrown ↦ let clash : none ≡ some words = sym (rw (text, thrown) refl) ∙ e in cc
      | inr (others, texts) ↦
          let same : some (argument_word key s ∷ others) ≡ some words =
            sym (rw (text, texts) refl) ∙ e in
          let equal : argument_word key s ∷ others ≡ words = cc in
          let (line, made, read, tail) = one_inv key v s text names.0 in
          let (behind, made_behind, read_behind, tail_behind) =
            arguments_inv rest others texts names.1 in
          (
            line ++ behind,
            rw (arguments, made, made_behind) refl,
            subst (Words (line ++ behind)) equal (read behind others tail_behind read_behind),
            tail behind,
          )
    ]
  ]

  -- Where the keys of the parameters are names, of letters, digits, `_` and `-`, and no dump throws, the
  -- arguments that are put behind the command are read by the shell as one word for each parameter, with
  -- the text of its value in it as it is, whatever bytes that has; no operator stands between them.
  pub arguments-Words :
      (entries : List (Bytes × J)) (words : List Bytes)
      → parameter_texts entries ≡ some words
      → HasNames entries
      → (line : Bytes) × (arguments json conv params entries ≡ some line) × Words line words
  arguments-Words entries words e names =
      let (line, made, read, tail) = arguments_inv entries words e names in (line, made, read)
