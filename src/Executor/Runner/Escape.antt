-- ===== src/Executor/Runner/Escape.antt =====
-- A quoted argument is read back by the shell as one word.
use a.Base.{
  ℕ, ◌≡◌, refl, ap, ◌∙◌, Bool, ◌||◌, [], ◌∷◌, ◌++◌, append_assoc, Option, none, some, arith, Bytes,
  nat_eq, if◌then◌else◌,
}
use a.Executor.Runner.{escape_body, shell_escape}

-- POSIX 2.2: how the shell reads a word. Outside quotes a backslash takes the next byte as it is,
-- a single quote opens a quoted part, and a blank or an operator ends the word; inside single
-- quotes every byte up to the closing quote stands for itself.
abbrev pub ends_word : ℕ → Bool
ends_word c =
    nat_eq c 32
    || nat_eq c 9
    || nat_eq c 10
    || nat_eq c b';'
    || nat_eq c b'&'
    || nat_eq c b'|'
    || nat_eq c b'<'
    || nat_eq c b'>'
    || nat_eq c b'('
    || nat_eq c b')'

pub data Quoting : Type 0 where
  plain quoted escaped : Quoting

abbrev pub prepend : ℕ → Option (Bytes × Bytes) → Option (Bytes × Bytes)
prepend c none = none
prepend c (some (word, rest)) = some (c ∷ word, rest)

-- The word and what follows it; `none` where a quote or an escape is left open.
unfoldable pub read_word : Quoting → Bytes → Option (Bytes × Bytes)
read_word plain [] = some ([], [])
read_word quoted [] = none
read_word escaped [] = none
read_word quoted (c ∷ s) =
    let next = read_word quoted s in
    let close = read_word plain s in if nat_eq c 39 then close else prepend c next
read_word escaped (c ∷ s) = prepend c (read_word plain s)
read_word plain (c ∷ s) =
    let quote = read_word quoted s in
    let escape = read_word escaped s in
    let next = read_word plain s in
    if nat_eq c 39
    then quote
    else if nat_eq c 92
    then escape
    else if ends_word c
    then some ([], c ∷ s)
    else prepend c next

abbrev pub prepend_all : Bytes → Option (Bytes × Bytes) → Option (Bytes × Bytes)
prepend_all [] r = r
prepend_all (c ∷ w) r = prepend c (prepend_all w r)

read_word-escape_body :
    (s t : Bytes) → read_word quoted (escape_body s ++ t) ≡ prepend_all s (read_word quoted t)
unfolding read_word escape_body
read_word-escape_body [] t = refl
read_word-escape_body (c ∷ s) t = ground (arith, read_word-escape_body s t)

pub prepend_all-some : (s w r : Bytes) → prepend_all s (some (w, r)) ≡ some (s ++ w, r)
prepend_all-some [] w r = refl
prepend_all-some (c ∷ s) w r = ground (arith, prepend_all-some s w r)

-- Whatever bytes `s` holds, the shell reads `shellEscape(s)` in front of `rest` as the bytes of `s`
-- followed by the word that `rest` goes on with: quotes, blanks and operators of `s` do not act.
pub read_word-shell_escape :
    (s rest w r : Bytes)
    → read_word plain rest ≡ some (w, r)
    → read_word plain (shell_escape s ++ rest) ≡ some (s ++ w, r)
unfolding read_word shell_escape
read_word-shell_escape s rest w r h =
    rw append_assoc
      (read_word-escape_body s (39 ∷ rest) ∙ ap (prepend_all s) h ∙ prepend_all-some s w r)
