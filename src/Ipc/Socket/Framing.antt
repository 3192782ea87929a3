-- ===== src/Ipc/Socket/Framing.antt =====
-- However the stream is cut into chunks, the lines that are delivered are the lines of the stream.
use a.Base.{
  ℕ, ◌≡◌, refl, ap, sym, ◌∙◌, inl, inr, false, List, [], ◌∷◌, ◌++◌, none, some, arith, Bytes,
  append_assoc, append-nil, nat_eq, if◌then◌else◌, Option-cases, Bool-cases,
}
use a.Ipc.Socket.{
  Ready, poll_failed, timed_out, recv_failed, received, line, again, cut_line, scan, take_chunk,
  poll_and_read, recv_line,
}

-- The lines of a text, each without its newline, and what follows the last newline.
abbrev pub join : ℕ → List Bytes × Bytes → List Bytes × Bytes
join c ([], rest) = ([], c ∷ rest)
join c (l ∷ ls, rest) = ((c ∷ l) ∷ ls, rest)

abbrev pub begin_line : List Bytes × Bytes → List Bytes × Bytes
begin_line (ls, rest) = ([] ∷ ls, rest)

pub split_lines : Bytes → List Bytes × Bytes
split_lines [] = ([], [])
split_lines (c ∷ s) = if nat_eq c 10 then begin_line (split_lines s) else join c (split_lines s)

split_lines-cut_line-none : (b : Bytes) → cut_line b ≡ none → split_lines b ≡ ([], b)
unfolding split_lines cut_line
split_lines-cut_line-none [] e = refl
split_lines-cut_line-none (c ∷ s) e = ground (arith, split_lines-cut_line-none s)

split_lines-cut_line-some :
    (b l r : Bytes)
    → cut_line b ≡ some (l, r)
    → split_lines b ≡ (l ∷ (split_lines r).0, (split_lines r).1)
unfolding split_lines cut_line
split_lines-cut_line-some [] l r e = cc
split_lines-cut_line-some (c ∷ s) l r e = elim (Bool-cases (nat_eq c 10)) [
  | inl newline ↦ ground arith
  | inr other ↦ elim (Option-cases (cut_line s)) [
    | inl gone ↦ ground (arith, gone)
    | inr ((m, t), found) ↦ ground (arith, found, split_lines-cut_line-some s m t)
  ]
]

-- the lines of a text whose first part has the lines `p`
abbrev goes_on : List Bytes × Bytes → Bytes → List Bytes × Bytes
goes_on p y = (p.0 ++ (split_lines (p.1 ++ y)).0, (split_lines (p.1 ++ y)).1)

join-goes_on :
    (c : ℕ) (p : List Bytes × Bytes) (y : Bytes)
    → nat_eq c 10 ≡ false
    → join c (goes_on p y) ≡ goes_on (join c p) y
unfolding split_lines
join-goes_on c ([], rest) y other = rw other
join-goes_on c (l ∷ ls, rest) y other = refl

split_lines-append : (x y : Bytes) → split_lines (x ++ y) ≡ goes_on (split_lines x) y
unfolding split_lines
split_lines-append [] y = refl
split_lines-append (c ∷ x) y = elim (Bool-cases (nat_eq c 10)) [
  | inl newline ↦ rw newline (ap begin_line (split_lines-append x y))
  | inr other ↦
      rw other (ap (join c) (split_lines-append x y) ∙ join-goes_on c (split_lines x) y other)
]

-- what a call reads from the socket
unfoldable pub taken : Bytes → Ready → Bytes
taken buffer (received chunk) = elim (cut_line buffer) [ none ↦ chunk | some _ ↦ [] ]
taken buffer _ = []

-- Calls of `recv` on one socket that returned a line, or nothing yet: what they read, the lines they
-- delivered, and the buffer.
pub data Session : Bytes → List Bytes → Bytes → Type 0 where
  opened : Session [] [] []
  delivered :
      {stream : Bytes} {lines : List Bytes} {buffer : Bytes} (ready : Ready) (l rest : Bytes)
      → Session stream lines buffer
      → recv_line buffer ready ≡ (line l, rest)
      → Session (stream ++ taken buffer ready) (lines ++ l ∷ []) rest
  waited :
      {stream : Bytes} {lines : List Bytes} {buffer : Bytes} (ready : Ready) (rest : Bytes)
      → Session stream lines buffer
      → recv_line buffer ready ≡ (again, rest)
      → Session (stream ++ taken buffer ready) lines rest

recv_line_delivers :
    (buffer : Bytes) (ready : Ready) (l rest : Bytes)
    → recv_line buffer ready ≡ (line l, rest)
    → cut_line (buffer ++ taken buffer ready) ≡ some (l, rest)
unfolding recv_line take_chunk scan taken
recv_line_delivers buffer ready l rest e = elim (Option-cases (cut_line buffer)) [
  | inl nothing ↦ new_line ready nothing (rw (nothing, recv_line) at e)
  | inr ((m, t), found) ↦ ground (arith, found, append-nil buffer)
]
  where
    new_line :
        (ready : Ready)
        → cut_line buffer ≡ none
        → poll_and_read buffer ready ≡ (line l, rest)
        → cut_line (buffer ++ taken buffer ready) ≡ some (l, rest)
    new_line poll_failed n p = cc
    new_line timed_out n p = cc
    new_line recv_failed n p = cc
    new_line (received chunk) n p = ground (arith, n)

recv_line_waits :
    (buffer : Bytes) (ready : Ready) (rest : Bytes)
    → recv_line buffer ready ≡ (again, rest)
    → (cut_line (buffer ++ taken buffer ready) ≡ none) × (rest ≡ buffer ++ taken buffer ready)
unfolding recv_line take_chunk scan taken
recv_line_waits buffer ready rest e = elim (Option-cases (cut_line buffer)) [
  | inl nothing ↦ no_line ready nothing (rw (nothing, recv_line) at e)
  | inr ((m, t), found) ↦ ground (arith, found)
]
  where
    no_line :
        (ready : Ready)
        → cut_line buffer ≡ none
        → poll_and_read buffer ready ≡ (again, rest)
        → (cut_line (buffer ++ taken buffer ready) ≡ none) × (rest ≡ buffer ++ taken buffer ready)
    no_line poll_failed n p = cc
    no_line timed_out n p = ground (arith, n, append-nil buffer)
    no_line recv_failed n p = cc
    no_line (received chunk) n p = ground (arith, n, Option-cases (cut_line (buffer ++ chunk)))

-- what has been read is the lines and then the buffer
goes_on_buffer :
    (stream : Bytes) (lines : List Bytes) (buffer more : Bytes)
    → split_lines stream ≡ (lines ++ (split_lines buffer).0, (split_lines buffer).1)
    → split_lines (stream ++ more)
      ≡ (lines ++ (split_lines (buffer ++ more)).0, (split_lines (buffer ++ more)).1)
goes_on_buffer stream lines buffer more e =
    split_lines-append stream more
    ∙ ap (λ p. goes_on p more) e
    ∙ rw (append_assoc) (ap (λ p. (lines ++ p.0, p.1)) (sym (split_lines-append buffer more)))

-- However the stream is cut into chunks and whatever polls time out in between, the lines delivered
-- so far, followed by the lines that stand in the buffer, are the lines of all that was read, and the
-- text behind the last newline is the same: no byte is lost, repeated or moved to another message.
pub Session-split_lines :
    {stream : Bytes} {lines : List Bytes} {buffer : Bytes}
    → Session stream lines buffer
    → split_lines stream ≡ (lines ++ (split_lines buffer).0, (split_lines buffer).1)
unfolding split_lines
Session-split_lines opened = refl
Session-split_lines (delivered {stream} {lines} {buffer} ready l rest s e) =
    goes_on_buffer stream lines buffer (taken buffer ready) (Session-split_lines s)
    ∙ ap (λ p. (lines ++ p.0, p.1))
        (split_lines-cut_line-some (buffer ++ taken buffer ready) l rest
          (recv_line_delivers buffer ready l rest e))
    ∙ rw (append_assoc lines (l ∷ []) (split_lines rest).0)
Session-split_lines (waited {stream} {lines} {buffer} ready rest s e) =
    goes_on_buffer stream lines buffer (taken buffer ready) (Session-split_lines s)
    ∙ rw (recv_line_waits buffer ready rest e).1
