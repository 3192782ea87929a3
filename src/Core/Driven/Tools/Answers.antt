-- ===== src/Core/Driven/Tools/Answers.antt =====
-- Every pending call gets exactly one tool message, in the order of the calls, and no read of
-- `m_pendingToolCalls` is out of range.
use a.Base.{
  ℕ, suc, ◌+◌, ◌≤◌, ◌≡◌, refl, ap, sym, ◌∙◌, total, List, [], ◌∷◌, ◌++◌, map, Option, some, arith,
  Bytes, codes, append_assoc, append-nil, length, length-append, drop, take, take-append-drop,
  length-take, length-drop, get_elem?,
}
use a.Executor.Graph.{BatchResult}
use a.Core.Driven.State.{PendingToolCall, Message, Env, Core}
use a.Core.Driven.{append_message}
use a.Core.Driven.Tools.{
  safe_output, Progress, tool_message, answer, answer_outputs, answer_batches,
}

-- what the model is shown, output by output
unfoldable pub shown_outputs : BatchResult → ℕ → List Bytes → List Bytes
shown_outputs br i [] = []
shown_outputs br i (o ∷ os) = safe_output br i o ∷ shown_outputs br (suc i) os

unfoldable pub shown_batches : List BatchResult → List Bytes
shown_batches [] = []
shown_batches (br ∷ rest) = shown_outputs br 0 br.outputs ++ shown_batches rest

-- the texts as answers to the calls, one to one
abbrev pub replies : {J : Type 0} → List Bytes → List (PendingToolCall J) → List (Message J)
replies [] ps = []
replies (t ∷ ts) [] = []
replies (t ∷ ts) (p ∷ ps) = tool_message t p ∷ replies ts ps

length-shown_outputs :
    (br : BatchResult) (i : ℕ) (os : List Bytes) → length (shown_outputs br i os) ≡ length os
unfolding shown_outputs
length-shown_outputs br i [] = refl
length-shown_outputs br i (o ∷ os) = omega (arith, length-shown_outputs br (suc i) os)

pub length-shown_batches :
    (brs : List BatchResult)
    → length (shown_batches brs) ≡ total (map (λ br. length br.outputs) brs)
unfolding shown_batches
length-shown_batches [] = refl
length-shown_batches (br ∷ rest) = omega (
  arith,
  length-append (shown_outputs br 0 br.outputs) (shown_batches rest),
  length-shown_outputs br 0 br.outputs,
  length-shown_batches rest,
)

replies-append :
    {J : Type 0} (a b : List Bytes) (ps : List (PendingToolCall J))
    → length a ≤ length ps
    → replies (a ++ b) ps ≡ replies a ps ++ replies b (drop (length a) ps)
replies-append [] b ps h = refl
replies-append (t ∷ a) b [] h = elim h [ ]
replies-append (t ∷ a) b (p ∷ ps) h =
    ap (◌∷◌ (tool_message t p)) (replies-append a b ps (omega arith))

get_elem?-append :
    {A : Type 0} (xs : List A) (y : A) (ys : List A) → get_elem? (xs ++ y ∷ ys) (length xs) ≡ some y
get_elem?-append [] y ys = refl
get_elem?-append (x ∷ xs) y ys = get_elem?-append xs y ys

module _ {J W : Type 0} (env : Env J W) where
  record Kept (c d : Core J W) : Type 0 where
    pending : d.pending ≡ c.pending
    turn_count : d.turn_count ≡ c.turn_count
    messages : d.messages ≡ c.messages

  append_message-Kept :
      (sub : Option ℕ) (role content calls id : Bytes) (c : Core J W)
      → Kept c (append_message env sub role content calls id c)
  unfolding append_message
  append_message-Kept sub role content calls id c = ground arith

  answer-Kept :
      (br : BatchResult) (i : ℕ) (o : Bytes) (p : PendingToolCall J) (pr : Progress J W)
      → ((answer env br i o p pr).core.pending ≡ pr.core.pending)
        × ((answer env br i o p pr).core.turn_count ≡ pr.core.turn_count)
        × ((answer env br i o p pr).core.messages
            ≡ pr.core.messages ++ tool_message (safe_output br i o) p ∷ [])
        × ((answer env br i o p pr).inv_idx ≡ suc pr.inv_idx)
  unfolding answer
  answer-Kept br i o p pr =
      let c = pr.core in
      let safe = safe_output br i o in
      let kept =
        append_message-Kept (some c.sub_session_id) (codes "tool") safe [] p.id
          (record c { messages = c.messages ++ tool_message safe p ∷ [] }) in
      (kept.pending, kept.turn_count, kept.messages, refl)

  -- what the answering of outputs with the texts `shown` leaves behind
  pub record Answered (shown : List Bytes) (todo : List (PendingToolCall J))
      (pr next : Progress J W) : Type 0 where
    pub pending : next.core.pending ≡ pr.core.pending
    pub turn_count : next.core.turn_count ≡ pr.core.turn_count
    pub inv_idx : next.inv_idx ≡ pr.inv_idx + length shown
    pub messages : next.core.messages ≡ pr.core.messages ++ replies shown todo

  answer_outputs-Answered :
      (br : BatchResult) (i : ℕ) (os : List Bytes) (pr : Progress J W)
      (past todo : List (PendingToolCall J))
      → pr.core.pending ≡ past ++ todo
      → pr.inv_idx ≡ length past
      → length os ≤ length todo
      → (next : Progress J W) × (answer_outputs env br i os pr ≡ some next)
        × Answered (shown_outputs br i os) todo pr next
  unfolding answer_outputs shown_outputs
  answer_outputs-Answered br i [] pr past todo e n h = (
    pr,
    refl,
    record { pending = refl; turn_count = refl; inv_idx = omega arith; messages = rw append-nil },
  )
  answer_outputs-Answered br i (o ∷ os) pr past [] e n h = elim h [ ]
  answer_outputs-Answered br i (o ∷ os) pr past (p ∷ todo) e n h =
      let one = answer-Kept br i o p pr in
      let found : get_elem? pr.core.pending pr.inv_idx ≡ some p =
        rw (e, n) (get_elem?-append past p todo) in
      let (next, ends, rest) =
        answer_outputs-Answered br (suc i) os (answer env br i o p pr) (past ++ p ∷ []) todo
          (one.0 ∙ e ∙ sym (append_assoc past (p ∷ []) todo))
          (omega (arith, one.3, length-append past (p ∷ []))) (omega arith) in
      (
        next,
        rw found ends,
        record {
          pending = rest.pending ∙ one.0;
          turn_count = rest.turn_count ∙ one.1;
          inv_idx = omega (arith, rest.inv_idx, one.3);
          messages = rest.messages ∙ rw (one.2, append_assoc);
        },
      )

  pub answer_batches-Answered :
      (brs : List BatchResult) (pr : Progress J W) (past todo : List (PendingToolCall J))
      → pr.core.pending ≡ past ++ todo
      → pr.inv_idx ≡ length past
      → length (shown_batches brs) ≤ length todo
      → (next : Progress J W) × (answer_batches env brs pr ≡ some next)
        × Answered (shown_batches brs) todo pr next
  unfolding answer_batches shown_batches
  answer_batches-Answered [] pr past todo e n h = (
    pr,
    refl,
    record { pending = refl; turn_count = refl; inv_idx = omega arith; messages = rw append-nil },
  )
  answer_batches-Answered (br ∷ rest) pr past todo e n h =
      let shown = shown_outputs br 0 br.outputs in
      let m = length shown in
      let counts = length-append shown (shown_batches rest) in
      let (mid, begins, first) =
        answer_outputs-Answered br 0 br.outputs pr past todo e n
          (omega (arith, counts, length-shown_outputs br 0 br.outputs)) in
      let (next, ends, others) =
        answer_batches-Answered rest mid (past ++ take m todo) (drop m todo)
          (first.pending
            ∙ e
            ∙ ap (λ l. past ++ l) (sym (take-append-drop m todo))
            ∙ sym (append_assoc past (take m todo) (drop m todo)))
          (omega (
            arith,
            first.inv_idx,
            length-append past (take m todo),
            length-take m todo (omega (arith, counts)),
          ))
          (omega (arith, counts, length-drop m todo)) in
      (
        next,
        rw begins ends,
        record {
          pending = others.pending ∙ first.pending;
          turn_count = others.turn_count ∙ first.turn_count;
          inv_idx = omega (arith, others.inv_idx, first.inv_idx, counts);
          messages =
              others.messages
              ∙ rw (first.messages, append_assoc)
                  (ap (λ l. pr.core.messages ++ l)
                    (sym (replies-append shown (shown_batches rest) todo (omega (arith, counts)))));
        },
      )
