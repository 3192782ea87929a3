-- ===== src/Ipc/Message/RoundTrip.antt =====
-- A message that is sent arrives as it was, on one line.
use a.Base.{
  zero, suc, inl, inr, ◌≡◌, refl, ap, sym, ◌∙◌, Bool, true, false, List, [], ◌∷◌, ◌++◌, Option,
  none, some, arith, Bytes, codes, ℤ, pos, negsuc, is_zero, if◌then◌else◌, bytes_key, bytes_eq,
  ◌==◌, Bool-cases, Option-cases, Option-cases,
}
use a.Shared.Json.{Json, Laws, no_newline}
use a.Ipc.Message.{
  Message, ok, text_field, int_field, json_field, fields, assign, serialize, read_text, read_int,
  read_json, read_message, read_typed, deserialize,
}

-- an assignment, made or not, to the key that is looked for, or to another one
abbrev pub over : {J : Type 0} → Bool → Option J → Option J → Option J
over true (some v) before = some v
over true none before = before
over false o before = before

-- the last assignment to a key counts
abbrev pub field_at : {J : Type 0} → Bytes → List (Bytes × Option J) → Option J → Option J
field_at q [] before = before
field_at q ((k, o) ∷ rest) before = field_at q rest (over (k == q) o before)

over-none : {J : Type 0} (b : Bool) (before : Option J) → over b none before ≡ before
over-none true before = refl
over-none false before = refl

over-some :
    {J : Type 0} (b : Bool) (v : J) (before : Option J)
    → (if b then some v else before) ≡ over b (some v) before
over-some true v before = refl
over-some false v before = refl

module _ {J : Type 0} (json : Json J) (laws : Laws json) where
  pub find-assign :
      (q : Bytes) (fs : List (Bytes × Option J)) (j : J)
      → json.is_object j ≡ true
      → json.find (assign json fs j) q ≡ field_at q fs (json.find j q)
  unfolding assign
  find-assign q [] j h = refl
  find-assign q ((k, none) ∷ rest) j h =
      find-assign q rest j h ∙ ap (field_at q rest) (sym (over-none (k == q) (json.find j q)))
  find-assign q ((k, some v) ∷ rest) j h =
      find-assign q rest (json.set k v j) (laws.set_is k v j h)
      ∙ ap (field_at q rest) (laws.find-set k q v j h ∙ over-some (k == q) v (json.find j q))

  pub assign_is_object :
      (fs : List (Bytes × Option J)) (j : J)
      → json.is_object j ≡ true
      → json.is_object (assign json fs j) ≡ true
  unfolding assign
  assign_is_object [] j h = h
  assign_is_object ((k, none) ∷ rest) j h = assign_is_object rest j h
  assign_is_object ((k, some v) ∷ rest) j h =
      assign_is_object rest (json.set k v j) (laws.set_is k v j h)

  abbrev sent : Message J → J
  sent m = assign json (fields json m) json.object

  find-sent : (q : Bytes) (m : Message J) → json.find (sent m) q ≡ field_at q (fields json m) none
  find-sent q m =
      find-assign q (fields json m) json.object laws.object_is
      ∙ ap (field_at q (fields json m)) (laws.find-object q)

  text_back :
      (k s : Bytes) (j : J)
      → json.find j k ≡ over true (text_field json s) none
      → read_text json j k ≡ s
  unfolding read_text text_field
  text_back k [] j e = rw (e, read_text)
  text_back k (c ∷ s) j e = rw (e, read_text, laws.as_text-text)

  int_back :
      (k : Bytes) (n : ℤ) (j : J)
      → json.find j k ≡ over true (int_field json n) none
      → read_int json j k ≡ n
  unfolding read_int int_field is_zero
  int_back k (pos zero) j e = rw (e, read_int)
  int_back k (pos (suc n)) j e =
      let there : json.find j k ≡ some (json.int (pos (suc n))) = ground (arith, e) in
      rw (there, read_int, laws.as_int-int)
  int_back k (negsuc n) j e = rw (e, read_int, laws.as_int-int)

  json_back :
      (k : Bytes) (v j : J)
      → json.find j k ≡ over true (json_field json v) none
      → read_json json j k ≡ v
  unfolding read_json json_field
  json_back k v j e = elim (Bool-cases (json.is_null v)) [
    | inl n ↦
        let gone : json.find j k ≡ none = e ∙ rw n in
        rw (gone, read_json) (sym (laws.null_only v n))
    | inr n ↦ let there : json.find j k ≡ some v = e ∙ rw n in rw (there, read_json)
  ]

  read_message-sent : (m : Message J) → read_message json m.message_type (sent m) ≡ m
  unfolding read_message fields bytes_eq
  read_message-sent m = λ i. record {
    message_type = m.message_type;
    pid = int_back (codes "pid") m.pid (sent m) (find-sent (codes "pid") m) i;
    session_uuid =
        text_back (codes "session") m.session_uuid (sent m) (find-sent (codes "session") m) i;
    workdir = text_back (codes "wd") m.workdir (sent m) (find-sent (codes "wd") m) i;
    hostname = text_back (codes "hostname") m.hostname (sent m) (find-sent (codes "hostname") m) i;
    agents = json_back (codes "agents") m.agents (sent m) (find-sent (codes "agents") m) i;
    status = text_back (codes "status") m.status (sent m) (find-sent (codes "status") m) i;
    error = text_back (codes "error") m.error (sent m) (find-sent (codes "error") m) i;
    reason = text_back (codes "reason") m.reason (sent m) (find-sent (codes "reason") m) i;
    tool_call_id =
        text_back (codes "toolCallId") m.tool_call_id (sent m) (find-sent (codes "toolCallId") m) i;
    prompt = text_back (codes "prompt") m.prompt (sent m) (find-sent (codes "prompt") m) i;
    stream_id = int_back (codes "streamId") m.stream_id (sent m) (find-sent (codes "streamId") m) i;
    chunk_seq = int_back (codes "chunkSeq") m.chunk_seq (sent m) (find-sent (codes "chunkSeq") m) i;
    chunk_direction =
        text_back (codes "chunkDirection") m.chunk_direction (sent m)
          (find-sent (codes "chunkDirection") m) i;
    chunk_data =
        text_back (codes "chunkData") m.chunk_data (sent m) (find-sent (codes "chunkData") m) i;
    terminal_id =
        text_back (codes "terminalId") m.terminal_id (sent m) (find-sent (codes "terminalId") m) i;
    context_type =
        text_back (codes "contextType") m.context_type (sent m) (find-sent (codes "contextType") m)
          i;
    context_id =
        text_back (codes "contextId") m.context_id (sent m) (find-sent (codes "contextId") m) i;
    cwd = text_back (codes "cwd") m.cwd (sent m) (find-sent (codes "cwd") m) i;
  }

  read_typed-sent : (m : Message J) → read_typed json (sent m) ≡ ok m
  unfolding read_typed fields bytes_eq
  read_typed-sent m =
      rw (find-sent (codes "type") m, read_typed, laws.as_text-text) (ap ok (read_message-sent m))

  deserialize-dump :
      (m : Message J) (line : Bytes) → json.dump (sent m) ≡ some line → deserialize json line ≡ ok m
  unfolding deserialize
  deserialize-dump m line e = rw (laws.parse-dump (sent m) line e, deserialize) (read_typed-sent m)

  -- Where `serialize` does not throw, what it writes is one line and its newline, and `deserialize`
  -- reads that line back as the message, every field of it.
  pub deserialize-serialize :
      (m : Message J) (wire : Bytes)
      → serialize json m ≡ some wire
      → (line : Bytes) × (wire ≡ line ++ codes "\n")
        × (no_newline line ≡ true)
        × (deserialize json line ≡ ok m)
  unfolding serialize
  deserialize-serialize m wire e = elim (Option-cases (json.dump (sent m))) [
    | inl none_dumped ↦ cc
    | inr (line, dumped) ↦ (
      line,
      ground (arith, dumped),
      laws.dump_line (sent m) line dumped,
      deserialize-dump m line dumped,
    )
  ]
