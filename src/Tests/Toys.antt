-- ===== src/Tests/Toys.antt =====
-- A JSON library for one shape of object, an operating system that logs, and tools that echo.
use a.Base.{
  ℕ, ◌≡◌, refl, ap, sym, ◌∙◌, Bool, true, false, ◌&&◌, List, [], ◌∷◌, ◌++◌, map, Option, none, some,
  Bytes, codes, ℤ, pos, bytes_eq, bytes_eq_iff, ◌==◌, bytes_key, if◌then◌else◌, arith,
}
use a.Shared.Json.{Json, Laws, Conversions, ConversionLaws, no_newline}
use a.Executor.Runner.{Os}
use a.Skills.Types.{returned, Manager}
use a.Core.Driven.State.{executing_tools, PendingToolCall, Env, Core}

pub data Toy : Type 0 where
  null empty nil : Toy
  text : Bytes → Toy
  int : ℤ → Toy
  bool : Bool → Toy
  field : Bytes → Toy → Toy → Toy
  item : Toy → Toy → Toy

abbrev pub is_object : Toy → Bool
is_object empty = true
is_object (field _ _ _) = true
is_object _ = false

abbrev pub find : Toy → Bytes → Option Toy
find (field k v rest) q = if k == q then some v else find rest q
find _ q = none

abbrev items : Toy → Option (List Toy)
items nil = some []
items (item v rest) = elim (items rest) [ none ↦ none | some vs ↦ some (v ∷ vs) ]
items _ = none

abbrev array : List Toy → Toy
array [] = nil
array (v ∷ vs) = item v (array vs)

abbrev text_of : Toy → Option Bytes
text_of (text s) = some s
text_of _ = none

abbrev int_of : Toy → Option ℤ
int_of (int n) = some n
int_of _ = none

abbrev is_null : Toy → Bool
is_null null = true
is_null _ = false

-- a ping, whose line is the session's name
abbrev ping : Bytes → Toy
ping s = field (codes "session") (text s) (field (codes "type") (text (codes "ping")) empty)

abbrev dump_ping : Bytes → Bytes → Bytes → Bytes → Option Bytes
dump_ping k s k' t =
    if bytes_eq k (codes "session")
      && (bytes_eq k' (codes "type") && (bytes_eq t (codes "ping") && no_newline s))
    then some s
    else none

unfoldable pub dump : Toy → Option Bytes
dump (field k (text s) (field k' (text t) empty)) = dump_ping k s k' t
dump _ = none

abbrev pub toy_json : Json Toy
toy_json = record {
  null = null;
  is_null = is_null;
  object = empty;
  is_object = is_object;
  set = field;
  find = find;
  text = text;
  as_text = text_of;
  int = int;
  as_int = int_of;
  as_items = items;
  array = array;
  at = λ k j. find j k;
  value_text = λ j k s. elim (find j k) [ none ↦ some s | some v ↦ text_of v ];
  value_int = λ j k n. elim (find j k) [ none ↦ some n | some v ↦ int_of v ];
  dump = dump;
  parse = λ s. if no_newline s then some (ping s) else none;
}

null_lem : (j : Toy) → is_null j ≡ true → j ≡ null
null_lem null h = refl
null_lem empty h = cc
null_lem nil h = cc
null_lem (text s) h = cc
null_lem (int n) h = cc
null_lem (bool b) h = cc
null_lem (field k v r) h = cc
null_lem (item v r) h = cc

dump_lem : (j : Toy) (s : Bytes) → dump j ≡ some s → (j ≡ ping s) × (no_newline s ≡ true)
unfolding dump
dump_lem (field k (text s) (field k' (text t) empty)) r h = ground (
  arith,
  bytes_eq_iff k (codes "session"),
  bytes_eq_iff k' (codes "type"),
  bytes_eq_iff t (codes "ping"),
)
dump_lem _ s h = cc

pub toy-Laws : Laws toy_json
toy-Laws = record {
  null_only = null_lem;
  object_is = refl;
  set_is = λ k v j h. refl;
  find-object = λ k. refl;
  find-set = λ k q v j h. refl;
  as_text-text = λ s. refl;
  as_int-int = λ n. refl;
  parse-dump = λ j s h. let (e, n) = dump_lem j s h in rw n (ap some (sym e));
  dump_line = λ j s h. (dump_lem j s h).1;
}

abbrev bool_of : Toy → Option Bool
bool_of (bool b) = some b
bool_of _ = none

abbrev all_texts : List Toy → Option (List Bytes)
all_texts [] = some []
all_texts (text s ∷ vs) = elim (all_texts vs) [ none ↦ none | some ss ↦ some (s ∷ ss) ]
all_texts (_ ∷ vs) = none

abbrev walk : Toy → List Toy
walk j = elim (items j) [ none ↦ [] | some vs ↦ vs ]

abbrev texts : List Bytes → Toy
texts ss = array (map text ss)

abbrev as_texts : Toy → Option (List Bytes)
as_texts j = elim (items j) [ none ↦ none | some vs ↦ all_texts vs ]

abbrev is_bare : Toy → Bool
is_bare empty = true
is_bare nil = true
is_bare null = true
is_bare _ = false

abbrev pub toy_conversions : Conversions Toy
toy_conversions = record {
  bool = bool;
  value_bool = λ j k b. elim (find j k) [ none ↦ some b | some v ↦ bool_of v ];
  as_bool = bool_of;
  walk = walk;
  texts = texts;
  as_texts = as_texts;
  empty = is_bare;
  pretty = λ j. some (codes "{}");
}

items-array : (js : List Toy) → items (array js) ≡ some js
items-array [] = refl
items-array (v ∷ vs) = rw (items-array vs) refl

all_texts-map : (ss : List Bytes) → all_texts (map text ss) ≡ some ss
all_texts-map [] = refl
all_texts-map (s ∷ ss) = rw (all_texts-map ss) refl

texts_lem : (ss : List Bytes) → as_texts (texts ss) ≡ some ss
texts_lem ss =
    ap (λ o. elim o as (λ _. Option (List Bytes)) [ none ↦ none | some vs ↦ all_texts vs ])
      (items-array (map text ss))
    ∙ all_texts-map ss

walk_lem : (js : List Toy) → walk (array js) ≡ js
walk_lem js = ap (λ o. elim o as (λ _. List Toy) [ none ↦ [] | some vs ↦ vs ]) (items-array js)

pub toy-ConversionLaws : ConversionLaws toy_json toy_conversions
toy-ConversionLaws = record {
  value_text_object = λ j k s h. refl;
  value_int_object = λ j k n h. refl;
  value_bool_object = λ j k b h. refl;
  as_bool-bool = λ b. refl;
  as_texts-texts = texts_lem;
  walk-array = walk_lem;
}

-- the world is the list of commands that were run
abbrev pub log_os : Os (List Bytes)
log_os = record {
  spawn = λ c w. (true, w ++ c ∷ []);
  wait = λ w. w;
  run_single = λ c i t w.
      (record { stdout = c; stderr = []; exit_code = pos 0; timed_out = false }, w ++ c ∷ []);
}

abbrev pub quiet_os : {W : Type 0} → Os W
quiet_os = record {
  spawn = λ c w. (true, w);
  wait = λ w. w;
  run_single =
      λ c i t w. (record { stdout = c; stderr = []; exit_code = pos 0; timed_out = false }, w);
}

-- a tool returns the text that it is called with
abbrev pub echo : {W : Type 0} → Manager Bytes W
echo = record { get_tool = λ q w. none; execute = λ inv w. (returned inv.params, w) }

abbrev pub toy_env : Env Bytes ℕ
toy_env = record {
  has_persistence = false;
  append_message = λ db sub seq role content calls id w. w;
  save_system_prompt = λ db prompt schemas w. some w;
  base_prompt = λ persona w. codes "You help.";
  build_schemas = λ skills tools w. ([], []);
  start_request = λ prompt messages schemas w. some w;
  provider_tick = λ w. some ([], w);
  provider_cancel = λ w. w;
  parse_json = λ s. some s;
  text_json = λ s. s;
  dump_calls = λ calls. some (codes "[]");
  os = quiet_os;
  manager = some echo;
}

abbrev pub pending_call : Bytes → Bytes → Bytes → PendingToolCall Bytes
pending_call id name arguments = record { id = id; name = name; arguments = arguments }

-- a core after some turns, with calls that the model has made
abbrev pub core_with : ℕ → List (PendingToolCall Bytes) → Core Bytes ℕ
core_with turns calls = record {
  state = executing_tools;
  shared = record { seq = 1; outside = 0 };
  output_preview_size = 200;
  last_result = [];
  persona_name = [];
  persona_skills = [];
  persona_tools = [];
  session_uuid = [];
  session_db_id = 7;
  sub_session_id = 8;
  turn_count = turns;
  system_prompt_persisted = true;
  messages = [];
  tool_schemas = [];
  dispatch = [];
  accum_text = [];
  pending = calls;
}

-- a change and then a look
abbrev pub two_calls : List (PendingToolCall Bytes)
two_calls =
    pending_call (codes "a") (codes "local_deploy") (codes "deployed")
    ∷ pending_call (codes "b") (codes "system_fs_read") (codes "contents")
    ∷ []
