-- ===== src/Core/Driven/State.antt =====
-- The state of DrivenCore, and what it calls outside.
use a.Base.{ℕ, Bool, List, Option, none, some, Bytes, ◌≡◌, refl, ◌⊎◌, inl, inr}
use a.Shared.Events.{Event}
use a.Skills.Types.{Manager}
use a.Executor.Runner.{Os}

pub data CoreState : Type 0 where
  idle awaiting_llm executing_tools : CoreState

pub record ToolCall (J : Type 0) : Type 0 where
  pub id : Bytes
  pub name : Bytes
  pub arguments : J

pub record PendingToolCall (J : Type 0) : Type 0 where
  pub id : Bytes
  pub name : Bytes
  pub arguments : J

pub record Message (J : Type 0) : Type 0 where
  pub role : Bytes
  pub content : Bytes
  pub tool_call_id : Bytes
  pub tool_calls : List (ToolCall J)

pub record ToolSchema (J : Type 0) : Type 0 where
  pub name : Bytes
  pub description : Bytes
  pub input_schema : J

-- The counter `m_seq` is shared with the skill manager, which gets its address with every call.
pub record Shared (W : Type 0) : Type 0 where
  pub seq : ℕ
  pub outside : W

-- The end of a call: by a return, by an exception, which nothing catches below the end of the thread,
-- or by a read out of range.
pub data Ran (A : Type 0) : Type 0 where
  ended : A → Ran A
  raised out_of_range : Ran A

abbrev pub and_then : {A B : Type 0} → Ran A → (A → Ran B) → Ran B
and_then (ended a) f = f a
and_then raised f = raised
and_then out_of_range f = out_of_range

-- a value, or an exception
abbrev pub or_raise : {A B : Type 0} → Option A → (A → Ran B) → Ran B
or_raise none f = raised
or_raise (some a) f = f a

-- a call that reads nothing out of range, gives what has the property if it returns, and throws only
-- where `E` is so
abbrev pub Holds : {A : Type 0} → Type 0 → (A → Type 0) → Ran A → Type 0
Holds E P (ended a) = P a
Holds E P raised = E
Holds E P out_of_range = ⊥

pub Holds-and_then :
    {A B : Type 0} (E : Type 0) (P : A → Type 0) (Q : B → Type 0) (m : Ran A) (f : A → Ran B)
    → Holds E P m
    → ((a : A) → P a → Holds E Q (f a))
    → Holds E Q (and_then m f)
Holds-and_then E P Q (ended a) f h k = k a h
Holds-and_then E P Q raised f h k = h
Holds-and_then E P Q out_of_range f h k = elim h [ ]

pub Holds-map :
    {A : Type 0} (E : Type 0) (P Q : A → Type 0) (m : Ran A)
    → Holds E P m
    → ((a : A) → P a → Q a)
    → Holds E Q m
Holds-map E P Q (ended a) h k = k a h
Holds-map E P Q raised h k = h
Holds-map E P Q out_of_range h k = elim h [ ]

pub Holds-or_raise :
    {A B : Type 0} (E : Type 0) (Q : B → Type 0) (m : Option A) (f : A → Ran B)
    → (m ≡ none → E)
    → ((a : A) → Holds E Q (f a))
    → Holds E Q (or_raise m f)
Holds-or_raise E Q none f e k = e refl
Holds-or_raise E Q (some a) f e k = k a

pub Holds-cases :
    {A : Type 0} (E : Type 0) (P : A → Type 0) (m : Ran A)
    → Holds E P m
    → ((a : A) × (m ≡ ended a) × P a) ⊎ ((m ≡ raised) × E)
Holds-cases E P (ended a) h = inl (a, refl, h)
Holds-cases E P raised h = inr (refl, h)
Holds-cases E P out_of_range h = elim h [ ]

-- `append_message` takes the session's row, the sub-session, the sequence number, the role, the text,
-- the tool calls as text, and the id of the call that is answered; the other columns are empty.
-- `build_schemas` is xBuildToolSchemas: the schemas, and the dispatch table. `save_system_prompt` dumps
-- the schemas, `start_request` the request, `provider_tick` decodes what arrived, and `dump_calls` is
-- the dump of the calls: `none` where they throw.
pub record Env (J W : Type 0) : Type 0 where
  pub has_persistence : Bool
  pub append_message : ℕ → Option ℕ → ℕ → Bytes → Bytes → Bytes → Bytes → W → W
  pub save_system_prompt : ℕ → Bytes → List (ToolSchema J) → W → Option W
  pub base_prompt : Bytes → W → Bytes
  pub build_schemas : List Bytes → List Bytes → W → List (ToolSchema J) × List (Bytes × Bytes)
  pub start_request : Bytes → List (Message J) → List (ToolSchema J) → W → Option W
  pub provider_tick : W → Option (List Event × W)
  pub provider_cancel : W → W
  pub parse_json : Bytes → Option J
  pub text_json : Bytes → J
  pub dump_calls : List (PendingToolCall J) → Option Bytes
  pub os : Os (Shared W)
  pub manager : Option (Manager J (Shared W))

-- something outside throws: a dump of the schemas, of the request or of the calls, or the decoding of
-- what the provider got
pub data Throws {J W : Type 0} (env : Env J W) : Type 0 where
  schemas :
      (db : ℕ) (prompt : Bytes) (tools : List (ToolSchema J)) (w : W)
      → env.save_system_prompt db prompt tools w ≡ none
      → Throws env
  request :
      (prompt : Bytes) (messages : List (Message J)) (tools : List (ToolSchema J)) (w : W)
      → env.start_request prompt messages tools w ≡ none
      → Throws env
  response : (w : W) → env.provider_tick w ≡ none → Throws env
  calls : (pending : List (PendingToolCall J)) → env.dump_calls pending ≡ none → Throws env

pub record Core (J W : Type 0) : Type 0 where
  pub state : CoreState
  pub shared : Shared W
  pub output_preview_size : ℕ
  pub last_result : Bytes
  pub persona_name : Bytes
  pub persona_skills : List Bytes
  pub persona_tools : List Bytes
  pub session_uuid : Bytes
  pub session_db_id : ℕ
  pub sub_session_id : ℕ
  pub turn_count : ℕ
  pub system_prompt_persisted : Bool
  pub messages : List (Message J)
  pub tool_schemas : List (ToolSchema J)
  pub dispatch : List (Bytes × Bytes)
  pub accum_text : Bytes
  pub pending : List (PendingToolCall J)
