-- ===== src/Executor/Streams.antt =====
-- StreamRegistry and ToolState (src/executor/stream_registry.cpp, src/executor/tool_state.cpp): maps
-- behind a mutex, each call one step. The functions of a stream are its effects on a world `W`.
use a.Base.{
  ℕ, ℤ, ◌≡◌, Bool, true, false, List, [], ◌∷◌, Option, none, some, Bytes, lookup, insert, erase,
  lookup-insert, lookup-erase, nat_key, bytes_key, ◌==◌, if◌then◌else◌, arith,
}
use a.Shared.Json.{Json}

pub record StreamEntry (W : Type 0) : Type 0 where
  pub stream_id : ℕ
  pub pid : ℤ
  pub send_input : Bytes → W → W
  pub wait : W → ℤ × W
  -- an empty function is `none`
  pub cancel : Option (W → W)

abbrev pub Streams : Type 0 → Type 0
Streams W = List (ℕ × StreamEntry W)

module _ {W : Type 0} where
  pub register_stream : StreamEntry W → Streams W → ℕ × Streams W
  register_stream entry streams = (entry.stream_id, insert entry.stream_id entry streams)

  pub unregister_stream : ℕ → Streams W → Streams W
  unregister_stream stream_id streams = erase stream_id streams

  pub get_stream : ℕ → Streams W → Option (StreamEntry W)
  get_stream stream_id streams = lookup stream_id streams

  pub list_active_streams : Streams W → List ℕ
  list_active_streams [] = []
  list_active_streams ((id, _) ∷ streams) = id ∷ list_active_streams streams

  cancel_each : Streams W → W → W
  cancel_each [] w = w
  cancel_each ((_, entry) ∷ streams) w =
      cancel_each streams (elim entry.cancel [ none ↦ w | some cancel ↦ cancel w ])

  pub cancel_all : Streams W → W → Streams W × W
  unfolding cancel_each
  cancel_all streams w = ([], cancel_each streams w)

  -- A stream is found from its registration, under the id that this returned, until it is
  -- unregistered, whatever else is registered or unregistered in between for other ids.
  pub get_stream_lem :
      (entry : StreamEntry W) (id : ℕ) (streams : Streams W)
      → (get_stream id (register_stream entry streams).1
          ≡ (if entry.stream_id == id then some entry else get_stream id streams))
        × (get_stream id (unregister_stream entry.stream_id streams)
            ≡ (if entry.stream_id == id then none else get_stream id streams))
  unfolding get_stream register_stream unregister_stream
  get_stream_lem entry id streams =
      (lookup-insert entry.stream_id id entry streams, lookup-erase entry.stream_id id streams)

-- a C++ null or the value that is stored
module _ {J : Type 0} (json : Json J) where
  pub set : Bytes → J → List (Bytes × J) → List (Bytes × J)
  set key value state = insert key value state

  pub get : Bytes → List (Bytes × J) → J
  get key state = elim (lookup key state) [ none ↦ json.null | some v ↦ v ]

  pub has : Bytes → List (Bytes × J) → Bool
  has key state = elim (lookup key state) [ none ↦ false | some _ ↦ true ]

  pub remove : Bytes → List (Bytes × J) → List (Bytes × J)
  remove key state = erase key state

  pub clear : List (Bytes × J) → List (Bytes × J)
  clear state = []

  -- The tool state is a map: a key has the value that was set last, and none after its removal;
  -- other keys are as they were.
  pub get_lem :
      (key q : Bytes) (value : J) (state : List (Bytes × J))
      → (get q (set key value state) ≡ (if key == q then value else get q state))
        × (has q (set key value state) ≡ (if key == q then true else has q state))
        × (get q (remove key state) ≡ (if key == q then json.null else get q state))
        × (has q (remove key state) ≡ (if key == q then false else has q state))
  unfolding get has set remove
  get_lem key q value state =
      ground (arith, lookup-insert key q value state, lookup-erase key q state)
