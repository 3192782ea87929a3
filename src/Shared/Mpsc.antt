-- ===== src/Shared/Mpsc.antt =====
-- The channel of src/shared/mpsc.h. The senders are a table of handles, each on a channel or empty (a
-- default, moved-from or destroyed `Sender`); the channels keep `queue`, the eventfd and `senders`.
pub mod Handles
pub mod Wakeup
use a.Base.{
  ℕ, zero, suc, ◌-◌, Bool, true, false, List, [], ◌∷◌, ◌++◌, Option, none, some, ltb, nat_eq,
  length, if◌then◌else◌,
}

-- `write` of one to the eventfd, `read` of it until it is empty, and its readiness for poll
pub record EventFd (E : Type 0) : Type 0 where
  pub signal : E → E
  pub clear : E → E
  pub ready : E → Bool

pub record State (T E : Type 0) : Type 0 where
  pub queue : List T
  pub event_fd : E
  pub senders : ℕ

-- every channel by its address, and the handles of all senders
pub record Channels (T E : Type 0) : Type 0 where
  pub states : ℕ → State T E
  pub handles : List (Option ℕ)

abbrev pub handle_at : ℕ → List (Option ℕ) → Option ℕ
handle_at i [] = none
handle_at zero (h ∷ hs) = h
handle_at (suc i) (h ∷ hs) = handle_at i hs

abbrev pub set_handle : ℕ → Option ℕ → List (Option ℕ) → List (Option ℕ)
set_handle i h [] = []
set_handle zero h (_ ∷ hs) = h ∷ hs
set_handle (suc i) h (g ∷ hs) = g ∷ set_handle i h hs

module _ {T E : Type 0} where
  abbrev pub at_channel : ℕ → (State T E → State T E) → (ℕ → State T E) → ℕ → State T E
  at_channel c f states k = if nat_eq c k then f (states k) else states k

  -- fetch_add and fetch_sub of one, where the handle has a state
  unfoldable pub acquire : Option ℕ → (ℕ → State T E) → ℕ → State T E
  acquire none states k = states k
  acquire (some c) states k = at_channel c (λ s. record s { senders = suc s.senders }) states k

  unfoldable pub release : Option ℕ → (ℕ → State T E) → ℕ → State T E
  release none states k = states k
  release (some c) states k = at_channel c (λ s. record s { senders = s.senders - 1 }) states k

  -- Sender(const Sender&), and clone
  unfoldable pub copy : ℕ → Channels T E → Channels T E
  copy j s = record {
    states = acquire (handle_at j s.handles) s.states;
    handles = s.handles ++ handle_at j s.handles ∷ [];
  }

  -- operator=(const Sender&)
  pub copy_assign : ℕ → ℕ → Channels T E → Channels T E
  copy_assign i j s =
      let h = handle_at j s.handles in
      if nat_eq i j then s else record {
        states = acquire h (release (handle_at i s.handles) s.states);
        handles = set_handle i h s.handles;
      }

  -- Sender(Sender&&)
  pub move : ℕ → Channels T E → Channels T E
  move j s = record s { handles = set_handle j none s.handles ++ handle_at j s.handles ∷ [] }

  -- operator=(Sender&&)
  pub move_assign : ℕ → ℕ → Channels T E → Channels T E
  move_assign i j s = if nat_eq i j then s else record {
    states = release (handle_at i s.handles) s.states;
    handles = set_handle j none (set_handle i (handle_at j s.handles) s.handles);
  }

  -- ~Sender
  pub destroy : ℕ → Channels T E → Channels T E
  destroy i s = record {
    states = release (handle_at i s.handles) s.states;
    handles = set_handle i none s.handles;
  }

  -- the constructor from a state, which a channel calls for its sender
  unfoldable pub create : ℕ → Channels T E → Channels T E
  create c s = record { states = acquire (some c) s.states; handles = s.handles ++ some c ∷ [] }

  -- send: nothing on an empty handle
  pub send : EventFd E → ℕ → T → Channels T E → Channels T E
  send os i value s = elim (handle_at i s.handles) [
    | none ↦ s
    | some c ↦ record s {
      states =
          at_channel c
            (λ st. record st { queue = st.queue ++ value ∷ []; event_fd = os.signal st.event_fd })
            s.states;
    }
  ]

  -- drain of the receiver of channel `c`
  pub drain : EventFd E → ℕ → Channels T E → List T × Channels T E
  drain os c s = (
    (s.states c).queue,
    record s {
      states =
          at_channel c (λ st. record st { queue = []; event_fd = os.clear st.event_fd }) s.states;
    },
  )

  -- connected of the receiver of channel `c`
  pub connected : ℕ → Channels T E → Bool
  connected c s = ltb 0 (s.states c).senders
