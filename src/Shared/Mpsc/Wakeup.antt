-- ===== src/Shared/Mpsc/Wakeup.antt =====
-- No wakeup is lost: the interleavings of `send` and `drain` of src/shared/mpsc.h. Each has two steps
-- that others can come between: `send` queues its value under the lock and then writes the eventfd,
-- `drain` reads the eventfd and then takes the queue under the lock.
use a.Base.{
  ℕ, suc, ◌-◌, Bool, true, false, List, [], ◌∷◌, ◌++◌, ltb, is_empty, ◌≡◌, ap, sym, ◌∙◌, arith,
  append_assoc, append-nil, ◌||◌,
}
use a.Shared.Mpsc.{EventFd}

pub record Channel (T E : Type 0) : Type 0 where
  pub queue : List T
  pub event_fd : E
  -- the senders between their two steps, and whether the receiver is between its own
  pub writing : ℕ
  pub draining : Bool
  -- what was queued and what was taken, in order
  pub sent : List T
  pub received : List T

module _ {T E : Type 0} (os : EventFd E) where
  unfoldable pub push_back : T → Channel T E → Channel T E
  push_back value c = record c {
    queue = c.queue ++ value ∷ [];
    writing = suc c.writing;
    sent = c.sent ++ value ∷ [];
  }

  unfoldable pub write_one : Channel T E → Channel T E
  write_one c = record c { event_fd = os.signal c.event_fd; writing = c.writing - 1 }

  unfoldable pub read_all : Channel T E → Channel T E
  read_all c = record c { event_fd = os.clear c.event_fd; draining = true }

  unfoldable pub take_queue : Channel T E → Channel T E
  take_queue c = record c { queue = []; draining = false; received = c.received ++ c.queue }

  pub data Reaches (c : Channel T E) : Channel T E → Type 0 where
    here : Reaches c c
    pushed : {d : Channel T E} (value : T) → Reaches c d → Reaches c (push_back value d)
    wrote : {d : Channel T E} → ltb 0 d.writing ≡ true → Reaches c d → Reaches c (write_one d)
    read : {d : Channel T E} → d.draining ≡ false → Reaches c d → Reaches c (read_all d)
    took : {d : Channel T E} → d.draining ≡ true → Reaches c d → Reaches c (take_queue d)

  -- a value in the queue will be noticed: poll is ready, or a step that is due makes it so
  unfoldable pub noticed : Channel T E → Bool
  noticed c = is_empty c.queue || os.ready c.event_fd || ltb 0 c.writing || c.draining

  abbrev pub IsSound : Channel T E → Type 0
  IsSound c = (noticed c ≡ true) × (c.received ++ c.queue ≡ c.sent)

  -- Once a write makes the eventfd ready: in every interleaving of senders and the receiver from a
  -- sound channel (an empty one is), what was taken and what is queued are what was sent, in order;
  -- and while the queue is not empty the eventfd is ready, or a sender is still to write it, or the
  -- receiver is about to take the queue.
  pub Reaches-IsSound :
      (ready-signal : (e : E) → os.ready (os.signal e) ≡ true)
      → (c d : Channel T E) → IsSound c
      → Reaches c d
      → IsSound d
  unfolding noticed push_back write_one read_all take_queue
  Reaches-IsSound ready-signal c d v here = v
  Reaches-IsSound ready-signal c d v (pushed {d = b} value r) =
      let (n, q) = Reaches-IsSound ready-signal c b v r in
      (
        ground arith,
        sym (append_assoc b.received b.queue (value ∷ [])) ∙ ap (λ l. l ++ value ∷ []) q,
      )
  Reaches-IsSound ready-signal c d v (wrote {d = b} due r) =
      let (n, q) = Reaches-IsSound ready-signal c b v r in
      (ground (arith, ready-signal b.event_fd), q)
  Reaches-IsSound ready-signal c d v (read {d = b} idle r) =
      let (n, q) = Reaches-IsSound ready-signal c b v r in (ground arith, q)
  Reaches-IsSound ready-signal c d v (took {d = b} due r) =
      let (n, q) = Reaches-IsSound ready-signal c b v r in
      (ground arith, append-nil (b.received ++ b.queue) ∙ q)
