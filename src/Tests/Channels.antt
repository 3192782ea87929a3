-- ===== src/Tests/Channels.antt =====
-- Channels at concrete inputs.
use a.Base.{ℕ, ◌≡◌, refl, Bool, true, false, [], arith, ltb}
use a.Shared.Mpsc.{EventFd, Channels, connected, create, copy, destroy}
use a.Shared.Mpsc.Handles.{count, IsCounted, Reaches, Reaches-connected}
use a.Shared.Mpsc.Wakeup
use a.Shared.Mpsc.Wakeup.{
  Channel, IsSound, push_back, write_one, read_all, noticed, Reaches-IsSound,
}

abbrev fd : EventFd Bool
fd = record { signal = λ e. true; clear = λ e. false; ready = λ e. e }

abbrev fresh : Channels ℕ Bool
fresh = record { states = λ c. record { queue = []; event_fd = false; senders = 0 }; handles = [] }

fresh-IsCounted : IsCounted fresh
unfolding IsCounted
fresh-IsCounted c = refl

Reaches-connected_example :
    connected 5 (destroy 0 (copy 0 (create 5 fresh)))
    ≡ ltb 0 (count 5 (destroy 0 (copy 0 (create 5 fresh))).handles)
unfolding create copy
Reaches-connected_example =
    Reaches-connected fd fresh (destroy 0 (copy 0 (create 5 fresh))) 5 fresh-IsCounted
      (Reaches.destroyed 0 (omega arith) (Reaches.copied 0 (Reaches.created 5 Reaches.here)))

abbrev quiet : Channel ℕ Bool
quiet = record {
  queue = [];
  event_fd = false;
  writing = 0;
  draining = false;
  sent = [];
  received = [];
}

Reaches-IsSound_example : IsSound fd (read_all fd (push_back fd 4 quiet))
unfolding push_back noticed
Reaches-IsSound_example =
    Reaches-IsSound fd (λ e. refl) quiet (read_all fd (push_back fd 4 quiet)) (refl, refl)
      (Wakeup.Reaches.read refl (Wakeup.Reaches.pushed 4 Wakeup.Reaches.here))
