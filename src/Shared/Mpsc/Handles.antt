-- ===== src/Shared/Mpsc/Handles.antt =====
-- `senders` of a channel of src/shared/mpsc.h counts the handles on it.
use a.Base.{
  ℕ, zero, suc, ◌+◌, ◌-◌, ◌<◌, false, List, [], ◌∷◌, ◌++◌, Option, none, some, ltb, nat_eq, length,
  if◌then◌else◌, ◌≡◌, refl, ap, arith, nat_eq_iff, Bool-cases, inl, inr,
}
use a.Shared.Mpsc.{
  EventFd, State, Channels, send, drain, handle_at, set_handle, acquire, release, copy, copy_assign,
  move, move_assign, destroy, create, connected,
}

-- one where the handle is on the channel
abbrev pub on : ℕ → Option ℕ → ℕ
on c none = 0
on c (some k) = if nat_eq k c then 1 else 0

abbrev pub count : ℕ → List (Option ℕ) → ℕ
count c [] = 0
count c (h ∷ hs) = on c h + count c hs

count-append : (c : ℕ) (hs gs : List (Option ℕ)) → count c (hs ++ gs) ≡ count c hs + count c gs
count-append c [] gs = omega arith
count-append c (h ∷ hs) gs = ground (arith, count-append c hs gs)

count-set_handle :
    (c i : ℕ) (h : Option ℕ) (hs : List (Option ℕ))
    → i < length hs
    → count c (set_handle i h hs) + on c (handle_at i hs) ≡ count c hs + on c h
count-set_handle c i h [] b = ground arith
count-set_handle c zero h (g ∷ hs) b = ground arith
count-set_handle c (suc i) h (g ∷ hs) b = ground (arith, count-set_handle c i h hs (omega arith))

length-set_handle :
    (i : ℕ) (h : Option ℕ) (hs : List (Option ℕ)) → length (set_handle i h hs) ≡ length hs
length-set_handle i h [] = refl
length-set_handle zero h (g ∷ hs) = refl
length-set_handle (suc i) h (g ∷ hs) = ap suc (length-set_handle i h hs)

handle_at-set_handle :
    (i j : ℕ) (h : Option ℕ) (hs : List (Option ℕ))
    → nat_eq i j ≡ false
    → handle_at j (set_handle i h hs) ≡ handle_at j hs
handle_at-set_handle i j h [] d = refl
handle_at-set_handle zero zero h (g ∷ hs) d = ground arith
handle_at-set_handle zero (suc j) h (g ∷ hs) d = refl
handle_at-set_handle (suc i) zero h (g ∷ hs) d = refl
handle_at-set_handle (suc i) (suc j) h (g ∷ hs) d =
    handle_at-set_handle i j h hs (ground (arith, nat_eq_iff i j, nat_eq_iff (suc i) (suc j)))

module _ {T E : Type 0} where
  senders-acquire :
      (h : Option ℕ) (st : ℕ → State T E) (c : ℕ)
      → (acquire h st c).senders ≡ (st c).senders + on c h
  unfolding acquire
  senders-acquire none st c = omega arith
  senders-acquire (some k) st c = ground arith

  senders-release :
      (h : Option ℕ) (st : ℕ → State T E) (c : ℕ)
      → (release h st c).senders ≡ (st c).senders - on c h
  unfolding release
  senders-release none st c = omega arith
  senders-release (some k) st c = ground arith

  -- the count of each channel is the number of handles on it
  unfoldable pub IsCounted : Channels T E → Type 0
  IsCounted s = (c : ℕ) → (s.states c).senders ≡ count c s.handles

  copy-IsCounted : (j : ℕ) (s : Channels T E) → IsCounted s → IsCounted (copy j s)
  unfolding IsCounted copy
  copy-IsCounted j s v c =
      let h = handle_at j s.handles in
      omega (arith, v c, senders-acquire h s.states c, count-append c s.handles (h ∷ []))

  create-IsCounted : (c : ℕ) (s : Channels T E) → IsCounted s → IsCounted (create c s)
  unfolding IsCounted create
  create-IsCounted k s v c =
      omega
        (arith, v c, senders-acquire (some k) s.states c, count-append c s.handles (some k ∷ []))

  destroy-IsCounted :
      (i : ℕ) (s : Channels T E) → i < length s.handles → IsCounted s → IsCounted (destroy i s)
  unfolding IsCounted destroy
  destroy-IsCounted i s b v c =
      let h = handle_at i s.handles in
      omega (arith, v c, senders-release h s.states c, count-set_handle c i none s.handles b)

  move-IsCounted :
      (j : ℕ) (s : Channels T E) → j < length s.handles → IsCounted s → IsCounted (move j s)
  unfolding IsCounted move
  move-IsCounted j s b v c =
      let h = handle_at j s.handles in
      omega (
        arith,
        v c,
        count-set_handle c j none s.handles b,
        count-append c (set_handle j none s.handles) (h ∷ []),
      )

  copy_assign-IsCounted :
      (i j : ℕ) (s : Channels T E)
      → i < length s.handles
      → IsCounted s
      → IsCounted (copy_assign i j s)
  unfolding IsCounted copy_assign
  copy_assign-IsCounted i j s b v c =
      let h = handle_at j s.handles in
      let old = handle_at i s.handles in
      ground (
        arith,
        v c,
        senders-release old s.states c,
        senders-acquire h (release old s.states) c,
        count-set_handle c i h s.handles b,
        count-set_handle c i none s.handles b,
      )

  move_assign-IsCounted :
      (i j : ℕ) (s : Channels T E)
      → i < length s.handles
      → j < length s.handles
      → IsCounted s
      → IsCounted (move_assign i j s)
  unfolding IsCounted move_assign
  move_assign-IsCounted i j s bi bj v c = elim (Bool-cases (nat_eq i j)) [
    | inl same ↦ ground (arith, v c)
    | inr apart ↦
        let h = handle_at j s.handles in
        let old = handle_at i s.handles in
        let moved = set_handle i h s.handles in
        ground (
          arith,
          v c,
          senders-release old s.states c,
          handle_at-set_handle i j h s.handles apart,
          count-set_handle c i h s.handles bi,
          count-set_handle c i none s.handles bi,
          count-set_handle c j none moved (omega (arith, length-set_handle i h s.handles)),
        )
  ]

  send-IsCounted :
      (os : EventFd E) (i : ℕ) (value : T) (s : Channels T E)
      → IsCounted s
      → IsCounted (send os i value s)
  unfolding IsCounted send
  send-IsCounted os i value s v c = ground (arith, v c)

  drain-IsCounted :
      (os : EventFd E) (k : ℕ) (s : Channels T E) → IsCounted s → IsCounted (drain os k s).1
  unfolding IsCounted drain
  drain-IsCounted os k s v c = ground (arith, v c)

  -- what the senders and the receivers of a program do from a state
  pub data Reaches (os : EventFd E) (s : Channels T E) : Channels T E → Type 0 where
    here : Reaches os s s
    created : {t : Channels T E} (c : ℕ) → Reaches os s t → Reaches os s (create c t)
    copied : {t : Channels T E} (j : ℕ) → Reaches os s t → Reaches os s (copy j t)
    moved :
        {t : Channels T E} (j : ℕ) → j < length t.handles → Reaches os s t → Reaches os s (move j t)
    assigned :
        {t : Channels T E} (i j : ℕ)
        → i < length t.handles
        → Reaches os s t
        → Reaches os s (copy_assign i j t)
    move_assigned :
        {t : Channels T E} (i j : ℕ)
        → i < length t.handles
        → j < length t.handles
        → Reaches os s t
        → Reaches os s (move_assign i j t)
    destroyed :
        {t : Channels T E} (i : ℕ)
        → i < length t.handles
        → Reaches os s t
        → Reaches os s (destroy i t)
    sent :
        {t : Channels T E} (i : ℕ) (value : T) → Reaches os s t → Reaches os s (send os i value t)
    drained : {t : Channels T E} (c : ℕ) → Reaches os s t → Reaches os s (drain os c t).1

  reaches-IsCounted :
      {os : EventFd E} {s t : Channels T E} → IsCounted s → Reaches os s t → IsCounted t
  reaches-IsCounted v here = v
  reaches-IsCounted v (created c r) = create-IsCounted c _ (reaches-IsCounted v r)
  reaches-IsCounted v (copied j r) = copy-IsCounted j _ (reaches-IsCounted v r)
  reaches-IsCounted v (moved j b r) = move-IsCounted j _ b (reaches-IsCounted v r)
  reaches-IsCounted v (assigned i j b r) = copy_assign-IsCounted i j _ b (reaches-IsCounted v r)
  reaches-IsCounted v (move_assigned i j b b' r) =
      move_assign-IsCounted i j _ b b' (reaches-IsCounted v r)
  reaches-IsCounted v (destroyed i b r) = destroy-IsCounted i _ b (reaches-IsCounted v r)
  reaches-IsCounted {os = os} v (sent i value r) =
      send-IsCounted os i value _ (reaches-IsCounted v r)
  reaches-IsCounted {os = os} v (drained c r) = drain-IsCounted os c _ (reaches-IsCounted v r)

  -- From a state whose counts are right, whatever the program does with its senders (make, copy,
  -- move, assign either way also to themselves, destroy, send) and receivers, a receiver is
  -- connected exactly as long as some sender's handle is on its channel.
  pub Reaches-connected :
      (os : EventFd E) (s t : Channels T E) (c : ℕ)
      → IsCounted s
      → Reaches os s t
      → connected c t ≡ ltb 0 (count c t.handles)
  unfolding connected IsCounted
  Reaches-connected os s t c v r = ap (ltb 0) (reaches-IsCounted v r c)
