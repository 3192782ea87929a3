-- ===== src/Llm/Decoder/Chunks.antt =====
-- The bytes of a response in any cut: `feed` in SSE mode (src/llm/response_decoder.cpp).
use a.Base.{
  ℕ, nat_eq, if_elim, Bool, true, false, [], ◌∷◌, ◌++◌, Bytes, ◌≡◌, refl, ap, sym, ◌∙◌, fun_ext,
  arith, Bool-cases, inl, inr,
}
use a.Shared.Json.{Json}
use a.Llm.Decoder.{detect, feed_in, feed_byte, feed_bytes, feed}
use a.Llm.Decoder.State.{sse, Resources, Decoder, Fed, fed, threw, ◌>>=◌, after}
use a.Llm.Decoder.Process.{flush_line}
use a.Llm.Decoder.Process.Modes.{KeepsMode, keeps-then, flush_line-mode}

module _ {J W : Type 0} (json : Json J) (res : Resources W) where
  bind_assoc : (m : Fed W) (f g : Decoder W → Fed W) → ((m >>= f) >>= g) ≡ (m >>= λ d. f d >>= g)
  bind_assoc (fed d) f g = refl
  bind_assoc (threw d) f g = refl

  -- Feeding the bytes of two chunks at once is feeding one and then, unless it throws, the other.
  feed_bytes-append :
      (xs ys : Bytes) (d : Decoder W)
      → feed_bytes json res (xs ++ ys) d ≡ (feed_bytes json res xs d >>= feed_bytes json res ys)
  unfolding feed_bytes
  feed_bytes-append [] ys d = refl
  feed_bytes-append (c ∷ xs) ys d =
      ap (λ f. feed_byte json res c d >>= f) (fun_ext (feed_bytes-append xs ys))
      ∙ sym (bind_assoc (feed_byte json res c d) (feed_bytes json res xs) (feed_bytes json res ys))

  feed_sse :
      (xs : Bytes) (d : Decoder W)
      → d.mode ≡ sse
      → d.is_complete ≡ false
      → feed json res xs d ≡ feed_bytes json res xs d
  unfolding feed feed_bytes detect feed_in
  feed_sse [] d m open_ = ground arith
  feed_sse (c ∷ xs) d m open_ = ground arith

  feed_complete : (xs : Bytes) (d : Decoder W) → d.is_complete ≡ true → feed json res xs d ≡ fed d
  unfolding feed
  feed_complete xs d done = ground arith

  feed_byte-mode : (c : ℕ) (d : Decoder W) → KeepsMode d (feed_byte json res c d)
  unfolding feed_byte
  feed_byte-mode c d =
      let cleared : Decoder W → Fed W = λ e. fed (record e { buffer = [] }) in
      if_elim (KeepsMode d) (nat_eq c 10) (flush_line json res d.buffer d >>= cleared)
        (fed (record d { buffer = d.buffer ++ c ∷ [] }))
        (λ _.
          keeps-then d (flush_line json res d.buffer d) cleared
            (flush_line-mode json res d.buffer d) (λ e. record { same = refl }))
        (λ _. record { same = refl })

  -- no bytes change the mode, once it is known
  feed_bytes-mode : (xs : Bytes) (d : Decoder W) → KeepsMode d (feed_bytes json res xs d)
  unfolding feed_bytes
  feed_bytes-mode [] d = record { same = refl }
  feed_bytes-mode (c ∷ xs) d =
      keeps-then d (feed_byte json res c d) (feed_bytes json res xs) (feed_byte-mode c d)
        (feed_bytes-mode xs)

  abbrev closed : Fed W → Bool
  closed (fed d) = d.is_complete
  closed (threw d) = d.is_complete

  -- A chunk in SSE mode that neither throws nor completes the response leaves the decoder in that mode
  -- and ready for the rest: the next chunk then does what the two would have done as one.
  pub feed-append :
      (xs ys : Bytes) (d d' : Decoder W)
      → d.mode ≡ sse
      → d'.is_complete ≡ false
      → feed json res xs d ≡ fed d'
      → (d'.mode ≡ sse) × (feed json res (xs ++ ys) d ≡ feed json res ys d')
  feed-append xs ys d d' m open_ taken = elim (Bool-cases d.is_complete) [
    | inl done ↦
        let ended : true ≡ false =
          sym done ∙ ap closed (sym (feed_complete xs d done) ∙ taken) ∙ open_ in
        cc
    | inr opened ↦
        let read : feed_bytes json res xs d ≡ fed d' = sym (feed_sse xs d m opened) ∙ taken in
        let m' : d'.mode ≡ sse =
          sym (ap (λ r. Decoder.mode (after r)) read) ∙ (feed_bytes-mode xs d).same ∙ m in
        (
          m',
          feed_sse (xs ++ ys) d m opened
              ∙ feed_bytes-append xs ys d
              ∙ ap (λ r. r >>= feed_bytes json res ys) read
              ∙ sym (feed_sse ys d' m' open_),
        )
  ]
