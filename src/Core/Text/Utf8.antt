-- ===== src/Core/Text/Utf8.antt =====
-- What `xSanitizeUtf8` of src/core/driven_core.cpp returns is shaped as UTF-8.
pub mod Repair
pub mod Limit
use a.Base.{
  ℕ, zero, suc, ◌+◌, ◌≤◌, ◌≡◌, refl, ap, true, ◌&&◌, [], ◌∷◌, ◌++◌, arith, if_elim, Bool-cases, inl,
  inr, leb→le, Bytes, length, length-append, take, length-take-le, leb,
}
use native.Mathlib.Nat.{le_refl}
use a.Core.Text.{
  is_continuation, question, two, three, four, next_unit, sanitize_loop, sanitize_utf8, truncate,
  truncation_note,
}

-- Every lead byte is followed by the continuation bytes that it announces. Over-long forms,
-- surrogates and code points past the last one have that shape too.
pub data IsUtf8Shaped : Bytes → Type 0 where
  done : IsUtf8Shaped []
  one : {s : Bytes} (c : ℕ) → c ≤ 0x7F → IsUtf8Shaped s → IsUtf8Shaped (c ∷ s)
  two_of :
      {s : Bytes} (c d : ℕ)
      → 0xC0 ≤ c
      → c ≤ 0xDF
      → is_continuation d ≡ true
      → IsUtf8Shaped s
      → IsUtf8Shaped (c ∷ d ∷ s)
  three_of :
      {s : Bytes} (c d e : ℕ)
      → 0xE0 ≤ c
      → c ≤ 0xEF
      → is_continuation d ≡ true
      → is_continuation e ≡ true
      → IsUtf8Shaped s
      → IsUtf8Shaped (c ∷ d ∷ e ∷ s)
  four_of :
      {s : Bytes} (c d e f : ℕ)
      → 0xF0 ≤ c
      → c ≤ 0xF7
      → is_continuation d ≡ true
      → is_continuation e ≡ true
      → is_continuation f ≡ true
      → IsUtf8Shaped s
      → IsUtf8Shaped (c ∷ d ∷ e ∷ f ∷ s)

question-IsUtf8Shaped : (s : Bytes) → IsUtf8Shaped s → IsUtf8Shaped (question ++ s)
question-IsUtf8Shaped s h = one b'?' (omega arith) h

-- what a round appends keeps the shape of the text behind it
abbrev Appends : Bytes × Bytes → Type 0
Appends u = (t : Bytes) → IsUtf8Shaped t → IsUtf8Shaped (u.0 ++ t)

two-Appends : (c : ℕ) (s : Bytes) → 0xC0 ≤ c → c ≤ 0xDF → Appends (two c s)
unfolding two
two-Appends c [] l h = question-IsUtf8Shaped
two-Appends c (d ∷ s) l h =
    if_elim Appends (is_continuation d) (c ∷ d ∷ [], s) (question, d ∷ s)
      (λ e t k. two_of c d l h e k) (λ _. question-IsUtf8Shaped)

three-Appends : (c : ℕ) (s : Bytes) → 0xE0 ≤ c → c ≤ 0xEF → Appends (three c s)
unfolding three
three-Appends c [] l h = question-IsUtf8Shaped
three-Appends c (d ∷ []) l h = question-IsUtf8Shaped
three-Appends c (d ∷ e ∷ s) l h =
    if_elim Appends (is_continuation d && is_continuation e) (c ∷ d ∷ e ∷ [], s)
      (question, d ∷ e ∷ s) (λ b t k. three_of c d e l h (ground arith) (ground arith) k)
      (λ _. question-IsUtf8Shaped)

four-Appends : (c : ℕ) (s : Bytes) → 0xF0 ≤ c → c ≤ 0xF7 → Appends (four c s)
unfolding four
four-Appends c [] l h = question-IsUtf8Shaped
four-Appends c (d ∷ []) l h = question-IsUtf8Shaped
four-Appends c (d ∷ e ∷ []) l h = question-IsUtf8Shaped
four-Appends c (d ∷ e ∷ f ∷ s) l h =
    if_elim Appends (is_continuation d && (is_continuation e && is_continuation f))
      (c ∷ d ∷ e ∷ f ∷ [], s) (question, d ∷ e ∷ f ∷ s)
      (λ b t k. four_of c d e f l h (ground arith) (ground arith) (ground arith) k)
      (λ _. question-IsUtf8Shaped)

next_unit-Appends : (c : ℕ) (s : Bytes) → Appends (next_unit c s)
unfolding next_unit
next_unit-Appends c s =
    if_elim Appends (leb c 0x7F) _ _ (λ b t k. one c (leb→le c 0x7F b) k)
      (λ _.
        if_elim Appends (leb 0xC0 c && leb c 0xDF) _ _
          (λ b. two-Appends c s (ground arith) (ground arith))
          (λ _.
            if_elim Appends (leb 0xE0 c && leb c 0xEF) _ _
              (λ b. three-Appends c s (ground arith) (ground arith))
              (λ _.
                if_elim Appends (leb 0xF0 c && leb c 0xF7) _ _
                  (λ b. four-Appends c s (ground arith) (ground arith))
                  (λ _. question-IsUtf8Shaped))))

-- Each round leaves fewer bytes, and appends no more than it takes.
next_unit_bounds :
    (c : ℕ) (s : Bytes)
    → (length (next_unit c s).1 ≤ length s)
      × (length (next_unit c s).0 + length (next_unit c s).1 ≤ suc (length s))
unfolding next_unit two three four
next_unit_bounds c [] = ground arith
next_unit_bounds c (d ∷ []) = ground arith
next_unit_bounds c (d ∷ e ∷ []) = ground arith
next_unit_bounds c (d ∷ e ∷ f ∷ s) = ground arith

sanitize_loop-IsUtf8Shaped : (fuel : ℕ) (s : Bytes) → IsUtf8Shaped (sanitize_loop fuel s)
unfolding sanitize_loop
sanitize_loop-IsUtf8Shaped zero [] = done
sanitize_loop-IsUtf8Shaped zero (c ∷ s) = done
sanitize_loop-IsUtf8Shaped (suc fuel) [] = done
sanitize_loop-IsUtf8Shaped (suc fuel) (c ∷ s) =
    next_unit-Appends c s _ (sanitize_loop-IsUtf8Shaped fuel (next_unit c s).1)

-- What `xSanitizeUtf8` returns is shaped as UTF-8, whatever the bytes.
pub sanitize_utf8-IsUtf8Shaped : (raw : Bytes) → IsUtf8Shaped (sanitize_utf8 raw)
unfolding sanitize_utf8
sanitize_utf8-IsUtf8Shaped raw = sanitize_loop-IsUtf8Shaped (length raw) raw
