-- ===== src/Core/Text/Utf8/Repair.antt =====
-- A text of the shape goes through `xSanitizeUtf8` as it is, and the loop takes the whole text.
use a.Base.{
  ℕ, zero, suc, ◌≤◌, ◌≡◌, refl, ap, true, [], ◌∷◌, ◌++◌, arith, Bytes, length, length-append,
}
use native.Mathlib.Nat.{le_refl}
use a.Core.Text.{is_continuation, two, three, four, next_unit, sanitize_loop, sanitize_utf8}
use a.Core.Text.Utf8.{
  IsUtf8Shaped, done, one, two_of, three_of, four_of, next_unit_bounds, sanitize_utf8-IsUtf8Shaped,
}

-- on a unit of the shape a round takes the unit
next_unit-one : (c : ℕ) (s : Bytes) → c ≤ 0x7F → next_unit c s ≡ (c ∷ [], s)
unfolding next_unit
next_unit-one c s h = ground arith

next_unit-two :
    (c d : ℕ) (s : Bytes)
    → 0xC0 ≤ c
    → c ≤ 0xDF
    → is_continuation d ≡ true
    → next_unit c (d ∷ s) ≡ (c ∷ d ∷ [], s)
unfolding next_unit two
next_unit-two c d s l h e = ground arith

next_unit-three :
    (c d e : ℕ) (s : Bytes)
    → 0xE0 ≤ c
    → c ≤ 0xEF
    → is_continuation d ≡ true
    → is_continuation e ≡ true
    → next_unit c (d ∷ e ∷ s) ≡ (c ∷ d ∷ e ∷ [], s)
unfolding next_unit three
next_unit-three c d e s l h p q = ground arith

next_unit-four :
    (c d e f : ℕ) (s : Bytes)
    → 0xF0 ≤ c
    → c ≤ 0xF7
    → is_continuation d ≡ true
    → is_continuation e ≡ true
    → is_continuation f ≡ true
    → next_unit c (d ∷ e ∷ f ∷ s) ≡ (c ∷ d ∷ e ∷ f ∷ [], s)
unfolding next_unit four
next_unit-four c d e f s l h p q r = ground arith

-- so a text of the shape goes through, round by round
sanitize_loop_id :
    {s : Bytes} (fuel : ℕ) → length s ≤ fuel → IsUtf8Shaped s → sanitize_loop fuel s ≡ s
unfolding sanitize_loop
sanitize_loop_id zero h done = refl
sanitize_loop_id zero h (one c _ _) = elim h [ ]
sanitize_loop_id zero h (two_of c d _ _ _ _) = elim h [ ]
sanitize_loop_id zero h (three_of c d e _ _ _ _ _) = elim h [ ]
sanitize_loop_id zero h (four_of c d e f _ _ _ _ _ _) = elim h [ ]
sanitize_loop_id (suc fuel) h done = refl
sanitize_loop_id (suc fuel) h (one {s} c l k) =
    rw (next_unit-one c s l, sanitize_loop_id fuel (omega arith) k)
sanitize_loop_id (suc fuel) h (two_of {s} c d l u p k) =
    rw (next_unit-two c d s l u p, sanitize_loop_id fuel (omega arith) k)
sanitize_loop_id (suc fuel) h (three_of {s} c d e l u p q k) =
    rw (next_unit-three c d e s l u p q, sanitize_loop_id fuel (omega arith) k)
sanitize_loop_id (suc fuel) h (four_of {s} c d e f l u p q r k) =
    rw (next_unit-four c d e f s l u p q r, sanitize_loop_id fuel (omega arith) k)

-- `xSanitizeUtf8` returns a text that is shaped as UTF-8 unchanged, every byte of it.
pub sanitize_utf8_id : (raw : Bytes) → IsUtf8Shaped raw → sanitize_utf8 raw ≡ raw
unfolding sanitize_utf8
sanitize_utf8_id raw h = sanitize_loop_id (length raw) (le_refl (length raw)) h

length-sanitize_loop-le : (fuel : ℕ) (s : Bytes) → length (sanitize_loop fuel s) ≤ length s
unfolding sanitize_loop
length-sanitize_loop-le zero [] = omega arith
length-sanitize_loop-le zero (c ∷ s) = omega arith
length-sanitize_loop-le (suc fuel) [] = omega arith
length-sanitize_loop-le (suc fuel) (c ∷ s) = omega (
  arith,
  next_unit_bounds c s,
  length-append (next_unit c s).0 (sanitize_loop fuel (next_unit c s).1),
  length-sanitize_loop-le fuel (next_unit c s).1,
)

-- Sanitizing never makes a text longer, and a second pass changes nothing.
pub sanitize_utf8_idem :
    (raw : Bytes)
    → (length (sanitize_utf8 raw) ≤ length raw)
      × (sanitize_utf8 (sanitize_utf8 raw) ≡ sanitize_utf8 raw)
sanitize_utf8_idem raw = (
  unfold sanitize_utf8 in length-sanitize_loop-le (length raw) raw,
  sanitize_utf8_id (sanitize_utf8 raw) (sanitize_utf8-IsUtf8Shaped raw),
)

-- more fuel changes nothing
sanitize_loop_fuel :
    (fuel extra : ℕ) (s : Bytes)
    → length s ≤ fuel
    → length s ≤ extra
    → sanitize_loop fuel s ≡ sanitize_loop extra s
unfolding sanitize_loop
sanitize_loop_fuel zero zero [] h k = refl
sanitize_loop_fuel zero (suc extra) [] h k = refl
sanitize_loop_fuel (suc fuel) zero [] h k = refl
sanitize_loop_fuel (suc fuel) (suc extra) [] h k = refl
sanitize_loop_fuel zero extra (c ∷ s) h k = elim h [ ]
sanitize_loop_fuel (suc fuel) zero (c ∷ s) h k = elim k [ ]
sanitize_loop_fuel (suc fuel) (suc extra) (c ∷ s) h k =
    let shorter = (next_unit_bounds c s).0 in
    ap (λ r. (next_unit c s).0 ++ r)
      (sanitize_loop_fuel fuel extra (next_unit c s).1 (omega (arith, shorter))
        (omega (arith, shorter)))

-- The loop of `xSanitizeUtf8` ends only at the end of the text: after a round it goes on with all that the round left.
sanitize_utf8_step :
    (c : ℕ) (s : Bytes)
    → sanitize_utf8 (c ∷ s) ≡ (next_unit c s).0 ++ sanitize_utf8 (next_unit c s).1
unfolding sanitize_utf8
sanitize_utf8_step c s =
    ap (λ r. (next_unit c s).0 ++ r)
      (sanitize_loop_fuel (length s) (length (next_unit c s).1) (next_unit c s).1
        (next_unit_bounds c s).0 (le_refl (length (next_unit c s).1)))
