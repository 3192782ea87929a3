-- ===== src/Core/Text/Utf8/Limit.antt =====
-- `xTruncateForLLM` of src/core/driven_core.cpp, and the repair behind it.
use a.Base.{
  ℕ, ◌+◌, ◌≤◌, ◌≡◌, arith, Bool-cases, inl, inr, leb→le, Bytes, length, length-append, take,
  length-take-le, leb,
}
use a.Core.Text.{sanitize_utf8, truncate, truncation_note}
use a.Core.Text.Utf8.{IsUtf8Shaped, sanitize_utf8-IsUtf8Shaped}
use a.Core.Text.Utf8.Repair.{sanitize_utf8_id, sanitize_utf8_idem}

length-truncate : (m : ℕ) (s : Bytes) → length (truncate m s) ≤ m + length (truncation_note m)
unfolding truncate
length-truncate m s = elim (Bool-cases (leb (length s) m)) [
  | inl e ↦ rw e (omega (arith, leb→le (length s) m e))
  | inr e ↦ rw e (omega (arith, length-take-le m s, length-append (take m s) (truncation_note m)))
]

truncate_short : (m : ℕ) (s : Bytes) → length s ≤ m → truncate m s ≡ s
unfolding truncate
truncate_short m s h = ground arith

-- An output that is truncated and repaired is shaped as UTF-8, and at most `max_bytes` and the note
-- long.
truncate_bounds :
    (max_bytes : ℕ) (output : Bytes)
    → IsUtf8Shaped (sanitize_utf8 (truncate max_bytes output))
      × (length (sanitize_utf8 (truncate max_bytes output))
          ≤ max_bytes + length (truncation_note max_bytes))
truncate_bounds max_bytes output = (
  sanitize_utf8-IsUtf8Shaped (truncate max_bytes output),
  omega
      (arith, (sanitize_utf8_idem (truncate max_bytes output)).0, length-truncate max_bytes output),
)

-- An output within the limit that has the shape of UTF-8 reaches the model as it is.
sanitize_utf8-truncate :
    (max_bytes : ℕ) (output : Bytes)
    → length output ≤ max_bytes
    → IsUtf8Shaped output
    → sanitize_utf8 (truncate max_bytes output) ≡ output
sanitize_utf8-truncate max_bytes output h k =
    rw (truncate_short max_bytes output h) (sanitize_utf8_id output k)
