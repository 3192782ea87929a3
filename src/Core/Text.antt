-- ===== src/Core/Text.antt =====
-- `xSanitizeUtf8` and `xTruncateForLLM` of src/core/driven_core.cpp, over the bytes of a text.
pub mod Utf8
use Prim.Native.Nat.{bit_and}
use a.Base.{
  ℕ, zero, suc, Bool, true, false, ◌&&◌, List, [], ◌∷◌, ◌++◌, Bytes, codes, show_nat, nat_eq, leb,
  length, take, if◌then◌else◌,
}

-- (c & 0xC0) == 0x80
unfoldable pub is_continuation : ℕ → Bool
is_continuation c = nat_eq (bit_and c 192) 128

abbrev pub question : Bytes
question = b'?' ∷ []

-- One round of the loop: what is appended to `out`, and what is left of `raw` behind it.
two : ℕ → Bytes → Bytes × Bytes
two c (d ∷ s) = if is_continuation d then (c ∷ d ∷ [], s) else (question, d ∷ s)
two c s = (question, s)

three : ℕ → Bytes → Bytes × Bytes
three c (d ∷ e ∷ s) =
    if is_continuation d && is_continuation e then (c ∷ d ∷ e ∷ [], s) else (question, d ∷ e ∷ s)
three c s = (question, s)

four : ℕ → Bytes → Bytes × Bytes
four c (d ∷ e ∷ f ∷ s) =
    if is_continuation d && (is_continuation e && is_continuation f)
    then (c ∷ d ∷ e ∷ f ∷ [], s)
    else (question, d ∷ e ∷ f ∷ s)
four c s = (question, s)

pub next_unit : ℕ → Bytes → Bytes × Bytes
unfolding two three four
next_unit c s =
    if leb c 0x7F
    then (c ∷ [], s)
    else if leb 0xC0 c && leb c 0xDF
    then two c s
    else if leb 0xE0 c && leb c 0xEF
    then three c s
    else if leb 0xF0 c && leb c 0xF7
    then four c s
    else (question, s)

-- The loop on fuel: each round takes at least one byte.
pub sanitize_loop : ℕ → Bytes → Bytes
sanitize_loop fuel [] = []
sanitize_loop zero (c ∷ s) = []
sanitize_loop (suc fuel) (c ∷ s) = let u = next_unit c s in u.0 ++ sanitize_loop fuel u.1

unfoldable pub sanitize_utf8 : Bytes → Bytes
unfolding sanitize_loop next_unit is_continuation
sanitize_utf8 raw = sanitize_loop (length raw) raw

abbrev pub truncation_note : ℕ → Bytes
truncation_note max_bytes =
    codes "\n... (output truncated at " ++ (show_nat max_bytes ++ codes " bytes)")

pub truncate : ℕ → Bytes → Bytes
truncate max_bytes output =
    if leb (length output) max_bytes
    then output
    else take max_bytes output ++ truncation_note max_bytes

-- the default argument of `xTruncateForLLM`
abbrev pub max_llm_bytes : ℕ
max_llm_bytes = 65536

pub truncate_for_llm : Bytes → Bytes
truncate_for_llm = truncate max_llm_bytes
