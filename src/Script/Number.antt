-- ===== src/Script/Number.antt =====
-- `decode_script_int`, `decode_u32_index` and the checked arithmetic on `i64` of
-- crates/aurion-script/src/engine.rs
use aurion.Prelude.{ℕ, ◌-◌, ◌^◌, Bool, length, ltb, if◌then◌else◌}
use aurion.Prelude.Int.{ℤ, pos, negsuc, ◌+ℤ◌, ◌-ℤ◌}
use aurion.Result.{Result, ok, err, ◌>>=◌}
use aurion.Bytes.{Bytes, from_le, to_le}
use aurion.Script.Error.{ScriptError, arithmetic_overflow}

-- Two's complement in 64 bits: the integer of a bit pattern, and the pattern of an integer.
unfoldable pub from_pattern : ℕ → ℤ
from_pattern p = if ltb p (2 ^ 63) then pos p else negsuc (2 ^ 64 - 1 - p)

unfoldable pub to_pattern : ℤ → ℕ
to_pattern (pos n) = n
to_pattern (negsuc n) = 2 ^ 64 - 1 - n

-- The range of `i64`.
unfoldable pub fits_i64 : ℤ → Bool
fits_i64 (pos n) = ltb n (2 ^ 63)
fits_i64 (negsuc n) = ltb n (2 ^ 63)

-- `checked_add` and `checked_sub`, with their `ok_or`
unfoldable pub checked_i64 : ℤ → Result ScriptError ℤ
unfolding fits_i64
checked_i64 z = if fits_i64 z then ok z else err arithmetic_overflow

-- The bytes are copied over eight zeros, which add nothing to a little-endian number.
unfoldable pub decode_script_int : Bytes → Result ScriptError ℤ
unfolding from_pattern from_le
decode_script_int bytes =
    if ltb 8 (length bytes) then err arithmetic_overflow else ok (from_pattern (from_le bytes))

unfoldable pub encode_script_int : ℤ → Bytes
unfolding to_pattern to_le
encode_script_int z = to_le 8 (to_pattern z)

unfoldable pub add_ints : Bytes → Bytes → Result ScriptError Bytes
add_ints a_bytes b_bytes = do
  a_val ← decode_script_int a_bytes
  b_val ← decode_script_int b_bytes
  sum ← checked_i64 (a_val +ℤ b_val)
  ok (encode_script_int sum)

unfoldable pub sub_ints : Bytes → Bytes → Result ScriptError Bytes
sub_ints a_bytes b_bytes = do
  a_val ← decode_script_int a_bytes
  b_val ← decode_script_int b_bytes
  diff ← checked_i64 (a_val -ℤ b_val)
  ok (encode_script_int diff)

unfoldable pub decode_u32_index : Bytes → Result ScriptError ℕ
unfolding from_le
decode_u32_index bytes =
    if ltb 4 (length bytes) then err arithmetic_overflow else ok (from_le bytes)
