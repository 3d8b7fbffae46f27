-- ===== src/Consensus/Difficulty.antt =====
-- crates/aurion-consensus/src/difficulty.rs
pub mod Target
use aurion.Prelude.{
  ℕ, ◌+◌, ◌-◌, ◌/◌, ◌%◌, ◌^◌, List, [], ◌∷◌, set, replicate, Bool, not, ◌&&◌, ◌||◌, ◌==◌, ltb,
  if◌then◌else◌,
}
use aurion.Result.{Result, ok, err, ◌>>=◌}
use aurion.Bytes.{Bytes, to_be, bytes_lt}
use aurion.Primitives.Hash.{Hash256}
use aurion.Consensus.Error.{ConsensusError, invalid_compact_bits, proof_of_work_exceeded}

abbrev pub max_target_bits : ℕ
max_target_bits = 0x1f00ffff

-- `bits >> 24` and `bits & 0x007f_ffff`
abbrev pub exponent : ℕ → ℕ
exponent bits = bits / 2 ^ 24

abbrev pub mantissa : ℕ → ℕ
mantissa bits = bits % 2 ^ 23

-- `m_bytes[i]` of an array of four bytes
abbrev byte_at : Bytes → ℕ → ℕ
byte_at [] i = 0
byte_at (b ∷ bs) i = if i == 0 then b else byte_at bs (i - 1)

-- The three bytes of the mantissa at `shift_index`, in an array of 32 zeros.
unfoldable pub place_mantissa : ℕ → ℕ → Bytes
unfolding to_be
place_mantissa shift_index m =
    let m_bytes = to_be 4 m in
    set
      (set (set (replicate 32 0) shift_index (byte_at m_bytes 1)) (shift_index + 1)
        (byte_at m_bytes 2))
      (shift_index + 2) (byte_at m_bytes 3)

unfoldable pub compact_to_target : ℕ → Result ConsensusError Bytes
compact_to_target bits =
    let shift_index = 32 - exponent bits in
    if ltb 32 (exponent bits) || (ltb (exponent bits) 3 && not (mantissa bits == 0))
    then err (invalid_compact_bits bits)
    else if exponent bits == 0
    then ok (replicate 32 0)
    else if ltb 32 (shift_index + 3)
    then err (invalid_compact_bits bits)
    else ok (place_mantissa shift_index (mantissa bits))

unfoldable pub check_pow : Hash256 → ℕ → Result ConsensusError (Unit {0})
unfolding bytes_lt
check_pow hash bits = compact_to_target bits >>= λ target.
    if bytes_lt target hash.as_bytes then err (proof_of_work_exceeded hash target) else ok tt
