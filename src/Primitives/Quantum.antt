-- ===== src/Primitives/Quantum.antt =====
-- crates/aurion-primitives/src/quantum.rs: amounts of value, unsigned 128-bit.
pub mod Exact
use native.Mathlib.Decide.{dec_lt}
use aurion.Prelude.{ℕ, ◌≤◌, ◌≡◌, ◌⊎◌, inl, inr, arith, ◌+◌, ◌-◌, ◌^◌, ◌<◌, ltb, if◌then◌else◌}
use aurion.Result.{Result, ok, err}
use aurion.Bytes.{Bytes, to_be}
use aurion.Primitives.Codec.{Decoder, decode_uint}

pub data QuantumError : Type 0 where
  overflow underflow : QuantumError

-- `Quantum(u128)`; `new`, `from_raw`, `raw` and `as_u128` are the identity.
abbrev pub Quantum : Type 0
Quantum = ℕ

abbrev pub u128_mod : ℕ
u128_mod = 256 ^ 16

-- `u128::MAX`
abbrev pub max_quantum : Quantum
max_quantum = u128_mod - 1

unfoldable pub checked_add : Quantum → Quantum → Result QuantumError Quantum
checked_add a b = if ltb (a + b) u128_mod then ok (a + b) else err overflow

unfoldable pub checked_sub : Quantum → Quantum → Result QuantumError Quantum
checked_sub a b = if ltb a b then err underflow else ok (a - b)

-- `u128::saturating_add` and `saturating_mul`
unfoldable pub saturating_add : ℕ → ℕ → ℕ
saturating_add a b = if ltb (a + b) u128_mod then a + b else max_quantum

pub saturating_add-cases :
    (a b : ℕ)
    → ((a + b < u128_mod) × (saturating_add a b ≡ a + b))
      ⊎ ((u128_mod ≤ a + b) × (saturating_add a b ≡ max_quantum))
unfolding saturating_add
saturating_add-cases a b = elim (dec_lt (a + b) u128_mod) [
  | yes fits ↦ inl (fits, ground arith)
  | no over ↦ inr (omega arith, ground arith)
]

abbrev pub IsQuantum : Quantum → Type 0
IsQuantum q = q < u128_mod

abbrev pub encode_quantum : Quantum → Bytes
encode_quantum = to_be 16

abbrev pub decode_quantum : Decoder Quantum
decode_quantum = decode_uint 16
