-- ===== src/Node/Mempool/FeeRate.antt =====
-- crates/aurion-node/src/mempool/fee_rate.rs: the order of transactions by fee per byte, without
-- division.
pub mod Exact
use aurion.Prelude.{ℕ, ◌+◌, ◌*◌, ◌/◌, ◌%◌, ◌^◌, Bool, true, false, ltb, ◌==◌, if◌then◌else◌}
use aurion.Bytes.{Bytes, bytes_eq, bytes_lt}
use aurion.Primitives.Hash.{Hash256}
use aurion.Primitives.Quantum.{Quantum}

pub record FeeRateIndex : Type 0 where
  pub fee : Quantum
  pub size_bytes : ℕ
  pub txid : Hash256

pub data Ordering : Type 0 where
  less equal greater : Ordering

-- `wrapping_add` of u128
abbrev pub wrapping_add : ℕ → ℕ → ℕ
wrapping_add a b = (a + b) % 2 ^ 128

-- From the four partial products to the pair (hi, lo).
unfoldable pub combine : ℕ → ℕ → ℕ → ℕ → ℕ × ℕ
combine ll lh hl hh =
    let lo = wrapping_add (wrapping_add ll (lh * 2 ^ 64 % 2 ^ 128)) (hl * 2 ^ 64 % 2 ^ 128) in
    let carry_lh = lh / 2 ^ 64 in
    let carry_hl = hl / 2 ^ 64 in
    let carry_lo_overflow =
      wrapping_add (wrapping_add (ll / 2 ^ 64) (lh % 2 ^ 64)) (hl % 2 ^ 64) / 2 ^ 64 in
    let hi = wrapping_add (wrapping_add (wrapping_add hh carry_lh) carry_hl) carry_lo_overflow in
    (hi, lo)

unfoldable pub wide_mul_u128 : ℕ → ℕ → ℕ × ℕ
wide_mul_u128 a b =
    let a_lo = a % 2 ^ 64 in
    let a_hi = a / 2 ^ 64 in
    let b_lo = b % 2 ^ 64 in
    let b_hi = b / 2 ^ 64 in
    combine (a_lo * b_lo % 2 ^ 128) (a_lo * b_hi % 2 ^ 128) (a_hi * b_lo % 2 ^ 128)
      (a_hi * b_hi % 2 ^ 128)

-- derived `cmp` on pairs of u128, and on arrays of bytes
unfoldable pub cmp_pair : ℕ × ℕ → ℕ × ℕ → Ordering
cmp_pair p q =
    if ltb p.0 q.0
    then less
    else if ltb q.0 p.0
    then greater
    else if ltb p.1 q.1
    then less
    else if ltb q.1 p.1
    then greater
    else equal

unfoldable pub cmp_bytes : Bytes → Bytes → Ordering
cmp_bytes a b = if bytes_lt a b then less else if bytes_eq a b then equal else greater

-- `Ord::cmp`
unfoldable pub cmp : FeeRateIndex → FeeRateIndex → Ordering
cmp self other =
    elim (cmp_pair (wide_mul_u128 self.fee other.size_bytes)
      (wide_mul_u128 other.fee self.size_bytes)) [
        | equal ↦ cmp_bytes self.txid.as_bytes other.txid.as_bytes
        | less ↦ less
        | greater ↦ greater
      ]

unfoldable pub is_greater : Ordering → Bool
is_greater less = false
is_greater equal = false
is_greater greater = true

unfoldable pub beats : FeeRateIndex → FeeRateIndex → Bool
beats self other = is_greater (cmp self other)
