-- ===== src/Node/Mempool/FeeRate/Exact.antt =====
-- The product of 256 bits is exact, and so is the order (crates/aurion-node/src/mempool/fee_rate.rs).
use native.Mathlib.Decide.{dec_lt}
use aurion.Prelude.{
  ℕ, ◌+◌, ◌*◌, ◌/◌, ◌%◌, ◌^◌, ◌≤◌, ◌<◌, ◌≡◌, ◌↔◌, ◌⊎◌, inl, inr, refl, sym, ◌∙◌, true, arith,
}
use aurion.Node.Mempool.FeeRate.{
  FeeRateIndex, Ordering, less, equal, greater, combine, wide_mul_u128, cmp_pair, cmp_bytes, cmp,
  is_greater, beats,
}

value : ℕ × ℕ → ℕ
value p = p.0 * 2 ^ 128 + p.1

combine-exact :
    (ll lh hl hh : ℕ)
    → ll < 2 ^ 128
    → lh < 2 ^ 128
    → hl < 2 ^ 128
    → hh * 2 ^ 128 + (lh + hl) * 2 ^ 64 + ll < 2 ^ 256
    → value (combine ll lh hl hh) ≡ hh * 2 ^ 128 + (lh + hl) * 2 ^ 64 + ll
unfolding value combine
combine-exact ll lh hl hh a b c d = omega arith

product_bound : (x y : ℕ) → x < 2 ^ 64 → y < 2 ^ 64 → x * y < 2 ^ 128
product_bound x y h k = grind arith

split_product :
    (a_lo a_hi b_lo b_hi : ℕ)
    → (a_hi * 2 ^ 64 + a_lo) * (b_hi * 2 ^ 64 + b_lo)
      ≡ a_hi * b_hi * 2 ^ 128 + (a_lo * b_hi + a_hi * b_lo) * 2 ^ 64 + a_lo * b_lo
split_product a_lo a_hi b_lo b_hi = grind arith

product_bound_wide : (x y : ℕ) → x < 2 ^ 128 → y < 2 ^ 128 → x * y < 2 ^ 256
product_bound_wide x y h k = grind arith

-- The pair is the product of 256 bits: hi * 2 ^ 128 + lo is a * b, for all a and b of 128 bits.
pub wide_mul_u128-exact :
    (a b : ℕ)
    → a < 2 ^ 128
    → b < 2 ^ 128
    → (wide_mul_u128 a b).0 * 2 ^ 128 + (wide_mul_u128 a b).1 ≡ a * b
unfolding wide_mul_u128 value
wide_mul_u128-exact a b h k =
    let a_lo = a % 2 ^ 64 in
    let a_hi = a / 2 ^ 64 in
    let b_lo = b % 2 ^ 64 in
    let b_hi = b / 2 ^ 64 in
    let ll = product_bound a_lo b_lo (omega arith) (omega arith) in
    let lh = product_bound a_lo b_hi (omega arith) (omega arith) in
    let hl = product_bound a_hi b_lo (omega arith) (omega arith) in
    let hh = product_bound a_hi b_hi (omega arith) (omega arith) in
    let whole : a_hi * b_hi * 2 ^ 128 + (a_lo * b_hi + a_hi * b_lo) * 2 ^ 64 + a_lo * b_lo ≡ a * b =
      let a_is : a_hi * 2 ^ 64 + a_lo ≡ a = omega arith in
      let b_is : b_hi * 2 ^ 64 + b_lo ≡ b = omega arith in
      sym (split_product a_lo a_hi b_lo b_hi) ∙ rw (a_is, b_is) refl in
    let fits : a * b < 2 ^ 256 = product_bound_wide a b h k in
    rw
      (
        small (a_lo * b_lo) ll,
        small (a_lo * b_hi) lh,
        small (a_hi * b_lo) hl,
        small (a_hi * b_hi) hh,
      )
      (combine-exact (a_lo * b_lo) (a_lo * b_hi) (a_hi * b_lo) (a_hi * b_hi) ll lh hl
          (rw whole fits)
        ∙ whole)
  where
    small : (x : ℕ) → x < 2 ^ 128 → x % 2 ^ 128 ≡ x
    small x h = omega arith

low_half : (ll lh hl hh : ℕ) → (combine ll lh hl hh).1 < 2 ^ 128
unfolding combine
low_half ll lh hl hh = omega arith

wide_mul_low : (x y : ℕ) → (wide_mul_u128 x y).1 < 2 ^ 128
unfolding wide_mul_u128
wide_mul_low x y = low_half _ _ _ _

lt_or_le : (m n : ℕ) → (m < n) ⊎ (n ≤ m)
lt_or_le m n = elim (dec_lt m n) [ yes h ↦ inl h | no h ↦ inr (omega arith) ]

cmp_pair-cases :
    (p q : ℕ × ℕ)
    → p.1 < 2 ^ 128
    → q.1 < 2 ^ 128
    → ((cmp_pair p q ≡ less) × (p.0 * 2 ^ 128 + p.1 < q.0 * 2 ^ 128 + q.1))
      ⊎ (((cmp_pair p q ≡ equal) × (p.0 * 2 ^ 128 + p.1 ≡ q.0 * 2 ^ 128 + q.1))
          ⊎ ((cmp_pair p q ≡ greater) × (q.0 * 2 ^ 128 + q.1 < p.0 * 2 ^ 128 + p.1)))
unfolding cmp_pair
cmp_pair-cases (a, b) (c, d) h k = elim (lt_or_le a c) [
  | inl lt ↦ inl (ground arith, omega arith)
  | inr ge ↦ elim (lt_or_le c a) [
    | inl gt ↦ inr (inr (ground arith, omega arith))
    | inr le ↦ elim (lt_or_le b d) [
      | inl lt ↦ inl (ground arith, omega arith)
      | inr ge' ↦ elim (lt_or_le d b) [
        | inl gt ↦ inr (inr (ground arith, omega arith))
        | inr le' ↦ inr (inl (ground arith, omega arith))
      ]
    ]
  ]
]

-- Fees of 128 bits and sizes of 64: one transaction beats another exactly if it pays more per byte,
-- as exact fractions, or if it pays the same and its id is the greater one.
pub beats_iff :
    (a b : FeeRateIndex)
    → a.fee < 2 ^ 128
    → b.fee < 2 ^ 128
    → a.size_bytes < 2 ^ 64
    → b.size_bytes < 2 ^ 64
    → (beats a b ≡ true) ↔ (
        (b.fee * a.size_bytes < a.fee * b.size_bytes)
        ⊎ ((b.fee * a.size_bytes ≡ a.fee * b.size_bytes)
            × (cmp_bytes a.txid.as_bytes b.txid.as_bytes ≡ greater)))
unfolding beats cmp is_greater
beats_iff a b ha hb ka kb =
    let left = wide_mul_u128-exact a.fee b.size_bytes ha (omega arith) in
    let right = wide_mul_u128-exact b.fee a.size_bytes hb (omega arith) in
    elim (cmp_pair-cases (wide_mul_u128 a.fee b.size_bytes) (wide_mul_u128 b.fee a.size_bytes)
      (wide_mul_low a.fee b.size_bytes) (wide_mul_low b.fee a.size_bytes)) [
        | inl (is, lt) ↦
            rw (beats, cmp, is)
              (
                (λ h. cc),
                (λ h. elim h [
                  | inl gt ↦ absurd (omega (arith, left, right))
                  | inr (eq, _) ↦ absurd (omega (arith, left, right))
                ]),
              )
        | inr (inl (is, eq)) ↦
            rw (beats, cmp, is)
              (
                (λ h. inr (omega (arith, left, right), only_greater _ h)),
                (λ h. elim h [
                  | inl gt ↦ absurd (omega (arith, left, right))
                  | inr (_, e) ↦ rw e refl
                ]),
              )
        | inr (inr (is, gt)) ↦
            rw (beats, cmp, is) ((λ h. inl (omega (arith, left, right))), (λ h. refl))
      ]
  where
    only_greater : (o : Ordering) → is_greater o ≡ true → o ≡ greater
    only_greater less h = cc
    only_greater equal h = cc
    only_greater greater h = refl
