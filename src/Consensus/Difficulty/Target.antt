-- ===== src/Consensus/Difficulty/Target.antt =====
-- The target array spells the number that the compact form stands for, and the check of a hash is
-- the comparison of numbers (crates/aurion-consensus/src/difficulty.rs).
use native.Mathlib.Nat.{pow-suc}
use native.Mathlib.Decide.{dec_lt}
use aurion.Prelude.{
  ℕ, suc, ◌+◌, ◌-◌, ◌*◌, ◌/◌, ◌%◌, ◌^◌, ◌≤◌, ◌<◌, ◌≡◌, ◌↔◌, ◌⊎◌, inl, inr, refl, sym, ap, ◌∙◌,
  length, set, length-set, replicate, get_elem?, get_elem?-set_ne, get_elem?-replicate, All-set,
  All-replicate, some, Bool-cases, false, arith,
}
use aurion.Result.{ok, >>=-eq-ok}
use aurion.Bytes.{Bytes, IsBytes, from_be, bytes_lt}
use aurion.Bytes.Ordered.{from_be-set, from_be-replicate, bytes_lt_iff}
use aurion.Primitives.Hash.{Hash256, IsHash}
use aurion.Consensus.Difficulty.{exponent, mantissa, place_mantissa, compact_to_target, check_pow}

-- The place values of three neighbouring bytes.
place_values :
    (i x y z k : ℕ)
    → k ≡ 29 - i
    → i < 30
    → 0 + x * 256 ^ (32 - 1 - i) + y * 256 ^ (32 - 1 - (i + 1)) + z * 256 ^ (32 - 1 - (i + 2))
      ≡ (x * 65536 + y * 256 + z) * 256 ^ k
place_values i x y z k e h =
    let e₁ : 32 - 1 - i ≡ suc (suc k) = omega arith in
    let e₂ : 32 - 1 - (i + 1) ≡ suc k = omega arith in
    let e₃ : 32 - 1 - (i + 2) ≡ k = omega arith in
    let two : 256 ^ suc (suc k) ≡ 256 ^ k * 256 * 256 = rw (pow-suc, pow-suc) in
    let one : 256 ^ suc k ≡ 256 ^ k * 256 = rw pow-suc in rw (e₁, e₂, e₃, two, one) (omega arith)

-- Three bytes written into an array of 32 zeros.
module _ (zeros : Bytes) (size : length zeros ≡ 32) (value : from_be zeros ≡ 0)
    (blank : (j : ℕ) → j < 32 → get_elem? zeros j ≡ some 0) where
  from_be-write3 :
      (i x y z : ℕ)
      → i < 30
      → from_be (set (set (set zeros i x) (i + 1) y) (i + 2) z)
        ≡ (x * 65536 + y * 256 + z) * 256 ^ (29 - i)
  from_be-write3 i x y z h =
      let first = set zeros i x in
      let second = set first (i + 1) y in
      let at₂ : get_elem? first (i + 1) ≡ some 0 =
        get_elem?-set_ne zeros i (i + 1) x (omega arith) ∙ blank (i + 1) (omega arith) in
      let at₃ : get_elem? second (i + 2) ≡ some 0 =
        get_elem?-set_ne first (i + 1) (i + 2) y (omega arith)
        ∙ (get_elem?-set_ne zeros i (i + 2) x (omega arith) ∙ blank (i + 2) (omega arith)) in
      let size₁ : length first ≡ 32 = length-set zeros i x ∙ size in
      let size₂ : length second ≡ 32 = length-set first (i + 1) y ∙ size₁ in
      rw
        (
          from_be-set second (i + 2) z at₃,
          from_be-set first (i + 1) y at₂,
          from_be-set zeros i x (blank i (omega arith)),
          size₂,
          size₁,
          size,
          value,
        )
        (place_values i x y z (29 - i) refl h)

-- What compact forms stand for: an exponent of 3 to 32, or nothing at all.
abbrev pub IsCompact : ℕ → Type 0
IsCompact bits =
    ((3 ≤ exponent bits) × (exponent bits ≤ 32)) ⊎ ((exponent bits ≡ 0) × (mantissa bits ≡ 0))

abbrev pub target_value : ℕ → ℕ
target_value bits = mantissa bits * 256 ^ (exponent bits - 3)

record IsTarget (bits : ℕ) (target : Bytes) : Type 0 where
  size : length target ≡ 32
  bytes : IsBytes target
  value : from_be target ≡ target_value bits

place_mantissa-IsTarget :
    (i m : ℕ)
    → i < 30
    → m < 2 ^ 23
    → (length (place_mantissa i m) ≡ 32)
      × IsBytes (place_mantissa i m)
      × (from_be (place_mantissa i m) ≡ m * 256 ^ (29 - i))
unfolding place_mantissa
place_mantissa-IsTarget i m h fits =
    let zeros : Bytes = replicate 32 0 in
    let x = m / 256 / 256 % 256 in
    let y = m / 256 % 256 in
    let z = m % 256 in
    let digits : x * 65536 + y * 256 + z ≡ m = omega arith in
    (
      length-set _ (i + 2) z ∙ (length-set _ (i + 1) y ∙ length-set zeros i x),
      All-set (λ b. b < 256) _ (i + 2) z (omega arith)
          (All-set (λ b. b < 256) _ (i + 1) y (omega arith)
            (All-set (λ b. b < 256) zeros i x (omega arith)
              (All-replicate {A = ℕ} (λ b. b < 256) 32 0 (omega arith)))),
      from_be-write3 zeros refl (from_be-replicate 32) (λ j below. get_elem?-replicate 32 j 0 below)
            i x y z h
          ∙ ap (λ t. t * 256 ^ (29 - i)) digits,
    )

compact_to_target-IsTarget :
    (bits : ℕ)
    → IsCompact bits
    → (target : Bytes) × (compact_to_target bits ≡ ok target) × IsTarget bits target
unfolding compact_to_target
compact_to_target-IsTarget bits (inl (low, high)) =
    let shift : 29 - (32 - exponent bits) ≡ exponent bits - 3 = omega arith in
    let (size, bytes, value) =
      place_mantissa-IsTarget (32 - exponent bits) (mantissa bits) (omega arith) (omega arith) in
    (
      place_mantissa (32 - exponent bits) (mantissa bits),
      ground arith,
      record { size = size; bytes = bytes; value = rw shift at value },
    )
compact_to_target-IsTarget bits (inr (none, blank)) = (
  replicate 32 0,
  ground arith,
  record {
    size = refl;
    bytes = All-replicate {A = ℕ} (λ b. b < 256) 32 0 (omega arith);
    value = rw blank (from_be-replicate 32 ∙ omega arith);
  },
)

compact_to_target-refuses :
    (bits : ℕ) (target : Bytes) → compact_to_target bits ≡ ok target → IsCompact bits
unfolding compact_to_target
compact_to_target-refuses bits target h = elim (dec_lt (exponent bits) 3) [
  | yes low ↦ inr (ground arith, ground arith)
  | no high ↦ inl (omega arith, ground arith)
]

-- The comparison that `check_pow` makes with an accepted target.
below_target :
    (hash : Hash256) (bits : ℕ) (target : Bytes)
    → IsHash hash
    → IsTarget bits target
    → (bytes_lt target hash.as_bytes ≡ false) ↔ (from_be hash.as_bytes ≤ target_value bits)
below_target hash bits target is t =
    let order = bytes_lt_iff target hash.as_bytes t.bytes is.1 (t.size ∙ sym is.0) in
    elim (Bool-cases (bytes_lt target hash.as_bytes)) [
      | inl above ↦
          let greater : target_value bits < from_be hash.as_bytes = rw t.value at (order.0 above) in
          ((λ h. cc), (λ h. absurd (omega arith)))
      | inr below ↦ ((λ h. rw (← t.value) (ground (arith, order))), (λ h. below))
    ]

-- A hash meets the proof of work of `bits` exactly if `bits` is a compact form that is accepted,
-- with an exponent from 3 to 32 or all zero, and the hash, as a big-endian number, is at most
-- mantissa * 256 ^ (exponent - 3).
pub check_pow_iff :
    (hash : Hash256) (bits : ℕ)
    → IsHash hash
    → (check_pow hash bits ≡ ok tt) ↔ (IsCompact bits × (from_be hash.as_bytes ≤ target_value bits))
unfolding check_pow
check_pow_iff hash bits is = (
  (λ h.
      let (target, found, passes) = >>=-eq-ok (compact_to_target bits) _ h in
      let compact = compact_to_target-refuses bits target found in
      let (target', found', t) = compact_to_target-IsTarget bits compact in
      let same : target' ≡ target = cc in
      (compact, (below_target hash bits target' is t).0 (ground arith))),
  (λ h.
      let (target, found, t) = compact_to_target-IsTarget bits h.0 in
      let below = (below_target hash bits target is t).1 h.1 in rw (found, below)),
)
