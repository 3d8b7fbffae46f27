-- ===== src/Consensus/Subsidy/Supply.antt =====
-- What the subsidy schedule emits in total.
use aurion.Prelude.{
  ℕ, zero, suc, ◌+◌, ◌*◌, ◌/◌, ◌%◌, ◌^◌, ◌⊎◌, ◌≤◌, ◌<◌, ◌≡◌, refl, sym, arith, inl, inr,
}
use native.Mathlib.Decide.{dec_lt}
use native.Mathlib.Nat.{pow-suc, div-div-eq-div-mul}
use aurion.Consensus.Subsidy.{
  subsidy_of_era, initial_subsidy_quanta, calculate_block_subsidy, total_genesis_premine_quanta,
  max_total_supply_quanta,
}

-- What blocks 0 to n - 1 may mint by their subsidies.
unfoldable pub emitted : ℕ → ℕ
emitted zero = 0
emitted (suc n) = emitted n + calculate_block_subsidy n

-- What the first `k` eras of 200,000 blocks emit.
emitted_by_eras : ℕ → ℕ
emitted_by_eras zero = 0
emitted_by_eras (suc k) = emitted_by_eras k + 200_000 * subsidy_of_era k

-- From one height to the next, either the era goes on or its last block is done.
next_height :
    (n : ℕ)
    → ((suc n / 200_000 ≡ n / 200_000) × (suc n % 200_000 ≡ suc (n % 200_000)))
      ⊎ ((suc n / 200_000 ≡ suc (n / 200_000)) × (suc n % 200_000 ≡ 0) × (n % 200_000 ≡ 199_999))
next_height n = elim (dec_lt (n % 200_000) 199_999) [
  | yes inside ↦ inl (omega arith, omega arith)
  | no last ↦ inr (omega arith, omega arith, omega arith)
]

-- In block `n` of the schedule, whole eras and a part of one have gone by.
emitted-eq-eras :
    (n : ℕ)
    → emitted n ≡ emitted_by_eras (n / 200_000) + (n % 200_000) * subsidy_of_era (n / 200_000)
unfolding emitted emitted_by_eras calculate_block_subsidy
emitted-eq-eras zero = omega arith
emitted-eq-eras (suc n) = elim (next_height n) [
  | inl (era, block) ↦ rw (era, block) (omega (arith, emitted-eq-eras n))
  | inr (era, block, last) ↦
      rw (era, block) (let ih = rw last at (emitted-eq-eras n) in omega arith)
]

-- What is to come is at most twice the subsidy of the era for each of its blocks.
eras_bound :
    (k : ℕ)
    → emitted_by_eras k + 400_000 * (initial_subsidy_quanta / 2 ^ k)
      ≤ 400_000 * initial_subsidy_quanta
unfolding emitted_by_eras subsidy_of_era
eras_bound zero = omega arith
eras_bound (suc k) =
    let ih = eras_bound k in
    let halved : initial_subsidy_quanta / 2 ^ suc k ≡ initial_subsidy_quanta / 2 ^ k / 2 =
      rw pow-suc (sym (div-div-eq-div-mul initial_subsidy_quanta (2 ^ k) 2)) in
    let paid : subsidy_of_era k ≤ initial_subsidy_quanta / 2 ^ k = ground arith in omega arith

part_of_era : (r s : ℕ) → r < 200_000 → r * s ≤ 200_000 * s
part_of_era r s h = grind arith

emitted_by_eras-suc :
    (k : ℕ) → emitted_by_eras (suc k) ≡ emitted_by_eras k + 200_000 * subsidy_of_era k
unfolding emitted_by_eras
emitted_by_eras-suc k = refl

-- Whatever the length of the chain, its subsidies and the premine stay within the supply cap.
pub emitted-le-cap : (n : ℕ) → total_genesis_premine_quanta + emitted n ≤ max_total_supply_quanta
emitted-le-cap n =
    let k = n / 200_000 in
    let part = part_of_era (n % 200_000) (subsidy_of_era k) (omega arith) in
    omega (arith, emitted-eq-eras n, emitted_by_eras-suc k, eras_bound (suc k))

pub calculate_block_subsidy-le :
    (height : ℕ) → calculate_block_subsidy height ≤ initial_subsidy_quanta
unfolding calculate_block_subsidy subsidy_of_era
calculate_block_subsidy-le height = ground arith
