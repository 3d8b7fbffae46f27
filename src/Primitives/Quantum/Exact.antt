-- ===== src/Primitives/Quantum/Exact.antt =====
-- Checked sums and differences of amounts are exact (crates/aurion-primitives/src/quantum.rs).
use aurion.Prelude.{ℕ, ◌+◌, ◌-◌, ◌^◌, ◌≡◌, refl, ltb, Bool-cases, inl, inr}
use aurion.Result.{Ensures, returns, raises}
use aurion.Primitives.Quantum.{checked_add, checked_sub}

pub checked_add-exact : (a b : ℕ) → Ensures (λ c. c ≡ a + b) (checked_add a b)
unfolding checked_add
checked_add-exact a b = elim (Bool-cases (ltb (a + b) (256 ^ 16))) [
  | inl fits ↦ rw fits (returns refl)
  | inr over ↦ rw over raises
]

pub checked_sub-exact : (a b : ℕ) → Ensures (λ c. c ≡ a - b) (checked_sub a b)
unfolding checked_sub
checked_sub-exact a b = elim (Bool-cases (ltb a b)) [
  | inl short ↦ rw short raises
  | inr enough ↦ rw enough (returns refl)
]
