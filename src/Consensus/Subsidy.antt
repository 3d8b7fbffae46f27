-- ===== src/Consensus/Subsidy.antt =====
-- crates/aurion-consensus/src/subsidy.rs
pub mod Supply
use aurion.Prelude.{ℕ, ◌+◌, ◌*◌, ◌/◌, ◌^◌, leb, if◌then◌else◌}
use aurion.Primitives.Quantum.{Quantum}

-- The products of the constants are far below 2 ^ 128, where `saturating_mul` is `*`.
abbrev pub quanta_per_aur : ℕ
quanta_per_aur = 100_000_000

abbrev pub max_total_supply_quanta : Quantum
max_total_supply_quanta = 66_000_000 * quanta_per_aur

abbrev pub creator_allocation_aur : ℕ
creator_allocation_aur = 19_800_000

abbrev pub dev_allocation_aur : ℕ
dev_allocation_aur = 6_600_000

abbrev pub total_genesis_premine_quanta : Quantum
total_genesis_premine_quanta = (creator_allocation_aur + dev_allocation_aur) * quanta_per_aur

abbrev pub initial_subsidy_quanta : Quantum
initial_subsidy_quanta = 99 * quanta_per_aur

abbrev pub subsidy_halving_interval : ℕ
subsidy_halving_interval = 200_000

abbrev pub max_halvings : ℕ
max_halvings = 64

unfoldable pub subsidy_of_era : ℕ → Quantum
subsidy_of_era halvings =
    if leb max_halvings halvings then 0 else initial_subsidy_quanta / 2 ^ halvings

unfoldable pub calculate_block_subsidy : ℕ → Quantum
calculate_block_subsidy height = subsidy_of_era (height / subsidy_halving_interval)
