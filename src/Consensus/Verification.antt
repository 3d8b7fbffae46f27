-- ===== src/Consensus/Verification.antt =====
-- crates/aurion-consensus/src/verification.rs
pub mod Accepted
pub mod Chain
use aurion.Prelude.{ℕ, List, [], ◌∷◌, Bool, false, not, ◌||◌, ◌==◌, ltb, leb, if◌then◌else◌}
use aurion.Result.{Result, ok, err, guard, ◌>>=◌, ◌>>◌}
use aurion.Primitives.Hash.{Blake3, hash_eq}
use aurion.Primitives.Quantum.{saturating_add}
use aurion.Core.Tx.{Transaction, TxOutput, is_coinbase}
use aurion.Core.Block.{Block, block_hash, calculate_merkle_root}
use aurion.Consensus.Error.{
  ConsensusError, empty_block, height_mismatch, merkle_root_mismatch, missing_coinbase,
  multiple_coinbase, subsidy_exceeded,
}
use aurion.Consensus.Difficulty.{check_pow}
use aurion.Consensus.Subsidy.{calculate_block_subsidy, total_genesis_premine_quanta}

unfoldable pub any_coinbase : List Transaction → Bool
any_coinbase [] = false
any_coinbase (tx ∷ txs) = is_coinbase tx || any_coinbase txs

-- the loop over `coinbase.outputs`
unfoldable pub total_coinbase_output : ℕ → List TxOutput → ℕ
total_coinbase_output total [] = total
total_coinbase_output total (out ∷ outs) =
    total_coinbase_output (saturating_add total out.value) outs

unfoldable pub allowed_subsidy : ℕ → ℕ
allowed_subsidy expected_height =
    if expected_height == 0
    then total_genesis_premine_quanta
    else calculate_block_subsidy expected_height

-- The genesis block is exempt from proof of work.
unfoldable pub verify_pow : Blake3 → Block → Result ConsensusError (Unit {0})
verify_pow blake3 block =
    if ltb 0 block.header.height
    then check_pow (block_hash blake3 block) block.header.bits
    else ok tt

-- What follows the test for an empty block; `coinbase` is `transactions[0]`.
unfoldable pub verify_from_coinbase :
    Blake3 → Block → ℕ → Transaction → List Transaction → Result ConsensusError (Unit {0})
verify_from_coinbase blake3 block expected_height coinbase others = do
  guard (block.header.height == expected_height)
      (height_mismatch block.header.height expected_height)
  verify_pow blake3 block
  let calculated_root = calculate_merkle_root blake3 block
  guard (hash_eq block.header.merkle_root calculated_root)
      (merkle_root_mismatch block.header.merkle_root calculated_root)
  guard (is_coinbase coinbase) missing_coinbase
  guard (not (any_coinbase others)) multiple_coinbase
  let total = total_coinbase_output 0 coinbase.outputs
  guard (leb total (allowed_subsidy expected_height))
      (subsidy_exceeded (allowed_subsidy expected_height) total)

unfoldable pub verify_block_structure : Blake3 → Block → ℕ → Result ConsensusError (Unit {0})
verify_block_structure blake3 block expected_height = elim block.transactions [
  | [] ↦ err empty_block
  | coinbase ∷ others ↦ verify_from_coinbase blake3 block expected_height coinbase others
]
