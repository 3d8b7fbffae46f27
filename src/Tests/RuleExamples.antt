-- ===== src/Tests/RuleExamples.antt =====
-- The rules of the ledger and of consensus at concrete values.
use aurion.Prelude.{◌+◌, ◌*◌, ◌^◌, ◌<◌, ◌≤◌, ◌≡◌, ◌↔◌, ◌⊎◌, refl, true, false, [], ◌∷◌, length}
use aurion.Result.{ok}
use aurion.Bytes.{from_be}
use aurion.Primitives.Hash.{from_bytes}
use aurion.Core.Tx.{encode_transaction}
use aurion.Core.Block.{Block}
use aurion.Eutxo.Locktime.{verify_transaction_locktime, has_active_lock}
use aurion.Eutxo.Maturity.{verify_coinbase_maturity}
use aurion.Eutxo.Fee.{verify_transaction_fee}
use aurion.Eutxo.Rules.{verify_coinbase_maturity_iff, verify_transaction_fee_iff}
use aurion.Consensus.Difficulty.{check_pow, max_target_bits}
use aurion.Consensus.Difficulty.Target.{IsCompact, target_value, check_pow_iff}
use aurion.Consensus.Subsidy.{max_total_supply_quanta}
use aurion.Consensus.Genesis.{create_genesis_block}
use aurion.Consensus.Verification.{
  verify_block_structure, verify_from_coinbase, verify_pow, any_coinbase, total_coinbase_output,
  allowed_subsidy,
}
use aurion.Consensus.Verification.Accepted.{IsAccepted, verify_block_structure_iff}
use aurion.Consensus.Verification.Chain.{minted, minted-le-cap}
use aurion.Core.Tx.{is_coinbase, txid}
use aurion.Core.Block.{calculate_merkle_root}
use aurion.Core.Merkle.{compute_merkle_root}
use aurion.Primitives.Hash.{hash_eq, digest}
use aurion.Primitives.Quantum.{saturating_add}
use aurion.Bytes.{bytes_eq}
use aurion.Tests.Fixtures.{
  constant_hash, sevens, sevens-IsHash, sample_tx, sample_input, sample_utxo,
}

sample_tx-unlocked : verify_transaction_locktime sample_tx 20 100 ≡ ok tt
unfolding verify_transaction_locktime has_active_lock
sample_tx-unlocked = refl

verify_coinbase_maturity_iff_example :
    (verify_coinbase_maturity sample_input.previous_output sample_utxo 111 ≡ ok tt)
    ↔ ((true ≡ false) ⊎ ((12 + 100 ≤ 111) × (12 + 100 < 2 ^ 64)))
verify_coinbase_maturity_iff_example =
    verify_coinbase_maturity_iff sample_input.previous_output sample_utxo 111

verify_transaction_fee_iff_example : (verify_transaction_fee sample_tx 5000 1000 ≡ ok 4000) ↔ (
    (length (encode_transaction sample_tx) ≤ 100_000)
    × (1000 + 4000 ≡ 5000)
    × (length (encode_transaction sample_tx) * 10 ≤ 4000))
verify_transaction_fee_iff_example = verify_transaction_fee_iff sample_tx 5000 1000 4000

check_pow_iff_example :
    (check_pow (from_bytes sevens) max_target_bits ≡ ok tt)
    ↔ (IsCompact max_target_bits × (from_be sevens ≤ target_value max_target_bits))
check_pow_iff_example = check_pow_iff (from_bytes sevens) max_target_bits sevens-IsHash

abbrev genesis : Block
genesis = create_genesis_block constant_hash

genesis-accepted : verify_block_structure constant_hash genesis 0 ≡ ok tt
unfolding create_genesis_block verify_block_structure verify_from_coinbase verify_pow any_coinbase
    total_coinbase_output allowed_subsidy is_coinbase calculate_merkle_root compute_merkle_root
    hash_eq bytes_eq saturating_add txid digest
genesis-accepted = refl

verify_block_structure_iff_example :
    (verify_block_structure constant_hash genesis 0 ≡ ok tt) ↔ IsAccepted constant_hash genesis 0
verify_block_structure_iff_example = verify_block_structure_iff constant_hash genesis 0

minted-le-cap_example : minted (genesis ∷ []) ≤ max_total_supply_quanta
minted-le-cap_example = minted-le-cap constant_hash (genesis ∷ []) (genesis-accepted, tt)
