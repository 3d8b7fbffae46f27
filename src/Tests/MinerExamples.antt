-- ===== src/Tests/MinerExamples.antt =====
-- A block mined for a template without transactions, and compact forms of targets.
use aurion.Prelude.{◌*◌, ◌≡◌, refl, ap, [], ◌∷◌, replicate, arith}
use aurion.Result.{Result, ok}
use aurion.Bytes.{bytes_lt}
use aurion.Primitives.Hash.{from_bytes, digest}
use aurion.Primitives.Quantum.{checked_add}
use aurion.Core.Block.{Block, block_hash, header_hash}
use aurion.Consensus.Difficulty.{check_pow, compact_to_target, place_mantissa}
use aurion.Consensus.Subsidy.{calculate_block_subsidy, subsidy_of_era}
use aurion.Consensus.Verification.{verify_block_structure, any_coinbase, allowed_subsidy}
use aurion.Rpc.Template.{BlockTemplate}
use aurion.Miner.{
  target_to_bits, first_nonzero, byte_at, mantissa_at, normalised, mined_block,
  build_coinbase_transaction, candidate_header,
}
use aurion.Miner.Candidate.{mined_block-verify_block_structure}
use aurion.Tests.Fixtures.{constant_hash, sevens}

abbrev template : BlockTemplate
template = record {
  height = 8;
  previous_block_hash = from_bytes sevens;
  target = from_bytes (0x7F ∷ replicate 31 0);
  timestamp = 5;
  coinbase_subsidy = 99 * 100_000_000;
  total_fee = 0;
  transactions = [];
}

template-bits : target_to_bits template.target.as_bytes ≡ 0x207F_0000
unfolding target_to_bits first_nonzero byte_at mantissa_at normalised
template-bits = refl

template-pow : check_pow (from_bytes sevens) 0x207F_0000 ≡ ok tt
unfolding check_pow compact_to_target place_mantissa bytes_lt
template-pow = refl

same_block : {E : Type 0} {a b : Block} → ◌≡◌ {A = Result E Block} (ok a) (ok b) → a ≡ b
same_block h = cc

mined-pow :
    (block : Block)
    → mined_block constant_hash template (0x51 ∷ []) 1 2 ≡ ok block
    → check_pow (block_hash constant_hash block) block.header.bits ≡ ok tt
unfolding mined_block build_coinbase_transaction candidate_header checked_add block_hash header_hash
    digest
mined-pow block h =
    let bits : target_to_bits template.target.as_bytes ≡ block.header.bits =
      ap (λ (b : Block). b.header.bits) (same_block h) in
    rw (← bits, template-bits) template-pow

mined_block-verify_block_structure_example :
    (block : Block) × (mined_block constant_hash template (0x51 ∷ []) 1 2 ≡ ok block)
    × (verify_block_structure constant_hash block 8 ≡ ok tt)
unfolding allowed_subsidy calculate_block_subsidy subsidy_of_era any_coinbase
mined_block-verify_block_structure_example =
    mined_block-verify_block_structure constant_hash template (0x51 ∷ []) 1 2 (omega arith)
      (omega arith) refl mined-pow
