-- ===== src/Miner/Candidate.antt =====
-- A block that the miner assembles passes the structure check, if its hash meets its target
-- (bin/aurion/src/commands/mine/mod.rs and coinbase.rs, crates/aurion-consensus/src/verification.rs).
use aurion.Prelude.{ℕ, ◌+◌, ◌≤◌, ◌≡◌, refl, ◌∷◌, ltb, false, true, Bool-cases, inl, inr, arith}
use aurion.Result.{ok}
use aurion.Bytes.{Bytes, bytes_eq}
use aurion.Primitives.Hash.{Blake3, hash_eq}
use aurion.Primitives.Quantum.{IsQuantum, u128_mod, checked_add}
use aurion.Core.Tx.{is_coinbase, Transaction}
use aurion.Core.Block.{Block, block_hash, calculate_merkle_root}
use aurion.Consensus.Difficulty.{check_pow}
use aurion.Consensus.Verification.{
  verify_block_structure, verify_pow, any_coinbase, allowed_subsidy,
}
use aurion.Consensus.Verification.Accepted.{total_value, verify_block_structure_iff}
use aurion.Rpc.Template.{BlockTemplate}
use aurion.Miner.{coinbase_paying, build_coinbase_transaction, candidate_header, mined_block}

coinbase_paying-first :
    (height : ℕ) (payout_script : Bytes) (extra_nonce reward : ℕ)
    → is_coinbase (coinbase_paying height payout_script extra_nonce reward) ≡ true
unfolding coinbase_paying is_coinbase hash_eq bytes_eq
coinbase_paying-first height payout_script extra_nonce reward = refl

coinbase_paying-total :
    (height : ℕ) (payout_script : Bytes) (extra_nonce reward allowed : ℕ)
    → reward ≤ allowed
    → total_value (coinbase_paying height payout_script extra_nonce reward).outputs ≤ allowed
unfolding coinbase_paying total_value
coinbase_paying-total height payout_script extra_nonce reward allowed h = omega arith

module _ (blake3 : Blake3) where
  abbrev assembled : BlockTemplate → Transaction → ℕ → Block
  assembled template coinbase nonce = record {
    header = record (candidate_header blake3 template (coinbase ∷ template.transactions)) {
      nonce = nonce;
    };
    transactions = coinbase ∷ template.transactions;
  }

  mined_block-eq :
      (template : BlockTemplate) (payout_script : Bytes) (extra_nonce nonce : ℕ)
      → IsQuantum template.coinbase_subsidy
      → mined_block blake3 template payout_script extra_nonce nonce
        ≡ ok (
            assembled template
              (coinbase_paying template.height payout_script extra_nonce template.coinbase_subsidy)
              nonce)
  unfolding mined_block build_coinbase_transaction checked_add
  mined_block-eq template payout_script extra_nonce nonce fits =
      let small : ltb (template.coinbase_subsidy + 0) u128_mod ≡ true = ground arith in
      let same : template.coinbase_subsidy + 0 ≡ template.coinbase_subsidy = omega arith in
      rw (mined_block, build_coinbase_transaction, checked_add, small, same) refl

  assembled-root :
      (template : BlockTemplate) (coinbase : Transaction) (nonce : ℕ)
      → (assembled template coinbase nonce).header.merkle_root
        ≡ calculate_merkle_root blake3 (assembled template coinbase nonce)
  unfolding candidate_header calculate_merkle_root
  assembled-root template coinbase nonce = refl

  pow_passes :
      (block : Block)
      → check_pow (block_hash blake3 block) block.header.bits ≡ ok tt
      → verify_pow blake3 block ≡ ok tt
  unfolding verify_pow
  pow_passes block h = elim (Bool-cases (ltb 0 block.header.height)) [
    | inl above ↦ rw above h
    | inr genesis ↦ rw genesis refl
  ]

  -- Whatever its payout script, its extra nonce and the nonce that was found, a block is mined for a
  -- template whose subsidy fits 128 bits, and it passes the structure check at the height of the template, if its
  -- hash meets its bits, the template's subsidy is at most what is allowed at that height, and none of the template's
  -- transactions is a coinbase.
  pub mined_block-verify_block_structure :
      (template : BlockTemplate) (payout_script : Bytes) (extra_nonce nonce : ℕ)
      → IsQuantum template.coinbase_subsidy
      → template.coinbase_subsidy ≤ allowed_subsidy template.height
      → any_coinbase template.transactions ≡ false
      → ((block : Block)
          → mined_block blake3 template payout_script extra_nonce nonce ≡ ok block
          → check_pow (block_hash blake3 block) block.header.bits ≡ ok tt)
      → (block : Block) × (mined_block blake3 template payout_script extra_nonce nonce ≡ ok block)
        × (verify_block_structure blake3 block template.height ≡ ok tt)
  unfolding candidate_header
  mined_block-verify_block_structure template payout_script extra_nonce nonce fits subsidy others
        work =
      let coinbase =
        coinbase_paying template.height payout_script extra_nonce template.coinbase_subsidy in
      let mined = mined_block-eq template payout_script extra_nonce nonce fits in
      let block = assembled template coinbase nonce in
      (
        block,
        mined,
        (verify_block_structure_iff blake3 block template.height).1 (record {
          coinbase = coinbase;
          others = template.transactions;
          transactions = refl;
          at_height = refl;
          proof_of_work = pow_passes block (work block mined);
          merkle_root = assembled-root template coinbase nonce;
          coinbase_first =
              coinbase_paying-first template.height payout_script extra_nonce
                template.coinbase_subsidy;
          coinbase_once = others;
          subsidy =
              coinbase_paying-total template.height payout_script extra_nonce
                template.coinbase_subsidy _ subsidy;
        }),
      )
