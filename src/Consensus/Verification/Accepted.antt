-- ===== src/Consensus/Verification/Accepted.antt =====
-- What `verify_block_structure` accepts (crates/aurion-consensus/src/verification.rs).
use aurion.Prelude.{ℕ, ◌+◌, ◌≤◌, ◌<◌, ◌≡◌, ◌↔◌, refl, List, [], ◌∷◌, true, false, arith, inl, inr}
use aurion.Result.{ok, err}
use aurion.Consensus.Error.{empty_block}
use aurion.Primitives.Hash.{Blake3, hash_eq, hash_eq_iff}
use aurion.Primitives.Quantum.{saturating_add-cases, max_quantum}
use aurion.Core.Tx.{Transaction, TxOutput, is_coinbase}
use aurion.Core.Block.{Block, calculate_merkle_root}
use aurion.Consensus.Verification.{
  any_coinbase, total_coinbase_output, allowed_subsidy, verify_pow, verify_from_coinbase,
  verify_block_structure,
}
use aurion.Consensus.Subsidy.Supply.{calculate_block_subsidy-le}

-- The exact sum of the values of outputs.
unfoldable pub total_value : List TxOutput → ℕ
total_value [] = 0
total_value (out ∷ outs) = out.value + total_value outs

-- Saturation hides no excess: below the largest value the saturating sum is the exact one.
total_coinbase_output_iff :
    (total allowed : ℕ) (outs : List TxOutput)
    → total ≤ max_quantum
    → allowed < max_quantum
    → (total_coinbase_output total outs ≤ allowed) ↔ (total + total_value outs ≤ allowed)
unfolding total_coinbase_output total_value
total_coinbase_output_iff total allowed [] h k = ((λ e. omega arith), (λ e. omega arith))
total_coinbase_output_iff total allowed (out ∷ outs) h k =
    elim (saturating_add-cases total out.value) [
      | inl (fits, e) ↦
          let ih = total_coinbase_output_iff (total + out.value) allowed outs (omega arith) k in
          rw e ((λ t. omega (arith, ih.0 t)), (λ t. ih.1 (omega arith)))
      | inr (over, e) ↦
          let ih = total_coinbase_output_iff max_quantum allowed outs (omega arith) k in
          rw e ((λ t. absurd (omega (arith, ih.0 t))), (λ t. absurd (omega arith)))
    ]

pub allowed_subsidy-lt-max : (height : ℕ) → allowed_subsidy height < max_quantum
unfolding allowed_subsidy
allowed_subsidy-lt-max height = ground (arith, calculate_block_subsidy-le height)

-- What an accepted block is at `height`, in terms of exact sums and equations.
pub record IsAccepted (blake3 : Blake3) (block : Block) (height : ℕ) : Type 0 where
  pub coinbase : Transaction
  pub others : List Transaction
  pub transactions : block.transactions ≡ coinbase ∷ others
  pub at_height : block.header.height ≡ height
  pub proof_of_work : verify_pow blake3 block ≡ ok tt
  pub merkle_root : block.header.merkle_root ≡ calculate_merkle_root blake3 block
  pub coinbase_first : is_coinbase coinbase ≡ true
  pub coinbase_once : any_coinbase others ≡ false
  pub subsidy : total_value coinbase.outputs ≤ allowed_subsidy height

module _ (blake3 : Blake3) (block : Block) (height : ℕ) (coinbase : Transaction)
    (others : List Transaction) where
  accepted_parts :
      verify_from_coinbase blake3 block height coinbase others ≡ ok tt
      → (block.header.height ≡ height)
        × (verify_pow blake3 block ≡ ok tt)
        × (hash_eq block.header.merkle_root (calculate_merkle_root blake3 block) ≡ true)
        × (is_coinbase coinbase ≡ true)
        × (any_coinbase others ≡ false)
        × (total_coinbase_output 0 coinbase.outputs ≤ allowed_subsidy height)
  unfolding verify_from_coinbase
  accepted_parts h =
      (ground arith, ground arith, ground arith, ground arith, ground arith, ground arith)

  parts_accepted :
      (block.header.height ≡ height)
      → (verify_pow blake3 block ≡ ok tt)
      → (hash_eq block.header.merkle_root (calculate_merkle_root blake3 block) ≡ true)
      → (is_coinbase coinbase ≡ true)
      → (any_coinbase others ≡ false)
      → (total_coinbase_output 0 coinbase.outputs ≤ allowed_subsidy height)
      → verify_from_coinbase blake3 block height coinbase others ≡ ok tt
  unfolding verify_from_coinbase
  parts_accepted h p r c o s = ground arith

  total_iff :
      (total_coinbase_output 0 coinbase.outputs ≤ allowed_subsidy height)
      ↔ (total_value coinbase.outputs ≤ allowed_subsidy height)
  total_iff =
      let exact =
        total_coinbase_output_iff 0 (allowed_subsidy height) coinbase.outputs (omega arith)
          (allowed_subsidy-lt-max height) in
      ((λ h. omega (arith, exact.0 h)), (λ h. exact.1 (omega arith)))

verify_block_structure-eq :
    (blake3 : Blake3) (block : Block) (height : ℕ) {coinbase : Transaction}
    {others : List Transaction}
    → block.transactions ≡ coinbase ∷ others
    → verify_block_structure blake3 block height
      ≡ verify_from_coinbase blake3 block height coinbase others
unfolding verify_block_structure
verify_block_structure-eq blake3 block height e = rw e

verify_block_structure-IsAccepted :
    (blake3 : Blake3) (block : Block) (height : ℕ) (txs : List Transaction)
    → block.transactions ≡ txs
    → verify_block_structure blake3 block height ≡ ok tt
    → IsAccepted blake3 block height
verify_block_structure-IsAccepted blake3 block height [] e h =
    let refused : verify_block_structure blake3 block height ≡ err empty_block =
      unfold verify_block_structure in rw e in
    cc
verify_block_structure-IsAccepted blake3 block height (coinbase ∷ others) e h =
    let (at, pow, root, first, once, sum) =
      accepted_parts blake3 block height coinbase others
        (rw (verify_block_structure-eq blake3 block height e) at h) in
    record {
      coinbase = coinbase;
      others = others;
      transactions = e;
      at_height = at;
      proof_of_work = pow;
      merkle_root = (hash_eq_iff _ _).0 root;
      coinbase_first = first;
      coinbase_once = once;
      subsidy = (total_iff blake3 block height coinbase others).0 sum;
    }

-- The structure check accepts a block at a height exactly if the block has transactions, its header
-- has that height, its hash meets its own `bits` unless the height is 0, the header's Merkle root is
-- that of its transactions, the first transaction and no other is a coinbase, and the coinbase's
-- outputs sum up, without overflow, to at most the premine at height 0 and the subsidy elsewhere.
pub verify_block_structure_iff :
    (blake3 : Blake3) (block : Block) (height : ℕ)
    → (verify_block_structure blake3 block height ≡ ok tt) ↔ IsAccepted blake3 block height
verify_block_structure_iff blake3 block height = (
  verify_block_structure-IsAccepted blake3 block height block.transactions refl,
  (λ a. rw (verify_block_structure-eq blake3 block height a.transactions) (
      parts_accepted blake3 block height a.coinbase a.others a.at_height a.proof_of_work
        ((hash_eq_iff _ _).1 a.merkle_root) a.coinbase_first a.coinbase_once
        ((total_iff blake3 block height a.coinbase a.others).1 a.subsidy))),
)
