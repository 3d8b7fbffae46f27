-- ===== src/Consensus/Verification/Chain.antt =====
-- What a chain of blocks that pass the structure check can mint.
use aurion.Prelude.{ℕ, zero, suc, ◌+◌, ◌≤◌, ◌≡◌, List, [], ◌∷◌, arith}
use aurion.Result.{ok}
use aurion.Primitives.Hash.{Blake3}
use aurion.Core.Block.{Block}
use aurion.Consensus.Subsidy.{total_genesis_premine_quanta, max_total_supply_quanta}
use aurion.Consensus.Subsidy.Supply.{emitted, emitted-le-cap}
use aurion.Consensus.Verification.{allowed_subsidy, verify_block_structure}
use aurion.Consensus.Verification.Accepted.{total_value, verify_block_structure_iff}

-- The blocks pass the structure check at `height`, `height + 1` and so on.
abbrev pub AcceptedFrom : Blake3 → ℕ → List Block → Type 0
AcceptedFrom blake3 height [] = Unit
AcceptedFrom blake3 height (block ∷ blocks) =
    (verify_block_structure blake3 block height ≡ ok tt) × AcceptedFrom blake3 (suc height) blocks

-- What the coinbase of a block, its first transaction, pays out.
unfoldable pub minted_by : Block → ℕ
minted_by block = elim block.transactions [ [] ↦ 0 | coinbase ∷ _ ↦ total_value coinbase.outputs ]

unfoldable pub minted : List Block → ℕ
minted [] = 0
minted (block ∷ blocks) = minted_by block + minted blocks

unfoldable pub allowance : ℕ → ℕ
allowance zero = 0
allowance (suc n) = allowance n + allowed_subsidy n

pub allowance-le : (n : ℕ) → allowance n ≤ total_genesis_premine_quanta + emitted n
unfolding allowance allowed_subsidy emitted
allowance-le zero = omega arith
allowance-le (suc zero) = omega arith
allowance-le (suc (suc n)) = ground (arith, allowance-le (suc n))

pub minted_by-le :
    (blake3 : Blake3) (block : Block) (height : ℕ)
    → verify_block_structure blake3 block height ≡ ok tt
    → minted_by block ≤ allowed_subsidy height
unfolding minted_by
minted_by-le blake3 block height h =
    let a = (verify_block_structure_iff blake3 block height).0 h in rw a.transactions a.subsidy

minted-le-allowance :
    (blake3 : Blake3) (height : ℕ) (blocks : List Block)
    → AcceptedFrom blake3 height blocks
    → (top : ℕ) × (allowance height + minted blocks ≤ allowance top)
unfolding minted allowance
minted-le-allowance blake3 height [] h = (height, omega arith)
minted-le-allowance blake3 height (block ∷ blocks) h =
    let (top, ih) = minted-le-allowance blake3 (suc height) blocks h.1 in
    let here = minted_by-le blake3 block height h.0 in (top, omega arith)

-- All the coinbases of a chain of blocks that pass the structure check from height 0 on pay out at
-- most 66,000,000 * 10 ^ 8 quanta, whatever the length of the chain.
pub minted-le-cap :
    (blake3 : Blake3) (blocks : List Block)
    → AcceptedFrom blake3 0 blocks
    → minted blocks ≤ max_total_supply_quanta
minted-le-cap blake3 blocks h =
    let (top, within) = minted-le-allowance blake3 0 blocks h in
    omega (arith, allowance-le top, emitted-le-cap top)
