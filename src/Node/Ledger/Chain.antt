-- ===== src/Node/Ledger/Chain.antt =====
-- A chain of blocks, the newest first, and the ledger that it leaves.
use aurion.Prelude.{
  ltb, ◌&&◌, Bool-cases, inl, inr, ◌≡◌, ◌≤◌, refl, List, [], ◌∷◌, All, Bool, true, false, length,
  arith, none,
}
use aurion.Result.{ok}
use aurion.Bytes.{Bytes, IsBytes, bytes_eq}
use aurion.Primitives.Hash.{Hash256, Blake3, IsHash, zero_hash, hash_eq, digest-IsHash}
use aurion.Core.OutPoint.{OutPoint}
use aurion.Core.Tx.{is_coinbase, txid, IsTransaction}
use aurion.Core.Merkle.{compute_merkle_root, reduce_layers}
use aurion.Core.Block.{Block, IsBlockData, block_hash, calculate_merkle_root}
use aurion.Consensus.Genesis.{create_genesis_block, genesis_coinbase, genesis_payload}
use aurion.Consensus.Verification.{
  verify_block_structure, verify_pow, any_coinbase, allowed_subsidy,
}
use aurion.Consensus.Verification.Accepted.{total_value, verify_block_structure_iff}
use aurion.Script.Engine.{Ed25519}
use aurion.Node.Invariants.Spent.{consumed, consumed_by, count}
use aurion.Node.Invariants.Sound.{IsSound}
use aurion.Storage.Refinement.{Ledger, apply_block}

abbrev pub empty_ledger : Ledger
empty_ledger op = none

module _ (blake3 : Blake3) where
  unfoldable pub replay : List Block → Ledger
  replay [] = empty_ledger
  replay (block ∷ parents) = apply_block blake3 block (consumed block.transactions) (replay parents)

  unfoldable pub parent_hash : List Block → Hash256
  parent_hash [] = zero_hash
  parent_hash (block ∷ parents) = block_hash blake3 block

  -- A block that may follow a chain: its structure is right for its height, which is the length of the
  -- chain, its parent is the newest block, and against the ledger of the chain no outpoint is spent
  -- twice, no transaction but the coinbase pays out more than it spends, and all contracts answer true.
  pub record IsLink (ed25519 : Ed25519) (block : Block) (parents : List Block) : Type 0 where
    pub fields : IsBlockData block
    pub structure : verify_block_structure blake3 block (length parents) ≡ ok tt
    pub parent : block.header.prev_block_hash ≡ parent_hash parents
    pub once : (op : OutPoint) → count op (consumed block.transactions) ≤ 1
    pub sound :
        All
          (λ tx.
            is_coinbase tx ≡ false → IsSound blake3 ed25519 (replay parents) block.header.height tx)
          block.transactions

  abbrev pub IsChain : Ed25519 → List Block → Type 0
  IsChain ed25519 [] = Unit
  IsChain ed25519 (block ∷ parents) = IsLink ed25519 block parents × IsChain ed25519 parents

  genesis-structure : verify_block_structure blake3 (create_genesis_block blake3) 0 ≡ ok tt
  unfolding create_genesis_block verify_pow calculate_merkle_root compute_merkle_root reduce_layers
      is_coinbase hash_eq bytes_eq any_coinbase allowed_subsidy total_value
  genesis-structure =
      (verify_block_structure_iff blake3 (create_genesis_block blake3) 0).1 (record {
        coinbase = genesis_coinbase;
        others = [];
        transactions = refl;
        at_height = refl;
        proof_of_work = refl;
        merkle_root = refl;
        coinbase_first = refl;
        coinbase_once = refl;
        subsidy = omega arith;
      })

all_small : Bytes → Bool
all_small [] = true
all_small (b ∷ bs) = ltb b 256 && all_small bs

all_small-IsBytes : (bs : Bytes) → all_small bs ≡ true → IsBytes bs
unfolding all_small
all_small-IsBytes [] h = tt
all_small-IsBytes (b ∷ bs) h = elim (Bool-cases (ltb b 256)) [
  | inl small ↦ (ground arith, all_small-IsBytes bs (rw small at h))
  | inr large ↦ absurd (ground arith)
]

zero_hash-IsHash : IsHash zero_hash
unfolding all_small
zero_hash-IsHash = (refl, all_small-IsBytes zero_hash.as_bytes refl)

genesis_coinbase-IsTransaction : IsTransaction genesis_coinbase
unfolding all_small
genesis_coinbase-IsTransaction = record {
  version = omega arith;
  input_count = omega arith;
  inputs = (
    record {
      previous_output = (zero_hash-IsHash, omega arith);
      unlocking_script = (omega arith, all_small-IsBytes genesis_payload refl);
      sequence = omega arith;
      redeemer = tt;
    },
    tt,
  );
  output_count = omega arith;
  outputs = (
    record { value = omega arith; locking_script = (omega arith, (omega arith, tt)); datum = tt },
    (
      record { value = omega arith; locking_script = (omega arith, (omega arith, tt)); datum = tt },
      tt,
    ),
  );
  locktime = omega arith;
}

module _ (blake3 : Blake3) where
  genesis-IsBlockData : IsBlockData (create_genesis_block blake3)
  unfolding create_genesis_block txid
  genesis-IsBlockData = record {
    header = record {
      version = omega arith;
      prev_block_hash = zero_hash-IsHash;
      merkle_root = digest-IsHash blake3 _;
      timestamp = omega arith;
      bits = omega arith;
      nonce = omega arith;
      height = omega arith;
    };
    count = omega arith;
    transactions = (genesis_coinbase-IsTransaction, tt);
  }

  pub genesis-spends : consumed (create_genesis_block blake3).transactions ≡ []
  unfolding create_genesis_block consumed consumed_by is_coinbase hash_eq bytes_eq
  genesis-spends = refl

  -- The genesis block starts a chain.
  pub genesis-IsLink : (ed25519 : Ed25519) → IsLink blake3 ed25519 (create_genesis_block blake3) []
  unfolding parent_hash create_genesis_block count is_coinbase hash_eq bytes_eq
  genesis-IsLink ed25519 = record {
    fields = genesis-IsBlockData;
    structure = genesis-structure blake3;
    parent = refl;
    once = λ op. rw (genesis-spends, count) (omega arith);
    sound = ((λ h. cc), tt);
  }
