-- ===== src/Consensus/Genesis.antt =====
-- crates/aurion-consensus/src/genesis.rs
use aurion.Prelude.{ℕ, ◌*◌, [], ◌∷◌, none}
use aurion.Bytes.{Bytes, codes}
use aurion.Primitives.Hash.{Blake3, zero_hash}
use aurion.Core.Datum.{Datum}
use aurion.Core.Tx.{TxOutput, Transaction, txid}
use aurion.Core.Block.{Block}
use aurion.Consensus.Difficulty.{max_target_bits}
use aurion.Consensus.Subsidy.{creator_allocation_aur, dev_allocation_aur, quanta_per_aur}

abbrev pub genesis_timestamp : ℕ
genesis_timestamp = 1773446400

abbrev pub genesis_payload : Bytes
genesis_payload = codes "Aurion: Sovereign Monolithic Digital Asset - Pure Truth"

abbrev pub genesis_nonce : ℕ
genesis_nonce = 124776

-- an output that `OP_TRUE` locks
abbrev pub unencumbered : ℕ → TxOutput
unencumbered value = record { value = value; locking_script = 0x51 ∷ []; datum = Datum.none }

abbrev pub genesis_coinbase : Transaction
genesis_coinbase = record {
  version = 1;
  inputs =
      (record {
        previous_output = record { txid = zero_hash; vout = 0xFFFF_FFFF };
        unlocking_script = genesis_payload;
        sequence = 0xFFFF_FFFF;
        redeemer = none;
      })
      ∷ [];
  outputs =
      unencumbered (creator_allocation_aur * quanta_per_aur)
      ∷ unencumbered (dev_allocation_aur * quanta_per_aur)
      ∷ [];
  locktime = 0;
}

unfoldable pub create_genesis_block : Blake3 → Block
create_genesis_block blake3 = record {
  header = record {
    version = 1;
    prev_block_hash = zero_hash;
    merkle_root = txid blake3 genesis_coinbase;
    timestamp = genesis_timestamp;
    bits = max_target_bits;
    nonce = genesis_nonce;
    height = 0;
  };
  transactions = genesis_coinbase ∷ [];
}
