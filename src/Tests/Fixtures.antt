-- ===== src/Tests/Fixtures.antt =====
-- Data for the examples: a hash function of constant result and a signature check that looks at
-- one byte stand for the crates blake3 and ed25519_dalek.
use aurion.Prelude.{
  ℕ, ◌<◌, [], ◌∷◌, replicate, All-replicate, arith, length-replicate, none, some, false, true, ◌==◌,
}
use aurion.Bytes.{Bytes, IsBytes}
use aurion.Primitives.Hash.{IsHash, Blake3, from_bytes}
use aurion.Core.Datum.{Datum}
use aurion.Core.OutPoint.{OutPoint}
use aurion.Core.Tx.{TxInput, TxOutput, Transaction, IsTransaction}
use aurion.Core.Block.{Block, IsBlockData}
use aurion.Eutxo.State.{ExtendedUtxo, IsUtxo}
use aurion.Script.Engine.{ScriptEngine, Ed25519}

abbrev pub sevens : Bytes
sevens = replicate 32 7

pub sevens-IsHash : IsHash (from_bytes sevens)
sevens-IsHash = (length-replicate {A = ℕ} 32 7, All-replicate (λ b. b < 256) 32 7 (omega arith))

abbrev pub constant_hash : Blake3
constant_hash = record {
  hash = λ data_bytes. sevens;
  hash_size = λ data_bytes. sevens-IsHash.0;
  hash-IsBytes = λ data_bytes. sevens-IsHash.1;
}

abbrev pub first_byte_signs : Ed25519
first_byte_signs = record {
  accepts_key = λ key. true;
  verify_strict = λ key message signature. elim signature [ [] ↦ false | b ∷ _ ↦ b == 9 ];
}

abbrev pub sample_output : TxOutput
sample_output = record {
  value = 1000;
  locking_script = 0x51 ∷ [];
  datum = Datum.inline (1 ∷ 2 ∷ []);
}

abbrev pub sample_input : TxInput
sample_input = record {
  previous_output = record { txid = from_bytes sevens; vout = 3 };
  unlocking_script = 1 ∷ 5 ∷ [];
  sequence = 10;
  redeemer = some (4 ∷ []);
}

abbrev pub sample_tx : Transaction
sample_tx = record {
  version = 1;
  inputs = sample_input ∷ [];
  outputs = sample_output ∷ [];
  locktime = 20;
}

pub sample_tx-IsTransaction : IsTransaction sample_tx
sample_tx-IsTransaction = record {
  version = omega arith;
  input_count = omega arith;
  inputs = (
    record {
      previous_output = (sevens-IsHash, omega arith);
      unlocking_script = (omega arith, (omega arith, (omega arith, tt)));
      sequence = omega arith;
      redeemer = (omega arith, (omega arith, tt));
    },
    tt,
  );
  output_count = omega arith;
  outputs = (
    record {
      value = omega arith;
      locking_script = (omega arith, (omega arith, tt));
      datum = (omega arith, (omega arith, (omega arith, tt)));
    },
    tt,
  );
  locktime = omega arith;
}

abbrev pub sample_block : Block
sample_block = record {
  header = record {
    version = 1;
    prev_block_hash = from_bytes sevens;
    merkle_root = from_bytes sevens;
    timestamp = 5;
    bits = 6;
    nonce = 7;
    height = 8;
  };
  transactions = sample_tx ∷ [];
}

pub sample_block-IsBlockData : IsBlockData sample_block
sample_block-IsBlockData = record {
  header = record {
    version = omega arith;
    prev_block_hash = sevens-IsHash;
    merkle_root = sevens-IsHash;
    timestamp = omega arith;
    bits = omega arith;
    nonce = omega arith;
    height = omega arith;
  };
  count = omega arith;
  transactions = (sample_tx-IsTransaction, tt);
}

abbrev pub sample_utxo : ExtendedUtxo
sample_utxo = record {
  value = 1000;
  locking_script = 0x51 ∷ [];
  creation_height = 12;
  is_coinbase = true;
  datum = Datum.none;
}

pub sample_utxo-IsUtxo : IsUtxo sample_utxo
sample_utxo-IsUtxo = record {
  value = omega arith;
  locking_script = (omega arith, (omega arith, tt));
  creation_height = omega arith;
  datum = tt;
}

abbrev pub empty_engine : ScriptEngine
empty_engine = record { stack = []; context = none; sighash = from_bytes sevens }

-- the canonical encoding of a transaction with no inputs and no outputs
abbrev pub empty_tx_bytes : Bytes
empty_tx_bytes = 0 ∷ 0 ∷ 0 ∷ 1 ∷ 0 ∷ 0 ∷ 0 ∷ 0 ∷ 0 ∷ 0 ∷ 0 ∷ 0 ∷ 0 ∷ 0 ∷ 0 ∷ 0 ∷ 0 ∷ 0 ∷ 0 ∷ 0 ∷ []

abbrev pub empty_tx : Transaction
empty_tx = record { version = 1; inputs = []; outputs = []; locktime = 0 }

pub empty_tx_bytes-IsBytes : IsBytes empty_tx_bytes
empty_tx_bytes-IsBytes = (
  omega arith,
  (
    omega arith,
    (
      omega arith,
      (
        omega arith,
        (
          omega arith,
          (
            omega arith,
            (
              omega arith,
              (
                omega arith,
                (
                  omega arith,
                  (
                    omega arith,
                    (
                      omega arith,
                      (
                        omega arith,
                        (
                          omega arith,
                          (
                            omega arith,
                            (
                              omega arith,
                              (
                                omega arith,
                                (omega arith, (omega arith, (omega arith, (omega arith, tt)))),
                              ),
                            ),
                          ),
                        ),
                      ),
                    ),
                  ),
                ),
              ),
            ),
          ),
        ),
      ),
    ),
  ),
)

abbrev pub funding : OutPoint
funding = record { txid = from_bytes sevens; vout = 0 }

abbrev pub open_output : ℕ → TxOutput
open_output value = record { value = value; locking_script = 0x51 ∷ []; datum = Datum.none }

abbrev pub spend : Transaction
spend = record {
  version = 1;
  inputs =
      (record { previous_output = funding; unlocking_script = []; sequence = 0; redeemer = none })
      ∷ [];
  outputs = open_output 800 ∷ [];
  locktime = 0;
}
