-- ===== src/Miner.antt =====
-- bin/aurion/src/commands/mine/coinbase.rs, and the candidate that mine/mod.rs assembles from a
-- template. The search for a nonce runs in threads: what is used of it is the nonce it returns.
pub mod Candidate
use aurion.Prelude.{
  ℕ, zero, suc, ◌+◌, ◌-◌, ◌*◌, ◌/◌, ◌%◌, ◌^◌, List, [], ◌∷◌, ◌++◌, map, Bool, false, ◌==◌, ◌&&◌,
  leb, ltb, Option, none, if◌then◌else◌,
}
use aurion.Result.{Result, ok, map_err, ◌>>=◌}
use aurion.Bytes.{Bytes, to_be}
use aurion.Primitives.Hash.{Hash256, Blake3, zero_hash}
use aurion.Primitives.Quantum.{Quantum, QuantumError, checked_add}
use aurion.Core.Datum.{Datum}
use aurion.Core.Merkle.{compute_merkle_root}
use aurion.Core.Tx.{TxInput, TxOutput, Transaction, txid}
use aurion.Core.Block.{BlockHeader, Block}
use aurion.Rpc.Template.{BlockTemplate}

unfoldable pub bip34_push : ℕ → ℕ → Bytes
bip34_push height extra_nonce = to_be 8 height ++ to_be 8 extra_nonce

-- the transaction, once its reward is known
unfoldable pub coinbase_paying : ℕ → Bytes → ℕ → Quantum → Transaction
coinbase_paying height payout_script extra_nonce total_reward = record {
  version = 1;
  inputs =
      (record {
        previous_output = record { txid = zero_hash; vout = 0xFFFF_FFFF };
        unlocking_script = bip34_push height extra_nonce;
        sequence = 0xFFFF_FFFF;
        redeemer = none;
      })
      ∷ [];
  outputs =
      (record { value = total_reward; locking_script = payout_script; datum = Datum.none }) ∷ [];
  locktime = 0;
}

unfoldable pub build_coinbase_transaction :
    ℕ → Bytes → Quantum → Quantum → ℕ → Result QuantumError Transaction
build_coinbase_transaction height payout_script subsidy fees extra_nonce = do
  total_reward ← checked_add subsidy fees
  ok (coinbase_paying height payout_script extra_nonce total_reward)

-- `target_to_bits` of mine/engine.rs: the position of the first byte that is not zero, or 32
unfoldable pub first_nonzero : Bytes → ℕ
first_nonzero [] = 0
first_nonzero (b ∷ bs) = let later = suc (first_nonzero bs) in if b == 0 then later else 0

unfoldable pub byte_at : Bytes → ℕ → ℕ
byte_at [] idx = 0
byte_at (b ∷ bs) zero = b
byte_at (b ∷ bs) (suc idx) = byte_at bs idx

-- the three bytes of the mantissa from `start`
unfoldable pub mantissa_at : Bytes → ℕ → ℕ
mantissa_at target start =
    byte_at target start * 2 ^ 16 + byte_at target (start + 1) * 2 ^ 8 + byte_at target (start + 2)

-- the exponent and the mantissa, shifted if its bit 23 is set
unfoldable pub normalised : ℕ → ℕ → ℕ
normalised exponent mantissa =
    if leb 0x80_0000 mantissa && ltb exponent 32
    then (exponent + 1) * 2 ^ 24 + mantissa / 2 ^ 8
    else exponent * 2 ^ 24 + mantissa

unfoldable pub target_to_bits : Bytes → ℕ
target_to_bits target =
    let hi = first_nonzero target in
    if hi == 32
    then 0
    else if ltb (32 - hi) 3
    then normalised 3 (mantissa_at target 29)
    else normalised (32 - hi) (mantissa_at target hi)

module _ (blake3 : Blake3) where
  unfoldable pub candidate_header : BlockTemplate → List Transaction → BlockHeader
  candidate_header template txs = record {
    version = 1;
    prev_block_hash = template.previous_block_hash;
    merkle_root = compute_merkle_root blake3 (map (txid blake3) txs);
    timestamp = template.timestamp;
    bits = target_to_bits template.target.as_bytes;
    nonce = 0;
    height = template.height;
  }

  -- one round of the mining loop, up to the submission, with the nonce that the search returns; the
  -- fees of the template are not paid out
  unfoldable pub mined_block : BlockTemplate → Bytes → ℕ → ℕ → Result QuantumError Block
  mined_block template payout_script extra_nonce nonce = do
    coinbase ←
        build_coinbase_transaction template.height payout_script template.coinbase_subsidy 0
          extra_nonce
    let txs = coinbase ∷ template.transactions
    ok (record {
      header = record (candidate_header template txs) { nonce = nonce };
      transactions = txs;
    })
