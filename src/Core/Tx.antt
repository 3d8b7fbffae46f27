-- ===== src/Core/Tx.antt =====
-- crates/aurion-core/src/tx.rs: inputs, outputs and transactions
use aurion.Prelude.{
  ℕ, ◌^◌, ◌%◌, ◌<◌, ◌≤◌, List, [], ◌∷◌, ◌++◌, map, length, All, Bool, false, ◌&&◌, ltb, ◌==◌,
  if◌then◌else◌, Option, none, some,
}
use aurion.Bytes.{Bytes, IsBytes, to_be}
use aurion.Primitives.Codec.{
  Decoder, ◌>>=◌, pure, fail, split_at, decode_uint, next_byte, decode_times, encode_all,
  invalid_data, redeemer_exceeds_limit, invalid_redeemer_tag,
}
use aurion.Primitives.Hash.{Hash256, Blake3, digest, hash_eq, zero_hash}
use aurion.Primitives.Quantum.{Quantum, IsQuantum, encode_quantum, decode_quantum}
use aurion.Core.OutPoint.{OutPoint, IsOutPoint, encode_outpoint, decode_outpoint}
use aurion.Core.Datum.{
  Datum, IsDatum, IsVec, encode_vec_bytes, decode_vec_bytes, encode_datum, decode_datum,
}

abbrev pub max_redeemer_size : ℕ
max_redeemer_size = 520

pub record TxInput : Type 0 where
  pub previous_output : OutPoint
  pub unlocking_script : Bytes
  pub sequence : ℕ
  pub redeemer : Option Bytes

unfoldable pub encode_redeemer : Option Bytes → Bytes
encode_redeemer none = 0x00 ∷ []
encode_redeemer (some bytes) = 0x01 ∷ (to_be 2 (length bytes % 256 ^ 2) ++ bytes)

unfoldable pub encode_input : TxInput → Bytes
encode_input input =
    encode_outpoint input.previous_output
    ++ (encode_vec_bytes input.unlocking_script
        ++ (to_be 4 input.sequence ++ encode_redeemer input.redeemer))

unfoldable pub decode_redeemer_some : Decoder (Option Bytes)
decode_redeemer_some = do
  len ← decode_uint 2
  if ltb max_redeemer_size len
      then fail (invalid_data redeemer_exceeds_limit)
      else do bytes ← split_at len; pure (some bytes)

unfoldable pub decode_redeemer_tagged : ℕ → Decoder (Option Bytes)
decode_redeemer_tagged tag =
    if tag == 0x00
    then pure none
    else if tag == 0x01
    then decode_redeemer_some
    else fail (invalid_data (invalid_redeemer_tag tag))

unfoldable pub decode_redeemer : Decoder (Option Bytes)
decode_redeemer = do tag ← next_byte; decode_redeemer_tagged tag

unfoldable pub decode_input : Decoder TxInput
decode_input = do
  previous_output ← decode_outpoint
  unlocking_script ← decode_vec_bytes
  sequence ← decode_uint 4
  redeemer ← decode_redeemer
  pure (record {
    previous_output = previous_output;
    unlocking_script = unlocking_script;
    sequence = sequence;
    redeemer = redeemer;
  })

pub record TxOutput : Type 0 where
  pub value : Quantum
  pub locking_script : Bytes
  pub datum : Datum

unfoldable pub encode_output : TxOutput → Bytes
encode_output output =
    encode_quantum output.value
    ++ (encode_vec_bytes output.locking_script ++ encode_datum output.datum)

unfoldable pub decode_output : Decoder TxOutput
decode_output = do
  value ← decode_quantum
  locking_script ← decode_vec_bytes
  datum ← decode_datum
  pure (record { value = value; locking_script = locking_script; datum = datum })

pub record Transaction : Type 0 where
  pub version : ℕ
  pub inputs : List TxInput
  pub outputs : List TxOutput
  pub locktime : ℕ

-- the first input of a transaction with one input
unfoldable pub is_coinbase : Transaction → Bool
is_coinbase tx = elim tx.inputs [
  | [] ↦ false
  | input ∷ rest ↦ length rest == 0 && hash_eq input.previous_output.txid zero_hash
]

unfoldable pub encode_transaction : Transaction → Bytes
encode_transaction tx =
    to_be 4 tx.version
    ++ (to_be 4 (length tx.inputs % 256 ^ 4)
        ++ (encode_all encode_input tx.inputs
            ++ (to_be 4 (length tx.outputs % 256 ^ 4)
                ++ (encode_all encode_output tx.outputs ++ to_be 8 tx.locktime))))

unfoldable pub decode_transaction : Decoder Transaction
decode_transaction = do
  version ← decode_uint 4
  in_len ← decode_uint 4
  inputs ← decode_times decode_input in_len
  out_len ← decode_uint 4
  outputs ← decode_times decode_output out_len
  locktime ← decode_uint 8
  pure (record { version = version; inputs = inputs; outputs = outputs; locktime = locktime })

-- What the field types of the source say, with the limits that the decoder enforces.
abbrev pub IsRedeemer : Option Bytes → Type 0
IsRedeemer none = Unit
IsRedeemer (some bytes) = (length bytes ≤ max_redeemer_size) × IsBytes bytes

pub record IsInput (input : TxInput) : Type 0 where
  pub previous_output : IsOutPoint input.previous_output
  pub unlocking_script : IsVec input.unlocking_script
  pub sequence : input.sequence < 256 ^ 4
  pub redeemer : IsRedeemer input.redeemer

pub record IsOutput (output : TxOutput) : Type 0 where
  pub value : IsQuantum output.value
  pub locking_script : IsVec output.locking_script
  pub datum : IsDatum output.datum

pub record IsTransaction (tx : Transaction) : Type 0 where
  pub version : tx.version < 256 ^ 4
  pub input_count : length tx.inputs < 256 ^ 4
  pub inputs : All IsInput tx.inputs
  pub output_count : length tx.outputs < 256 ^ 4
  pub outputs : All IsOutput tx.outputs
  pub locktime : tx.locktime < 256 ^ 8

unfoldable pub txid : Blake3 → Transaction → Hash256
txid blake3 tx = digest blake3 (encode_transaction tx)

-- `input.unlocking_script.clear()` on every input of the copy
unfoldable pub without_witness : Transaction → Transaction
without_witness tx = record tx {
  inputs = map (λ (input : TxInput). record input { unlocking_script = [] }) tx.inputs;
}

unfoldable pub sighash : Blake3 → Transaction → ℕ → Hash256
sighash blake3 tx input_index =
    digest blake3 (encode_transaction (without_witness tx) ++ to_be 4 (input_index % 256 ^ 4))
