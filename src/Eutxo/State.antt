-- ===== src/Eutxo/State.antt =====
-- crates/aurion-eutxo/src/state.rs and view.rs
pub mod Codec
use aurion.Prelude.{ℕ, ◌^◌, ◌<◌, [], ◌∷◌, ◌++◌, Bool, true, false, Option, ◌==◌, if◌then◌else◌}
use aurion.Bytes.{Bytes, to_be}
use aurion.Primitives.Codec.{Decoder, ◌>>=◌, pure, at_least, decode_uint, next_byte}
use aurion.Primitives.Quantum.{Quantum, IsQuantum, encode_quantum, decode_quantum}
use aurion.Core.OutPoint.{OutPoint}
use aurion.Core.Datum.{
  Datum, IsDatum, IsVec, encode_vec_bytes, decode_vec_bytes, encode_datum, decode_datum,
}
use aurion.Core.Tx.{TxOutput}

pub record ExtendedUtxo : Type 0 where
  pub value : Quantum
  pub locking_script : Bytes
  pub creation_height : ℕ
  pub is_coinbase : Bool
  pub datum : Datum

unfoldable pub from_output : TxOutput → ℕ → Bool → ExtendedUtxo
from_output output creation_height is_coinbase = record {
  value = output.value;
  locking_script = output.locking_script;
  creation_height = creation_height;
  is_coinbase = is_coinbase;
  datum = output.datum;
}

unfoldable pub to_output : ExtendedUtxo → TxOutput
to_output utxo = record {
  value = utxo.value;
  locking_script = utxo.locking_script;
  datum = utxo.datum;
}

-- `UtxoView`: a reading function over the ledger
abbrev pub UtxoView : Type 0
UtxoView = OutPoint → Option ExtendedUtxo

unfoldable pub encode_utxo : ExtendedUtxo → Bytes
encode_utxo utxo =
    encode_quantum utxo.value
    ++ (encode_vec_bytes utxo.locking_script
        ++ (to_be 8 utxo.creation_height
            ++ ((if utxo.is_coinbase then 1 else 0) ∷ encode_datum utxo.datum)))

unfoldable pub decode_utxo : Decoder ExtendedUtxo
decode_utxo = do
  value ← decode_quantum
  locking_script ← decode_vec_bytes
  _ ← at_least 9
  creation_height ← decode_uint 8
  is_coinbase_byte ← next_byte
  datum ← decode_datum
  pure (record {
    value = value;
    locking_script = locking_script;
    creation_height = creation_height;
    is_coinbase = is_coinbase_byte == 1;
    datum = datum;
  })

pub record IsUtxo (utxo : ExtendedUtxo) : Type 0 where
  pub value : IsQuantum utxo.value
  pub locking_script : IsVec utxo.locking_script
  pub creation_height : utxo.creation_height < 256 ^ 8
  pub datum : IsDatum utxo.datum
