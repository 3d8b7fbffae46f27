-- ===== src/Eutxo/State/Codec.antt =====
-- The codec of stored outputs (crates/aurion-eutxo/src/state.rs).
use aurion.Prelude.{
  ℕ, ◌≤◌, ◌≡◌, refl, ◌∷◌, ◌++◌, append_assoc, length, length-append, Bool, true, false, ◌==◌,
  if◌then◌else◌, arith,
}
use aurion.Result.{ok}
use aurion.Bytes.{Bytes, to_be}
use aurion.Bytes.Laws.{length-to_be}
use aurion.Primitives.Codec.{next_byte}
use aurion.Primitives.Codec.Laws.{decode_uint-append, at_least_lem}
use aurion.Primitives.Quantum.{encode_quantum}
use aurion.Core.Datum.{encode_vec_bytes, encode_datum}
use aurion.Core.RoundTrip.{decode_vec_bytes-encode, decode_datum-encode}
use aurion.Core.Tx.{TxOutput}
use aurion.Eutxo.State.{ExtendedUtxo, IsUtxo, encode_utxo, decode_utxo, from_output, to_output}

-- The encoding of `utxo` with `flag` in the place of the coinbase byte.
abbrev pub with_flag : ℕ → ExtendedUtxo → Bytes
with_flag flag utxo =
    encode_quantum utxo.value
    ++ (encode_vec_bytes utxo.locking_script
        ++ (to_be 8 utxo.creation_height ++ (flag ∷ encode_datum utxo.datum)))

room_for_flag : (height flag : ℕ) (rest : Bytes) → 9 ≤ length (to_be 8 height ++ (flag ∷ rest))
room_for_flag height flag rest = simp (length-append, length-to_be) (omega arith)

flag-back : (b : Bool) → ((if b then 1 else 0) == 1) ≡ b
flag-back true = refl
flag-back false = refl

-- The coinbase byte of a valid stored output may be any number: 1 is read as true and all others as false.
-- So an encoding with a flag other than 0 or 1 is accepted though no encoder writes it.
pub decode_utxo-with_flag :
    (utxo : ExtendedUtxo) (flag : ℕ) (rest : Bytes)
    → IsUtxo utxo
    → decode_utxo (with_flag flag utxo ++ rest) ≡ ok (record utxo { is_coinbase = flag == 1 }, rest)
unfolding decode_utxo next_byte
decode_utxo-with_flag utxo flag rest is = rw (
  append_assoc,
  decode_uint-append 16 utxo.value _ is.value,
  append_assoc,
  decode_vec_bytes-encode utxo.locking_script _ is.locking_script,
  append_assoc,
  at_least_lem 9 _ (room_for_flag utxo.creation_height flag _),
  decode_uint-append 8 utxo.creation_height _ is.creation_height,
  decode_datum-encode utxo.datum rest is.datum,
)

-- Decoding the canonical encoding of a stored output, followed by any bytes, returns the output and
-- leaves those bytes, if its fields fit their types and its datum keeps its limit.
pub decode_utxo-encode :
    (utxo : ExtendedUtxo) (rest : Bytes)
    → IsUtxo utxo
    → decode_utxo (encode_utxo utxo ++ rest) ≡ ok (utxo, rest)
unfolding encode_utxo
decode_utxo-encode utxo rest is =
    rw (flag-back utxo.is_coinbase) at
      (decode_utxo-with_flag utxo (if utxo.is_coinbase then 1 else 0) rest is)

-- Through the storage form of an output and back.
pub to_output-from_output :
    (output : TxOutput) (height : ℕ) (coinbase : Bool)
    → to_output (from_output output height coinbase) ≡ output
unfolding to_output from_output
to_output-from_output output height coinbase = refl
