-- ===== src/Core/RoundTrip.antt =====
-- Decoding an encoding, whatever follows it, returns the value and leaves what follows
-- (crates/aurion-core/src/outpoint.rs, tx.rs and block.rs).
use aurion.Prelude.{
  ℕ, ◌^◌, ◌%◌, ◌<◌, ◌≤◌, ◌≡◌, refl, ◌++◌, append_assoc, length, ltb, false, none, some, Option,
  arith,
}
use aurion.Result.{ok}
use aurion.Bytes.{Bytes, to_be}
use aurion.Primitives.Codec.{next_byte}
use aurion.Primitives.Codec.Laws.{
  split_at-append_of_length, split_at-append, decode_uint-append, decode_times-encode_all,
}
use aurion.Primitives.Hash.{Hash256, IsHash, encode_hash, decode_hash}
use aurion.Core.OutPoint.{OutPoint, IsOutPoint, encode_outpoint, decode_outpoint}
use aurion.Core.Datum.{
  Datum, IsDatum, IsVec, encode_vec_bytes, decode_vec_bytes, encode_datum, decode_datum,
  decode_datum_tagged, decode_datum_hash, decode_datum_inline,
}
use aurion.Core.Tx.{
  TxInput, TxOutput, Transaction, IsInput, IsOutput, IsTransaction, IsRedeemer, encode_redeemer,
  decode_redeemer, decode_redeemer_tagged, decode_redeemer_some, encode_input, decode_input,
  encode_output, decode_output, encode_transaction, decode_transaction,
}

pub decode_hash-encode :
    (h : Hash256) (rest : Bytes) → IsHash h → decode_hash (encode_hash h ++ rest) ≡ ok (h, rest)
unfolding decode_hash
decode_hash-encode h rest is = rw (split_at-append_of_length 32 h.as_bytes rest is.0)

pub decode_outpoint-encode :
    (op : OutPoint) (rest : Bytes)
    → IsOutPoint op
    → decode_outpoint (encode_outpoint op ++ rest) ≡ ok (op, rest)
unfolding decode_outpoint encode_outpoint
decode_outpoint-encode op rest is = rw (
  append_assoc,
  decode_hash-encode op.txid (to_be 4 op.vout ++ rest) is.0,
  decode_uint-append 4 op.vout rest is.1,
)

-- The low bits of a length that fits are the length.
pub length-fits : (w n : ℕ) → n < 256 ^ w → n % 256 ^ w ≡ n
length-fits w n h = grind arith

pub decode_vec_bytes-encode :
    (bytes rest : Bytes)
    → IsVec bytes
    → decode_vec_bytes (encode_vec_bytes bytes ++ rest) ≡ ok (bytes, rest)
unfolding decode_vec_bytes encode_vec_bytes
decode_vec_bytes-encode bytes rest is = rw (
  append_assoc,
  length-fits 4 (length bytes) is.0,
  decode_uint-append 4 (length bytes) (bytes ++ rest) is.0,
  split_at-append bytes rest,
)

-- The limit of 520 bytes fits a length of two bytes, and passes the decoders' test.
pub limit-passes : (n : ℕ) → n ≤ 520 → (n % 256 ^ 2 ≡ n) × (n < 256 ^ 2) × (ltb 520 n ≡ false)
limit-passes n h = (omega arith, omega arith, ground arith)

decode_datum_inline-encode :
    (bytes rest : Bytes)
    → length bytes ≤ 520
    → decode_datum_inline ((to_be 2 (length bytes % 256 ^ 2) ++ bytes) ++ rest)
      ≡ ok (Datum.inline bytes, rest)
unfolding decode_datum_inline
decode_datum_inline-encode bytes rest h =
    let (low, fits, passes) = limit-passes (length bytes) h in
    rw (
      append_assoc,
      low,
      decode_uint-append 2 (length bytes) (bytes ++ rest) fits,
      passes,
      split_at-append bytes rest,
    )

decode_redeemer_some-encode :
    (bytes rest : Bytes)
    → length bytes ≤ 520
    → decode_redeemer_some ((to_be 2 (length bytes % 256 ^ 2) ++ bytes) ++ rest)
      ≡ ok (some bytes, rest)
unfolding decode_redeemer_some
decode_redeemer_some-encode bytes rest h =
    let (low, fits, passes) = limit-passes (length bytes) h in
    rw (
      append_assoc,
      low,
      decode_uint-append 2 (length bytes) (bytes ++ rest) fits,
      passes,
      split_at-append bytes rest,
    )

pub decode_datum-encode :
    (datum : Datum) (rest : Bytes)
    → IsDatum datum
    → decode_datum (encode_datum datum ++ rest) ≡ ok (datum, rest)
unfolding decode_datum encode_datum next_byte decode_datum_tagged decode_datum_hash
decode_datum-encode Datum.none rest is = refl
decode_datum-encode (Datum.hash h) rest is = rw (split_at-append_of_length 32 h.as_bytes rest is.0)
decode_datum-encode (Datum.inline bytes) rest is = decode_datum_inline-encode bytes rest is.0

decode_redeemer-encode :
    (redeemer : Option Bytes) (rest : Bytes)
    → IsRedeemer redeemer
    → decode_redeemer (encode_redeemer redeemer ++ rest) ≡ ok (redeemer, rest)
unfolding decode_redeemer encode_redeemer next_byte decode_redeemer_tagged
decode_redeemer-encode none rest is = refl
decode_redeemer-encode (some bytes) rest is = decode_redeemer_some-encode bytes rest is.0

pub decode_input-encode :
    (input : TxInput) (rest : Bytes)
    → IsInput input
    → decode_input (encode_input input ++ rest) ≡ ok (input, rest)
unfolding decode_input encode_input
decode_input-encode input rest is = rw (
  append_assoc,
  decode_outpoint-encode input.previous_output _ is.previous_output,
  append_assoc,
  decode_vec_bytes-encode input.unlocking_script _ is.unlocking_script,
  append_assoc,
  decode_uint-append 4 input.sequence _ is.sequence,
  decode_redeemer-encode input.redeemer rest is.redeemer,
)

pub decode_output-encode :
    (output : TxOutput) (rest : Bytes)
    → IsOutput output
    → decode_output (encode_output output ++ rest) ≡ ok (output, rest)
unfolding decode_output encode_output
decode_output-encode output rest is = rw (
  append_assoc,
  decode_uint-append 16 output.value _ is.value,
  append_assoc,
  decode_vec_bytes-encode output.locking_script _ is.locking_script,
  decode_datum-encode output.datum rest is.datum,
)

-- Decoding the canonical encoding of a transaction, followed by any bytes, returns the transaction
-- and leaves those bytes, if its integers fit their types and its datums and redeemers keep the
-- limit of 520 bytes.
pub decode_transaction-encode :
    (tx : Transaction) (rest : Bytes)
    → IsTransaction tx
    → decode_transaction (encode_transaction tx ++ rest) ≡ ok (tx, rest)
unfolding decode_transaction encode_transaction
decode_transaction-encode tx rest is = rw (
  append_assoc,
  decode_uint-append 4 tx.version _ is.version,
  append_assoc,
  length-fits 4 (length tx.inputs) is.input_count,
  decode_uint-append 4 (length tx.inputs) _ is.input_count,
  append_assoc,
  decode_times-encode_all encode_input IsInput decode_input decode_input-encode tx.inputs _
      is.inputs,
  append_assoc,
  length-fits 4 (length tx.outputs) is.output_count,
  decode_uint-append 4 (length tx.outputs) _ is.output_count,
  append_assoc,
  decode_times-encode_all encode_output IsOutput decode_output decode_output-encode tx.outputs _
      is.outputs,
  decode_uint-append 8 tx.locktime rest is.locktime,
)
