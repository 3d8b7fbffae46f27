-- ===== src/Rpc/Template.antt =====
-- crates/aurion-rpc/src/template.rs: block templates and the answer to a submitted block
pub mod Canonical
use aurion.Prelude.{
  ℕ, ◌^◌, ◌%◌, ◌<◌, ◌≡◌, List, [], ◌∷◌, ◌++◌, length, All, Bool, true, ◌==◌, if◌then◌else◌,
}
use aurion.Bytes.{Bytes, to_be}
use aurion.Text.{is_utf8}
use aurion.Primitives.Codec.{
  Decoder, ◌>>=◌, pure, fail, split_at, decode_uint, next_byte, decode_times, encode_all,
  invalid_data, invalid_utf8, invalid_submit_result_tag,
}
use aurion.Primitives.Hash.{Hash256, IsHash, encode_hash, decode_hash}
use aurion.Primitives.Quantum.{Quantum, IsQuantum, encode_quantum, decode_quantum}
use aurion.Core.Datum.{IsVec, encode_vec_bytes}
use aurion.Core.Tx.{Transaction, IsTransaction, encode_transaction, decode_transaction}

pub record BlockTemplate : Type 0 where
  pub height : ℕ
  pub previous_block_hash : Hash256
  pub target : Hash256
  pub timestamp : ℕ
  pub coinbase_subsidy : Quantum
  pub total_fee : Quantum
  pub transactions : List Transaction

unfoldable pub encode_template : BlockTemplate → Bytes
encode_template t =
    to_be 8 t.height
    ++ (encode_hash t.previous_block_hash
        ++ (encode_hash t.target
            ++ (to_be 8 t.timestamp
                ++ (encode_quantum t.coinbase_subsidy
                    ++ (encode_quantum t.total_fee
                        ++ (to_be 4 (length t.transactions % 256 ^ 4)
                            ++ encode_all encode_transaction t.transactions))))))

unfoldable pub decode_template : Decoder BlockTemplate
decode_template = do
  height ← decode_uint 8
  previous_block_hash ← decode_hash
  target ← decode_hash
  timestamp ← decode_uint 8
  coinbase_subsidy ← decode_quantum
  total_fee ← decode_quantum
  tx_count ← decode_uint 4
  transactions ← decode_times decode_transaction tx_count
  pure (record {
    height = height;
    previous_block_hash = previous_block_hash;
    target = target;
    timestamp = timestamp;
    coinbase_subsidy = coinbase_subsidy;
    total_fee = total_fee;
    transactions = transactions;
  })

-- What the field types say.
pub record IsTemplate (t : BlockTemplate) : Type 0 where
  pub height : t.height < 256 ^ 8
  pub previous_block_hash : IsHash t.previous_block_hash
  pub target : IsHash t.target
  pub timestamp : t.timestamp < 256 ^ 8
  pub coinbase_subsidy : IsQuantum t.coinbase_subsidy
  pub total_fee : IsQuantum t.total_fee
  pub count : length t.transactions < 256 ^ 4
  pub transactions : All IsTransaction t.transactions

-- a `String` is its bytes
pub data SubmitResult : Type 0 where
  accepted : Hash256 → ℕ → SubmitResult
  rejected : Bytes → SubmitResult

unfoldable pub encode_submit_result : SubmitResult → Bytes
encode_submit_result (accepted block_hash height) =
    0x00 ∷ (encode_hash block_hash ++ to_be 8 height)
encode_submit_result (rejected reason) = 0x01 ∷ encode_vec_bytes reason

-- `String::from_utf8`
unfoldable pub check_utf8 : Bytes → Decoder Bytes
check_utf8 bytes = if is_utf8 bytes then pure bytes else fail (invalid_data (invalid_utf8 bytes))

unfoldable pub decode_string : Decoder Bytes
decode_string = do len ← decode_uint 4; bytes ← split_at len; check_utf8 bytes

unfoldable pub decode_accepted : Decoder SubmitResult
decode_accepted = do
  block_hash ← decode_hash
  height ← decode_uint 8
  pure (accepted block_hash height)

unfoldable pub decode_rejected : Decoder SubmitResult
decode_rejected = do reason ← decode_string; pure (rejected reason)

unfoldable pub decode_submit_result_tagged : ℕ → Decoder SubmitResult
decode_submit_result_tagged tag =
    if tag == 0x00
    then decode_accepted
    else if tag == 0x01
    then decode_rejected
    else fail (invalid_data (invalid_submit_result_tag tag))

unfoldable pub decode_submit_result : Decoder SubmitResult
decode_submit_result = do tag ← next_byte; decode_submit_result_tagged tag

-- What the type `String` says of its bytes, with a length of four bytes.
abbrev pub IsText : Bytes → Type 0
IsText bytes = IsVec bytes × (is_utf8 bytes ≡ true)

abbrev pub IsSubmitResult : SubmitResult → Type 0
IsSubmitResult (accepted block_hash height) = IsHash block_hash × (height < 256 ^ 8)
IsSubmitResult (rejected reason) = IsText reason
