-- ===== src/Rpc/Protocol.antt =====
-- crates/aurion-rpc/src/protocol.rs: requests and responses, with a tag of one byte
pub mod Canonical
use aurion.Prelude.{ℕ, ◌^◌, ◌<◌, [], ◌∷◌, ◌++◌, ◌==◌, if◌then◌else◌}
use aurion.Bytes.{Bytes, to_be}
use aurion.Primitives.Codec.{
  Decoder, ◌>>=◌, pure, fail, decode_uint, next_byte, invalid_data, invalid_rpc_request_tag,
  invalid_rpc_response_tag,
}
use aurion.Primitives.Hash.{Hash256, IsHash, encode_hash, decode_hash}
use aurion.Core.Datum.{IsVec, encode_vec_bytes, decode_vec_bytes}
use aurion.Core.Tx.{Transaction, IsTransaction, encode_transaction, decode_transaction}
use aurion.Core.Block.{Block, IsBlockData, encode_block, decode_block}
use aurion.Rpc.Template.{
  BlockTemplate, IsTemplate, encode_template, decode_template, SubmitResult, IsSubmitResult,
  encode_submit_result, decode_submit_result, decode_string, IsText,
}

-- `encode_vec_u8` and `decode_vec_u8` do what `encode_vec_bytes` and `decode_vec_bytes` of tx.rs do.
pub data RpcRequest : Type 0 where
  get_block_template : Bytes → RpcRequest
  submit_block : Block → RpcRequest
  send_raw_transaction : Transaction → RpcRequest
  get_tip_status : RpcRequest

unfoldable pub encode_request : RpcRequest → Bytes
encode_request (get_block_template payout_address) = 0x00 ∷ encode_vec_bytes payout_address
encode_request (submit_block block) = 0x01 ∷ encode_block block
encode_request (send_raw_transaction tx) = 0x02 ∷ encode_transaction tx
encode_request get_tip_status = 0x03 ∷ []

-- the arms of `match tag`
unfoldable pub decode_request_tagged : ℕ → Decoder RpcRequest
decode_request_tagged tag =
    if tag == 0x00
    then (do payout_address ← decode_vec_bytes; pure (get_block_template payout_address))
    else if tag == 0x01
    then (do block ← decode_block; pure (submit_block block))
    else if tag == 0x02
    then (do tx ← decode_transaction; pure (send_raw_transaction tx))
    else if tag == 0x03
    then pure get_tip_status
    else fail (invalid_data (invalid_rpc_request_tag tag))

unfoldable pub decode_request : Decoder RpcRequest
decode_request = do tag ← next_byte; decode_request_tagged tag

abbrev pub IsRequest : RpcRequest → Type 0
IsRequest (get_block_template payout_address) = IsVec payout_address
IsRequest (submit_block block) = IsBlockData block
IsRequest (send_raw_transaction tx) = IsTransaction tx
IsRequest get_tip_status = Unit

pub record TipStatus : Type 0 where
  pub height : ℕ
  pub best_block_hash : Hash256
  pub mempool_size : ℕ

pub data RpcResponse : Type 0 where
  block_template : BlockTemplate → RpcResponse
  submit_block_result : SubmitResult → RpcResponse
  transaction_accepted : Hash256 → RpcResponse
  tip_status : TipStatus → RpcResponse
  error : Bytes → RpcResponse

unfoldable pub encode_tip_status : TipStatus → Bytes
encode_tip_status s = to_be 8 s.height ++ (encode_hash s.best_block_hash ++ to_be 8 s.mempool_size)

unfoldable pub encode_response : RpcResponse → Bytes
encode_response (block_template t) = 0x00 ∷ encode_template t
encode_response (submit_block_result result) = 0x01 ∷ encode_submit_result result
encode_response (transaction_accepted id) = 0x02 ∷ encode_hash id
encode_response (tip_status s) = 0x03 ∷ encode_tip_status s
encode_response (error reason) = 0x04 ∷ encode_vec_bytes reason

unfoldable pub decode_tip_status : Decoder TipStatus
decode_tip_status = do
  height ← decode_uint 8
  best_block_hash ← decode_hash
  mempool_size ← decode_uint 8
  pure (record { height = height; best_block_hash = best_block_hash; mempool_size = mempool_size })

unfoldable pub decode_response_tagged : ℕ → Decoder RpcResponse
decode_response_tagged tag =
    if tag == 0x00
    then (do t ← decode_template; pure (block_template t))
    else if tag == 0x01
    then (do result ← decode_submit_result; pure (submit_block_result result))
    else if tag == 0x02
    then (do id ← decode_hash; pure (transaction_accepted id))
    else if tag == 0x03
    then (do s ← decode_tip_status; pure (tip_status s))
    else if tag == 0x04
    then (do reason ← decode_string; pure (error reason))
    else fail (invalid_data (invalid_rpc_response_tag tag))

unfoldable pub decode_response : Decoder RpcResponse
decode_response = do tag ← next_byte; decode_response_tagged tag

pub record IsTipStatus (s : TipStatus) : Type 0 where
  pub height : s.height < 256 ^ 8
  pub best_block_hash : IsHash s.best_block_hash
  pub mempool_size : s.mempool_size < 256 ^ 8

abbrev pub IsResponse : RpcResponse → Type 0
IsResponse (block_template t) = IsTemplate t
IsResponse (submit_block_result result) = IsSubmitResult result
IsResponse (transaction_accepted id) = IsHash id
IsResponse (tip_status s) = IsTipStatus s
IsResponse (error reason) = IsText reason
