-- ===== src/Rpc/Server.antt =====
-- crates/aurion-rpc/src/server.rs and client.rs: a round of the server's loop on a connection, and a
-- client's call around it. The handler's state is passed in and handed back; `run` only accepts
-- connections and spawns this loop for each.
pub mod Exchange
use aurion.Prelude.{ℕ, Bool, Option, none, some, if◌then◌else◌}
use aurion.Result.{Result, ok, err, map_err, ◌>>=◌}
use aurion.Bytes.{Bytes}
use aurion.Primitives.Codec.{CodecError, decode_canonical}
use aurion.Primitives.Hash.{Hash256}
use aurion.Core.Block.{Block}
use aurion.Core.Tx.{Transaction}
use aurion.Rpc.Template.{BlockTemplate, SubmitResult}
use aurion.Rpc.Protocol.{
  RpcRequest, get_block_template, submit_block, send_raw_transaction, get_tip_status,
  encode_request, RpcResponse, block_template, submit_block_result, transaction_accepted, TipStatus,
  tip_status, error, encode_response, decode_request, decode_response,
}
use aurion.Rpc.Frame.{
  Io, RpcError, io, payload_too_large, serialization, connection_failed, node_rejected,
  protocol_mismatch, write_frame, read_frame,
}

-- `Result<A, String>`
abbrev pub Answer : Type 0 → Type 0
Answer A = Result Bytes A

-- `NodeRpcHandler`
pub record NodeRpcHandler : Type 1 where
  pub State : Type 0
  pub handle_get_block_template : Bytes → State → Answer BlockTemplate × State
  pub handle_submit_block : Block → State → Answer SubmitResult × State
  pub handle_send_raw_tx : Transaction → State → Answer Hash256 × State
  pub handle_get_tip_status : State → Answer TipStatus × State

-- `Ok(a) => wrap(a), Err(err) => RpcResponse::Error(err)`
abbrev pub respond : {A : Type 0} → (A → RpcResponse) → Answer A → RpcResponse
respond wrap (ok a) = wrap a
respond wrap (err reason) = error reason

module _ (handler : NodeRpcHandler) where
  unfoldable pub dispatch : RpcRequest → handler.State → RpcResponse × handler.State
  dispatch (get_block_template payout_address) state =
      let (answer, after) = handler.handle_get_block_template payout_address state in
      (respond block_template answer, after)
  dispatch (submit_block block) state =
      let (answer, after) = handler.handle_submit_block block state in
      (respond submit_block_result answer, after)
  dispatch (send_raw_transaction tx) state =
      let (answer, after) = handler.handle_send_raw_tx tx state in
      (respond transaction_accepted answer, after)
  dispatch get_tip_status state =
      let (answer, after) = handler.handle_get_tip_status state in
      (respond tip_status answer, after)

module _ (net : Io) where
  pub record Connection : Type 0 where
    pub reader : net.Reader
    pub writer : net.Writer

  -- The loop goes on with a connection, or ends when the peer has closed it.
  abbrev pub Round : Type 0
  Round = Result (RpcError net.IoError) (Option Connection)

  unfoldable pub read_failed : RpcError net.IoError → Round
  read_failed (io e) = if net.is_unexpected_eof e then ok none else err (io e)
  read_failed e = err e

  module _ (handler : NodeRpcHandler) where
    unfoldable pub answer_request : RpcRequest → Connection → handler.State → Round × handler.State
    answer_request request conn state =
        let (response, after) = dispatch handler request state in
        elim (write_frame net (encode_response response) conn.writer) [
          | err e ↦ (err e, after)
          | ok writer ↦ (ok (some (record conn { writer = writer })), after)
        ]

    -- one round of `handle_connection`
    unfoldable pub serve_round : Connection → handler.State → Round × handler.State
    serve_round conn state = elim (read_frame net conn.reader) [
      | err e ↦ (read_failed e, state)
      | ok read ↦ elim (decode_canonical decode_request read.0) [
        | err e ↦ (err (serialization e), state)
        | ok request ↦ answer_request request (record conn { reader = read.1 }) state
      ]
    ]

  -- `call`, before and after the server's round
  unfoldable pub send_request : RpcRequest → net.Writer → Result (RpcError net.IoError) net.Writer
  send_request request writer = write_frame net (encode_request request) writer

  unfoldable pub receive_response : net.Reader → Result (RpcError net.IoError) RpcResponse
  receive_response reader = do
    (resp_bytes, _) ← read_frame net reader
    map_err serialization (decode_canonical decode_response resp_bytes)

  -- the ends of `get_block_template` and `submit_block` of the client
  unfoldable pub expect_template : RpcResponse → Result (RpcError net.IoError) BlockTemplate
  expect_template (block_template t) = ok t
  expect_template (error reason) = err (node_rejected reason)
  expect_template _ = err protocol_mismatch

  unfoldable pub expect_submit_result : RpcResponse → Result (RpcError net.IoError) SubmitResult
  expect_submit_result (submit_block_result result) = ok result
  expect_submit_result (error reason) = err (node_rejected reason)
  expect_submit_result _ = err protocol_mismatch
