-- ===== src/Network/Gossip.antt =====
-- crates/aurion-network/src/gossip.rs: what is published of a block or a transaction, and what is read
-- of a sample. The session of zenoh is not under the repository: publishing and receiving are its own.
pub mod RoundTrip
use aurion.Result.{Result, guard, map_err, ◌>>=◌, ◌>>◌}
use aurion.Bytes.{Bytes, bytes_eq, codes}
use aurion.Primitives.Codec.{decode_canonical}
use aurion.Primitives.Hash.{Blake3}
use aurion.Core.Block.{Block, encode_block, decode_block}
use aurion.Core.Tx.{Transaction, encode_transaction, decode_transaction}
use aurion.Network.Frame.{NetworkError, unexpected_command, codec_error, pack_frame, unpack_frame}

abbrev pub block_command : Bytes
block_command = codes "block"

abbrev pub tx_command : Bytes
tx_command = codes "tx"

module _ (blake3 : Blake3) where
  -- the frame that `broadcast_block` puts to the session
  unfoldable pub block_frame : Block → Result NetworkError Bytes
  block_frame block = pack_frame blake3 block_command (encode_block block)

  unfoldable pub tx_frame : Transaction → Result NetworkError Bytes
  tx_frame tx = pack_frame blake3 tx_command (encode_transaction tx)

  unfoldable pub decode_block_frame : Bytes → Result NetworkError Block
  decode_block_frame raw = do
    (cmd, payload) ← unpack_frame blake3 raw
    guard (bytes_eq cmd block_command) (unexpected_command block_command cmd)
    map_err codec_error (decode_canonical decode_block payload)

  unfoldable pub decode_tx_frame : Bytes → Result NetworkError Transaction
  decode_tx_frame raw = do
    (cmd, payload) ← unpack_frame blake3 raw
    guard (bytes_eq cmd tx_command) (unexpected_command tx_command cmd)
    map_err codec_error (decode_canonical decode_transaction payload)
