-- ===== src/Tests/NetworkExamples.antt =====
-- Frames of small payloads.
use aurion.Prelude.{◌≡◌, ◌↔◌, [], ◌∷◌, arith}
use aurion.Result.{ok}
use aurion.Bytes.{Bytes, to_be, to_le}
use aurion.Primitives.Codec.{encode_all}
use aurion.Core.Block.{encode_block, encode_header}
use aurion.Network.Frame.{unpack_frame}
use aurion.Network.Frame.Accepted.{IsFrame, unpack_frame_iff}
use aurion.Network.Gossip.{block_frame, decode_block_frame}
use aurion.Network.Gossip.RoundTrip.{decode_block_frame-block_frame}
use aurion.Tests.Fixtures.{
  constant_hash, sample_block, sample_block-IsBlockData, empty_tx_bytes, empty_tx_bytes-IsBytes,
}

unpack_frame_iff_example :
    (unpack_frame constant_hash empty_tx_bytes ≡ ok (1 ∷ [], 2 ∷ []))
    ↔ IsFrame constant_hash empty_tx_bytes (1 ∷ []) (2 ∷ [])
unpack_frame_iff_example =
    unpack_frame_iff constant_hash empty_tx_bytes (1 ∷ []) (2 ∷ []) empty_tx_bytes-IsBytes

decode_block_frame-block_frame_example :
    (raw : Bytes) × (block_frame constant_hash (record sample_block { transactions = [] }) ≡ ok raw)
    × (decode_block_frame constant_hash raw ≡ ok (record sample_block { transactions = [] }))
unfolding encode_block encode_header encode_all to_be to_le
decode_block_frame-block_frame_example =
    decode_block_frame-block_frame constant_hash (record sample_block { transactions = [] })
      (record { header = sample_block-IsBlockData.header; count = omega arith; transactions = tt })
      (omega arith)
