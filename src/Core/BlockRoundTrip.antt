-- ===== src/Core/BlockRoundTrip.antt =====
-- The same as RoundTrip for headers and blocks (crates/aurion-core/src/block.rs).
use aurion.Prelude.{ℕ, ◌≡◌, ◌≤◌, ◌++◌, append_assoc, length, length-append, arith}
use aurion.Result.{ok}
use aurion.Bytes.{Bytes, to_be}
use aurion.Bytes.Laws.{length-to_be}
use aurion.Primitives.Codec.Laws.{decode_uint-append, decode_times-encode_all, at_least_lem}
use aurion.Core.Tx.{IsTransaction, encode_transaction, decode_transaction}
use aurion.Core.RoundTrip.{length-fits, decode_hash-encode, decode_transaction-encode}
use aurion.Core.Block.{
  BlockHeader, Block, IsHeader, IsBlockData, encode_header, decode_header, encode_block,
  decode_block,
}

-- The last four fields of a header take 28 bytes.
tail_fields :
    (a b c d : ℕ) (rest : Bytes)
    → 28 ≤ length (to_be 8 a ++ (to_be 4 b ++ (to_be 8 c ++ (to_be 8 d ++ rest))))
tail_fields a b c d rest = simp (length-append, length-to_be) (omega arith)

pub decode_header-encode :
    (header : BlockHeader) (rest : Bytes)
    → IsHeader header
    → decode_header (encode_header header ++ rest) ≡ ok (header, rest)
unfolding decode_header encode_header
decode_header-encode header rest is = rw (
  append_assoc,
  decode_uint-append 4 header.version _ is.version,
  append_assoc,
  decode_hash-encode header.prev_block_hash _ is.prev_block_hash,
  append_assoc,
  decode_hash-encode header.merkle_root _ is.merkle_root,
  append_assoc,
  append_assoc,
  append_assoc,
  at_least_lem 28 _ (tail_fields header.timestamp header.bits header.nonce header.height rest),
  decode_uint-append 8 header.timestamp _ is.timestamp,
  decode_uint-append 4 header.bits _ is.bits,
  decode_uint-append 8 header.nonce _ is.nonce,
  decode_uint-append 8 header.height rest is.height,
)

-- Decoding the canonical encoding of a block, followed by any bytes, returns the block and leaves
-- those bytes, if its header's fields fit their types, its transactions are fewer than 2 ^ 32 and
-- each of them is one that decodes.
pub decode_block-encode :
    (block : Block) (rest : Bytes)
    → IsBlockData block
    → decode_block (encode_block block ++ rest) ≡ ok (block, rest)
unfolding decode_block encode_block
decode_block-encode block rest is = rw (
  append_assoc,
  decode_header-encode block.header _ is.header,
  append_assoc,
  length-fits 4 (length block.transactions) is.count,
  decode_uint-append 4 (length block.transactions) _ is.count,
  decode_times-encode_all encode_transaction IsTransaction decode_transaction
      decode_transaction-encode block.transactions rest is.transactions,
)
