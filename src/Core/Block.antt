-- ===== src/Core/Block.antt =====
-- crates/aurion-core/src/block.rs
use aurion.Prelude.{ℕ, ◌^◌, ◌%◌, ◌<◌, List, ◌++◌, map, length, All}
use aurion.Bytes.{Bytes, to_be}
use aurion.Primitives.Codec.{Decoder, ◌>>=◌, pure, at_least, decode_uint, decode_times, encode_all}
use aurion.Primitives.Hash.{Hash256, Blake3, digest, IsHash, encode_hash, decode_hash}
use aurion.Core.Tx.{Transaction, IsTransaction, encode_transaction, decode_transaction, txid}
use aurion.Core.Merkle.{compute_merkle_root}

pub record BlockHeader : Type 0 where
  pub version : ℕ
  pub prev_block_hash : Hash256
  pub merkle_root : Hash256
  pub timestamp : ℕ
  pub bits : ℕ
  pub nonce : ℕ
  pub height : ℕ

unfoldable pub encode_header : BlockHeader → Bytes
encode_header header =
    to_be 4 header.version
    ++ (encode_hash header.prev_block_hash
        ++ (encode_hash header.merkle_root
            ++ (to_be 8 header.timestamp
                ++ (to_be 4 header.bits ++ (to_be 8 header.nonce ++ to_be 8 header.height)))))

unfoldable pub decode_header : Decoder BlockHeader
decode_header = do
  version ← decode_uint 4
  prev_block_hash ← decode_hash
  merkle_root ← decode_hash
  _ ← at_least 28
  timestamp ← decode_uint 8
  bits ← decode_uint 4
  nonce ← decode_uint 8
  height ← decode_uint 8
  pure (record {
    version = version;
    prev_block_hash = prev_block_hash;
    merkle_root = merkle_root;
    timestamp = timestamp;
    bits = bits;
    nonce = nonce;
    height = height;
  })

pub record Block : Type 0 where
  pub header : BlockHeader
  pub transactions : List Transaction

unfoldable pub encode_block : Block → Bytes
encode_block block =
    encode_header block.header
    ++ (to_be 4 (length block.transactions % 256 ^ 4)
        ++ encode_all encode_transaction block.transactions)

unfoldable pub decode_block : Decoder Block
decode_block = do
  header ← decode_header
  tx_count ← decode_uint 4
  transactions ← decode_times decode_transaction tx_count
  pure (record { header = header; transactions = transactions })

pub record IsHeader (header : BlockHeader) : Type 0 where
  pub version : header.version < 256 ^ 4
  pub prev_block_hash : IsHash header.prev_block_hash
  pub merkle_root : IsHash header.merkle_root
  pub timestamp : header.timestamp < 256 ^ 8
  pub bits : header.bits < 256 ^ 4
  pub nonce : header.nonce < 256 ^ 8
  pub height : header.height < 256 ^ 8

pub record IsBlockData (block : Block) : Type 0 where
  pub header : IsHeader block.header
  pub count : length block.transactions < 256 ^ 4
  pub transactions : All IsTransaction block.transactions

unfoldable pub header_hash : Blake3 → BlockHeader → Hash256
header_hash blake3 header = digest blake3 (encode_header header)

unfoldable pub block_hash : Blake3 → Block → Hash256
unfolding header_hash
block_hash blake3 block = header_hash blake3 block.header

unfoldable pub calculate_merkle_root : Blake3 → Block → Hash256
calculate_merkle_root blake3 block =
    compute_merkle_root blake3 (map (txid blake3) block.transactions)
