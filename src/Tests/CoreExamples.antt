-- ===== src/Tests/CoreExamples.antt =====
-- The codecs and the Merkle root at concrete values.
use aurion.Prelude.{◌≡◌, ◌↔◌, refl, false, [], ◌∷◌, ◌++◌}
use aurion.Result.{ok}
use aurion.Primitives.Codec.{decode_canonical}
use aurion.Primitives.Hash.{zero_hash}
use aurion.Core.Block.{IsBlockData, encode_block, decode_block}
use aurion.Core.Merkle.{compute_merkle_root}
use aurion.Core.Merkle.Layers.{compute_merkle_root-last_twice}
use aurion.Core.BlockCanonical.{decode_canonical-block_iff}
use aurion.Eutxo.State.{encode_utxo, decode_utxo}
use aurion.Eutxo.State.Codec.{with_flag, decode_utxo-with_flag, decode_utxo-encode}
use aurion.Tests.Fixtures.{
  constant_hash, sample_block, sample_utxo, sample_utxo-IsUtxo, empty_tx_bytes,
  empty_tx_bytes-IsBytes,
}

decode_canonical-block_iff_example :
    (decode_canonical decode_block empty_tx_bytes ≡ ok sample_block)
    ↔ ((encode_block sample_block ≡ empty_tx_bytes) × IsBlockData sample_block)
decode_canonical-block_iff_example =
    decode_canonical-block_iff empty_tx_bytes sample_block empty_tx_bytes-IsBytes

decode_utxo-with_flag_example :
    decode_utxo (with_flag 5 sample_utxo ++ [])
    ≡ ok (record sample_utxo { is_coinbase = false }, [])
decode_utxo-with_flag_example = decode_utxo-with_flag sample_utxo 5 [] sample_utxo-IsUtxo

decode_utxo-encode_example :
    decode_utxo (encode_utxo sample_utxo ++ (1 ∷ [])) ≡ ok (sample_utxo, 1 ∷ [])
decode_utxo-encode_example = decode_utxo-encode sample_utxo (1 ∷ []) sample_utxo-IsUtxo

compute_merkle_root-last_twice_example :
    compute_merkle_root constant_hash (zero_hash ∷ zero_hash ∷ [] ++ (zero_hash ∷ []))
    ≡ compute_merkle_root constant_hash (zero_hash ∷ zero_hash ∷ [] ++ (zero_hash ∷ zero_hash ∷ []))
compute_merkle_root-last_twice_example =
    compute_merkle_root-last_twice constant_hash zero_hash zero_hash zero_hash [] 0 refl
