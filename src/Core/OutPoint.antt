-- ===== src/Core/OutPoint.antt =====
-- crates/aurion-core/src/outpoint.rs
pub mod Key
use aurion.Prelude.{ℕ, ◌^◌, ◌<◌, Bool, ◌++◌, ◌&&◌, ◌==◌}
use aurion.Bytes.{Bytes, to_be}
use aurion.Primitives.Codec.{Decoder, ◌>>=◌, pure, decode_uint}
use aurion.Primitives.Hash.{Hash256, hash_eq, IsHash, encode_hash, decode_hash}

pub record OutPoint : Type 0 where
  pub txid : Hash256
  pub vout : ℕ

-- derived `==`
unfoldable pub outpoint_eq : OutPoint → OutPoint → Bool
outpoint_eq a b = hash_eq a.txid b.txid && a.vout == b.vout

abbrev pub IsOutPoint : OutPoint → Type 0
IsOutPoint op = IsHash op.txid × (op.vout < 256 ^ 4)

unfoldable pub encode_outpoint : OutPoint → Bytes
encode_outpoint op = encode_hash op.txid ++ to_be 4 op.vout

unfoldable pub decode_outpoint : Decoder OutPoint
decode_outpoint = do
  txid ← decode_hash
  vout ← decode_uint 4
  pure (record { txid = txid; vout = vout })
