-- ===== src/Core/Datum.antt =====
-- `Datum`, `encode_vec_bytes` and `decode_vec_bytes` of crates/aurion-core/src/tx.rs
use aurion.Prelude.{ℕ, ◌^◌, ◌%◌, ◌<◌, ◌≤◌, [], ◌∷◌, ◌++◌, length, ltb, ◌==◌, if◌then◌else◌}
use aurion.Bytes.{Bytes, IsBytes, to_be}
use aurion.Primitives.Codec.{
  Decoder, ◌>>=◌, pure, fail, split_at, decode_uint, next_byte, invalid_data, datum_exceeds_limit,
  invalid_datum_tag,
}
use aurion.Primitives.Hash.{Hash256, from_bytes, IsHash}

-- `bytes.len() as u32` keeps the low 32 bits of the length.
unfoldable pub encode_vec_bytes : Bytes → Bytes
encode_vec_bytes bytes = to_be 4 (length bytes % 256 ^ 4) ++ bytes

unfoldable pub decode_vec_bytes : Decoder Bytes
decode_vec_bytes = do len ← decode_uint 4; split_at len

abbrev pub IsVec : Bytes → Type 0
IsVec bytes = (length bytes < 256 ^ 4) × IsBytes bytes

abbrev pub max_datum_size : ℕ
max_datum_size = 520

pub data Datum : Type 0 where
  none : Datum
  hash : Hash256 → Datum
  inline : Bytes → Datum

unfoldable pub encode_datum : Datum → Bytes
encode_datum none = 0x00 ∷ []
encode_datum (hash h) = 0x01 ∷ h.as_bytes
encode_datum (inline bytes) = 0x02 ∷ (to_be 2 (length bytes % 256 ^ 2) ++ bytes)

-- the three arms of `match prefix`, and the last one
unfoldable pub decode_datum_hash : Decoder Datum
decode_datum_hash = do bytes ← split_at 32; pure (hash (from_bytes bytes))

unfoldable pub decode_datum_inline : Decoder Datum
decode_datum_inline = do
  len ← decode_uint 2
  if ltb max_datum_size len
      then fail (invalid_data datum_exceeds_limit)
      else do bytes ← split_at len; pure (inline bytes)

unfoldable pub decode_datum_tagged : ℕ → Decoder Datum
decode_datum_tagged prefix =
    if prefix == 0x00
    then pure none
    else if prefix == 0x01
    then decode_datum_hash
    else if prefix == 0x02
    then decode_datum_inline
    else fail (invalid_data (invalid_datum_tag prefix))

unfoldable pub decode_datum : Decoder Datum
decode_datum = do prefix ← next_byte; decode_datum_tagged prefix

-- A datum that the decoder can return.
abbrev pub IsDatum : Datum → Type 0
IsDatum none = Unit
IsDatum (hash h) = IsHash h
IsDatum (inline bytes) = (length bytes ≤ max_datum_size) × IsBytes bytes
