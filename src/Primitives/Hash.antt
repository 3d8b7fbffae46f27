-- ===== src/Primitives/Hash.antt =====
-- crates/aurion-primitives/src/hash.rs. The crate blake3 is not under the repository: its `hash`
-- is a field of `Blake3`, with the documented size of its result.
use aurion.Prelude.{◌≡◌, ◌↔◌, ap, Bool, true, length, replicate}
use aurion.Bytes.{Bytes, IsBytes, bytes_eq}
use aurion.Bytes.Laws.{bytes_eq_iff}
use aurion.Primitives.Codec.{Decoder, ◌>>=◌, pure, split_at}

pub record Hash256 : Type 0 where
  pub as_bytes : Bytes

abbrev pub from_bytes : Bytes → Hash256
from_bytes bs = record { as_bytes = bs }

abbrev pub zero_hash : Hash256
zero_hash = from_bytes (replicate 32 0)

-- derived `==`
unfoldable pub hash_eq : Hash256 → Hash256 → Bool
hash_eq a b = bytes_eq a.as_bytes b.as_bytes

pub hash_eq_iff : (a b : Hash256) → (hash_eq a b ≡ true) ↔ (a ≡ b)
unfolding hash_eq
hash_eq_iff a b = (
  (λ h. ap from_bytes ((bytes_eq_iff a.as_bytes b.as_bytes).0 h)),
  (λ h. (bytes_eq_iff a.as_bytes b.as_bytes).1 (ap (λ (x : Hash256). x.as_bytes) h)),
)

-- What the type `[u8; 32]` says of a value.
abbrev pub IsHash : Hash256 → Type 0
IsHash h = (length h.as_bytes ≡ 32) × IsBytes h.as_bytes

pub record Blake3 : Type 0 where
  pub hash : Bytes → Bytes
  pub hash_size : (data_bytes : Bytes) → length (hash data_bytes) ≡ 32
  pub hash-IsBytes : (data_bytes : Bytes) → IsBytes (hash data_bytes)

unfoldable pub digest : Blake3 → Bytes → Hash256
digest blake3 data_bytes = from_bytes (blake3.hash data_bytes)

pub digest-IsHash : (blake3 : Blake3) (data_bytes : Bytes) → IsHash (digest blake3 data_bytes)
unfolding digest
digest-IsHash blake3 data_bytes = (blake3.hash_size data_bytes, blake3.hash-IsBytes data_bytes)

abbrev pub encode_hash : Hash256 → Bytes
encode_hash h = h.as_bytes

unfoldable pub decode_hash : Decoder Hash256
decode_hash = do bytes ← split_at 32; pure (from_bytes bytes)
