-- ===== src/Primitives/Codec.antt =====
-- crates/aurion-primitives/src/codec.rs. A `&mut &[u8]` cursor is passed in and handed back: a
-- decoder returns what it read and the bytes that are left. What the cursor holds after an error
-- is not kept, since every caller passes the error on. A text inside `InvalidData` is a
-- constructor of `Message` with the values that the source formats into it.
pub mod Laws
use aurion.Prelude.{ℕ, zero, suc, List, [], ◌∷◌, ◌++◌, length, take, drop, ltb, if◌then◌else◌}
use aurion.Result.{Result, ok, err}
use aurion.Bytes.{Bytes, from_be}

pub data Message : Type 0 where
  datum_exceeds_limit redeemer_exceeds_limit : Message
  invalid_datum_tag invalid_redeemer_tag : ℕ → Message
  invalid_submit_result_tag invalid_rpc_request_tag invalid_rpc_response_tag : ℕ → Message
  invalid_utf8 : Bytes → Message

pub data CodecError : Type 0 where
  unexpected_eof trailing_bytes : CodecError
  invalid_data : Message → CodecError

abbrev pub Decoder {ℓ} : Type ℓ → Type ℓ
Decoder A = Bytes → Result CodecError (A × Bytes)

-- `?`: an error ends the chain, a value goes on from where its reader stopped.
abbrev pub continue {ℓ κ} :
    {A : Type ℓ} {B : Type κ}
    → Result CodecError (A × Bytes)
    → (A → Decoder B)
    → Result CodecError (B × Bytes)
continue (ok (a, rest)) f = f a rest
continue (err e) f = err e

infixl 5 ◌>>=◌
abbrev pub ◌>>=◌ {ℓ κ} : {A : Type ℓ} {B : Type κ} → Decoder A → (A → Decoder B) → Decoder B
◌>>=◌ m f cursor = continue (m cursor) f

abbrev pub pure {ℓ} : {A : Type ℓ} → A → Decoder A
pure a cursor = ok (a, cursor)

abbrev pub fail {ℓ} : {A : Type ℓ} → CodecError → Decoder A
fail e cursor = err e

-- `if cursor.len() < n { return Err(UnexpectedEof); }`, then `cursor.split_at(n)`
unfoldable pub split_at : ℕ → Decoder Bytes
split_at n cursor =
    if ltb (length cursor) n then err unexpected_eof else ok (take n cursor, drop n cursor)

-- `if cursor.len() < n { return Err(UnexpectedEof); }` before several reads
unfoldable pub at_least : ℕ → Decoder (Unit {0})
at_least n cursor = if ltb (length cursor) n then err unexpected_eof else ok (tt, cursor)

-- `split_at w`, read by `from_be_bytes`
unfoldable pub decode_uint : ℕ → Decoder ℕ
decode_uint w = do bytes ← split_at w; pure (from_be bytes)

-- `if cursor.is_empty() { return Err(UnexpectedEof); }`, then `cursor[0]`
unfoldable pub next_byte : Decoder ℕ
next_byte [] = err unexpected_eof
next_byte (b ∷ rest) = ok (b, rest)

-- `for _ in 0..n { items.push(T::decode_from_cursor(cursor)?); }`
unfoldable pub decode_times {ℓ} : {A : Type ℓ} → Decoder A → ℕ → Decoder (List A)
decode_times decode zero = pure []
decode_times decode (suc n) = do x ← decode; xs ← decode_times decode n; pure (x ∷ xs)

-- `for item in &items { buf.extend(item.encode_canonical()); }`
unfoldable pub encode_all {ℓ} : {A : Type ℓ} → (A → Bytes) → List A → Bytes
encode_all encode [] = []
encode_all encode (x ∷ xs) = encode x ++ encode_all encode xs

-- `if !cursor.is_empty() { return Err(TrailingBytes); }`
abbrev pub finish {ℓ} : {A : Type ℓ} → Result CodecError (A × Bytes) → Result CodecError A
finish (ok (a, [])) = ok a
finish (ok (a, _ ∷ _)) = err trailing_bytes
finish (err e) = err e

unfoldable pub decode_canonical {ℓ} : {A : Type ℓ} → Decoder A → Bytes → Result CodecError A
decode_canonical decode bytes = finish (decode bytes)
