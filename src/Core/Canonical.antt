-- ===== src/Core/Canonical.antt =====
-- What a successful read says of the bytes: they are the encoding of the value that came out, and
-- that value is valid (crates/aurion-core/src/outpoint.rs and tx.rs).
use mathlib.Core.Path.{subst}
use aurion.Prelude.{
  ℕ, ◌^◌, ◌%◌, ◌<◌, ◌≤◌, ◌≡◌, refl, ap, [], ◌∷◌, ◌++◌, append_assoc, length, ltb, ◌==◌, some,
  Option, arith, Bool-cases, inl, inr, ==_iff,
}
use aurion.Result.{ok}
use aurion.Bytes.{Bytes, IsBytes, to_be}
use aurion.Primitives.Codec.{◌>>=◌, next_byte, decode_uint, split_at}
use aurion.Primitives.Codec.Laws.{Reads, >>=-eq-ok, ok-injective, split_at-Reads, decode_uint-Reads}
use aurion.Primitives.Hash.{Hash256, from_bytes, IsHash, encode_hash, decode_hash}
use aurion.Core.OutPoint.{OutPoint, IsOutPoint, encode_outpoint, decode_outpoint}
use aurion.Core.Datum.{
  Datum, IsDatum, IsVec, encode_vec_bytes, decode_vec_bytes, encode_datum, decode_datum,
  decode_datum_tagged, decode_datum_hash, decode_datum_inline,
}
use aurion.Core.Tx.{
  IsRedeemer, encode_redeemer, decode_redeemer, decode_redeemer_tagged, decode_redeemer_some,
}
use aurion.Core.RoundTrip.{length-fits, limit-passes}

pub decode_hash-Reads :
    (cursor : Bytes) (z : Hash256 × Bytes)
    → IsBytes cursor
    → decode_hash cursor ≡ ok z
    → Reads encode_hash IsHash cursor z
unfolding decode_hash
decode_hash-Reads cursor z bytes h =
    let (p, at, e) = >>=-eq-ok (split_at 32) _ cursor h in
    let r = split_at-Reads 32 cursor p bytes at in
    subst (Reads encode_hash IsHash cursor) (ok-injective e)
      (record { written = r.written; valid = r.valid; bytes = r.bytes })

pub decode_outpoint-Reads :
    (cursor : Bytes) (z : OutPoint × Bytes)
    → IsBytes cursor
    → decode_outpoint cursor ≡ ok z
    → Reads encode_outpoint IsOutPoint cursor z
unfolding decode_outpoint encode_outpoint
decode_outpoint-Reads cursor z bytes h =
    let (p, at, e) = >>=-eq-ok decode_hash _ cursor h in
    let r = decode_hash-Reads cursor p bytes at in
    let (q, at', e') = >>=-eq-ok (decode_uint 4) _ p.1 e in
    let r' = decode_uint-Reads 4 p.1 q r.bytes at' in
    subst (Reads encode_outpoint IsOutPoint cursor) (ok-injective e') (record {
      written = rw (append_assoc, r'.written) r.written;
      valid = (r.valid, r'.valid);
      bytes = r'.bytes;
    })

pub decode_vec_bytes-Reads :
    (cursor : Bytes) (z : Bytes × Bytes)
    → IsBytes cursor
    → decode_vec_bytes cursor ≡ ok z
    → Reads encode_vec_bytes IsVec cursor z
unfolding decode_vec_bytes encode_vec_bytes
decode_vec_bytes-Reads cursor z bytes h =
    let (p, at, e) = >>=-eq-ok (decode_uint 4) _ cursor h in
    let r = decode_uint-Reads 4 cursor p bytes at in
    let r' = split_at-Reads p.0 p.1 z r.bytes e in
    let fits : length z.0 < 256 ^ 4 = rw r'.valid.0 r.valid in
    record {
      written =
          rw (append_assoc, r'.written, length-fits 4 (length z.0) fits, r'.valid.0) r.written;
      valid = (fits, r'.valid.1);
      bytes = r'.bytes;
    }

-- The body that datums and redeemers share: a length of two bytes, its limit, and the bytes.
record IsSized {A : Type 0} (wrap : Bytes → A) (cursor : Bytes) (z : A × Bytes) : Type 0 where
  payload : Bytes
  value : z.0 ≡ wrap payload
  written : (to_be 2 (length payload % 256 ^ 2) ++ payload) ++ z.1 ≡ cursor
  limit : length payload ≤ 520
  bytes : IsBytes payload
  rest : IsBytes z.1

split_at-IsSized :
    {A : Type 0} (wrap : Bytes → A) (len : ℕ) (cursor start : Bytes) (z : A × Bytes)
    → IsBytes cursor
    → to_be 2 len ++ cursor ≡ start
    → len ≤ 520
    → (split_at len >>= λ bytes. λ rest. ok (wrap bytes, rest)) cursor ≡ ok z
    → IsSized wrap start z
split_at-IsSized wrap len cursor start z bytes at small h =
    let (p, got, e) = >>=-eq-ok (split_at len) _ cursor h in
    let r = split_at-Reads len cursor p bytes got in
    let limit : length p.0 ≤ 520 = rw r.valid.0 small in
    subst (IsSized wrap start) (ok-injective e) (record {
      payload = p.0;
      value = refl;
      written = rw (append_assoc, r.written, r.valid.0, (limit-passes len small).0) at;
      limit = limit;
      bytes = r.valid.1;
      rest = r.bytes;
    })

decode_datum_inline-IsSized :
    (cursor : Bytes) (z : Datum × Bytes)
    → IsBytes cursor
    → decode_datum_inline cursor ≡ ok z
    → IsSized Datum.inline cursor z
unfolding decode_datum_inline
decode_datum_inline-IsSized cursor z bytes h =
    let (p, at, e) = >>=-eq-ok (decode_uint 2) _ cursor h in
    let r = decode_uint-Reads 2 cursor p bytes at in
    elim (Bool-cases (ltb 520 p.0)) [
      | inl big ↦ cc
      | inr small ↦
          split_at-IsSized Datum.inline p.0 p.1 cursor z r.bytes r.written (ground arith)
            (rw small at e)
    ]

decode_redeemer_some-IsSized :
    (cursor : Bytes) (z : Option Bytes × Bytes)
    → IsBytes cursor
    → decode_redeemer_some cursor ≡ ok z
    → IsSized some cursor z
unfolding decode_redeemer_some
decode_redeemer_some-IsSized cursor z bytes h =
    let (p, at, e) = >>=-eq-ok (decode_uint 2) _ cursor h in
    let r = decode_uint-Reads 2 cursor p bytes at in
    elim (Bool-cases (ltb 520 p.0)) [
      | inl big ↦ cc
      | inr small ↦
          split_at-IsSized some p.0 p.1 cursor z r.bytes r.written (ground arith) (rw small at e)
    ]

decode_datum_tagged-Reads :
    (prefix : ℕ) (cursor : Bytes) (z : Datum × Bytes)
    → IsBytes cursor
    → decode_datum_tagged prefix cursor ≡ ok z
    → Reads encode_datum IsDatum (prefix ∷ cursor) z
unfolding decode_datum_tagged decode_datum_hash encode_datum
decode_datum_tagged-Reads prefix cursor z bytes h = elim (Bool-cases (prefix == 0x00)) [
  | inl t ↦ rw ((==_iff prefix 0x00).0 t) (
      subst (Reads encode_datum IsDatum (0x00 ∷ cursor)) (ok-injective (rw t at h))
        (record { written = refl; valid = tt; bytes = bytes }))
  | inr f ↦ elim (Bool-cases (prefix == 0x01)) [
    | inl t ↦
        let (p, at, e) =
          >>=-eq-ok (split_at 32) (λ b. λ rest. ok (Datum.hash (from_bytes b), rest)) cursor
            (rw (f, t) at h) in
        let r = split_at-Reads 32 cursor p bytes at in
        rw ((==_iff prefix 0x01).0 t) (
          subst (Reads encode_datum IsDatum (0x01 ∷ cursor)) (ok-injective e)
            (record { written = ap (λ b. 0x01 ∷ b) r.written; valid = r.valid; bytes = r.bytes }))
    | inr f' ↦ elim (Bool-cases (prefix == 0x02)) [
      | inl t ↦
          let s = decode_datum_inline-IsSized cursor z bytes (rw (f, f', t) at h) in
          rw ((==_iff prefix 0x02).0 t) (record {
            written = rw s.value (ap (λ b. 0x02 ∷ b) s.written);
            valid = rw s.value (s.limit, s.bytes);
            bytes = s.rest;
          })
      | inr f'' ↦ let refused = rw (f, f', f'') at h in cc
    ]
  ]
]

decode_redeemer_tagged-Reads :
    (tag : ℕ) (cursor : Bytes) (z : Option Bytes × Bytes)
    → IsBytes cursor
    → decode_redeemer_tagged tag cursor ≡ ok z
    → Reads encode_redeemer IsRedeemer (tag ∷ cursor) z
unfolding decode_redeemer_tagged encode_redeemer
decode_redeemer_tagged-Reads tag cursor z bytes h = elim (Bool-cases (tag == 0x00)) [
  | inl t ↦ rw ((==_iff tag 0x00).0 t) (
      subst (Reads encode_redeemer IsRedeemer (0x00 ∷ cursor)) (ok-injective (rw t at h))
        (record { written = refl; valid = tt; bytes = bytes }))
  | inr f ↦ elim (Bool-cases (tag == 0x01)) [
    | inl t ↦
        let s = decode_redeemer_some-IsSized cursor z bytes (rw (f, t) at h) in
        rw ((==_iff tag 0x01).0 t) (record {
          written = rw s.value (ap (λ b. 0x01 ∷ b) s.written);
          valid = rw s.value (s.limit, s.bytes);
          bytes = s.rest;
        })
    | inr f' ↦ let refused = rw (f, f') at h in cc
  ]
]

pub decode_datum-Reads :
    (cursor : Bytes) (z : Datum × Bytes)
    → IsBytes cursor
    → decode_datum cursor ≡ ok z
    → Reads encode_datum IsDatum cursor z
unfolding decode_datum next_byte
decode_datum-Reads [] z bytes h = cc
decode_datum-Reads (prefix ∷ cursor) z bytes h = decode_datum_tagged-Reads prefix cursor z bytes.1 h

pub decode_redeemer-Reads :
    (cursor : Bytes) (z : Option Bytes × Bytes)
    → IsBytes cursor
    → decode_redeemer cursor ≡ ok z
    → Reads encode_redeemer IsRedeemer cursor z
unfolding decode_redeemer next_byte
decode_redeemer-Reads [] z bytes h = cc
decode_redeemer-Reads (tag ∷ cursor) z bytes h = decode_redeemer_tagged-Reads tag cursor z bytes.1 h
