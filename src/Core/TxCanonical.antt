-- ===== src/Core/TxCanonical.antt =====
-- The same as Canonical for inputs, outputs and transactions (crates/aurion-core/src/tx.rs).
use mathlib.Core.Path.{subst}
use aurion.Prelude.{◌^◌, ◌<◌, ◌≡◌, append_assoc, length}
use aurion.Result.{ok}
use aurion.Bytes.{Bytes, IsBytes}
use aurion.Primitives.Codec.{decode_uint}
use aurion.Primitives.Codec.Laws.{
  Reads, >>=-eq-ok, ok-injective, reading, decode_uint-Reads, decode_times-Reads,
}
use aurion.Core.OutPoint.{decode_outpoint}
use aurion.Core.Datum.{decode_vec_bytes, decode_datum}
use aurion.Core.Tx.{
  TxInput, TxOutput, Transaction, IsInput, IsOutput, IsTransaction, decode_redeemer, encode_input,
  decode_input, encode_output, decode_output, encode_transaction, decode_transaction,
}
use aurion.Core.RoundTrip.{length-fits}
use aurion.Core.Canonical.{
  decode_outpoint-Reads, decode_vec_bytes-Reads, decode_datum-Reads, decode_redeemer-Reads,
}

decode_input-Reads :
    (cursor : Bytes) (z : TxInput × Bytes)
    → IsBytes cursor
    → decode_input cursor ≡ ok z
    → Reads encode_input IsInput cursor z
unfolding decode_input encode_input
decode_input-Reads cursor z bytes h =
    let (p, at₁, e₁) = >>=-eq-ok decode_outpoint _ cursor h in
    let r₁ = decode_outpoint-Reads cursor p bytes at₁ in
    let (q, at₂, e₂) = >>=-eq-ok decode_vec_bytes _ p.1 e₁ in
    let r₂ = decode_vec_bytes-Reads p.1 q r₁.bytes at₂ in
    let (s, at₃, e₃) = >>=-eq-ok (decode_uint 4) _ q.1 e₂ in
    let r₃ = decode_uint-Reads 4 q.1 s r₂.bytes at₃ in
    let (t, at₄, e₄) = >>=-eq-ok decode_redeemer _ s.1 e₃ in
    let r₄ = decode_redeemer-Reads s.1 t r₃.bytes at₄ in
    subst (Reads encode_input IsInput cursor) (ok-injective e₄) (record {
      written =
          rw (append_assoc, append_assoc, append_assoc, r₄.written, r₃.written, r₂.written)
            r₁.written;
      valid = record {
        previous_output = r₁.valid;
        unlocking_script = r₂.valid;
        sequence = r₃.valid;
        redeemer = r₄.valid;
      };
      bytes = r₄.bytes;
    })

decode_output-Reads :
    (cursor : Bytes) (z : TxOutput × Bytes)
    → IsBytes cursor
    → decode_output cursor ≡ ok z
    → Reads encode_output IsOutput cursor z
unfolding decode_output encode_output
decode_output-Reads cursor z bytes h =
    let (p, at₁, e₁) = >>=-eq-ok (decode_uint 16) _ cursor h in
    let r₁ = decode_uint-Reads 16 cursor p bytes at₁ in
    let (q, at₂, e₂) = >>=-eq-ok decode_vec_bytes _ p.1 e₁ in
    let r₂ = decode_vec_bytes-Reads p.1 q r₁.bytes at₂ in
    let (s, at₃, e₃) = >>=-eq-ok decode_datum _ q.1 e₂ in
    let r₃ = decode_datum-Reads q.1 s r₂.bytes at₃ in
    subst (Reads encode_output IsOutput cursor) (ok-injective e₃) (record {
      written = rw (append_assoc, append_assoc, r₃.written, r₂.written) r₁.written;
      valid = record { value = r₁.valid; locking_script = r₂.valid; datum = r₃.valid };
      bytes = r₃.bytes;
    })

pub decode_transaction-Reads :
    (cursor : Bytes) (z : Transaction × Bytes)
    → IsBytes cursor
    → decode_transaction cursor ≡ ok z
    → Reads encode_transaction IsTransaction cursor z
unfolding decode_transaction encode_transaction
decode_transaction-Reads cursor z bytes h =
    reading _ (decode_uint-Reads 4) cursor z bytes h λ v r₁ h₁.
      reading _ (decode_uint-Reads 4) v.1 z r₁.bytes h₁ λ m r₂ h₂.
        reading _ (decode_times-Reads encode_input IsInput decode_input decode_input-Reads m.0) m.1
          z r₂.bytes h₂
          λ ins r₃ h₃. reading _ (decode_uint-Reads 4) ins.1 z r₃.bytes h₃ λ n r₄ h₄.
            reading _
              (decode_times-Reads encode_output IsOutput decode_output decode_output-Reads n.0) n.1
              z r₄.bytes h₄
              λ outs r₅ h₅. reading _ (decode_uint-Reads 8) outs.1 z r₅.bytes h₅ λ t r₆ h₆.
                let ins_fit : length ins.0 < 256 ^ 4 = rw r₃.valid.0 r₂.valid in
                let outs_fit : length outs.0 < 256 ^ 4 = rw r₅.valid.0 r₄.valid in
                subst (Reads encode_transaction IsTransaction cursor) (ok-injective h₆) (record {
                  written =
                      rw
                        (
                          append_assoc,
                          append_assoc,
                          append_assoc,
                          append_assoc,
                          append_assoc,
                          r₆.written,
                          r₅.written,
                          length-fits 4 (length outs.0) outs_fit,
                          r₅.valid.0,
                          r₄.written,
                          r₃.written,
                          length-fits 4 (length ins.0) ins_fit,
                          r₃.valid.0,
                          r₂.written,
                        )
                        r₁.written;
                  valid = record {
                    version = r₁.valid;
                    input_count = ins_fit;
                    inputs = r₃.valid.1;
                    output_count = outs_fit;
                    outputs = r₅.valid.1;
                    locktime = r₆.valid;
                  };
                  bytes = r₆.bytes;
                })
