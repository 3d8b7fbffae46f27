-- ===== src/Rpc/Template/Canonical.antt =====
-- The encodings of block templates and submit results are read back, and only they are read
-- (crates/aurion-rpc/src/template.rs).
use mathlib.Core.Path.{subst}
use aurion.Prelude.{
  ◌^◌, ◌<◌, ◌≡◌, ◌==◌, refl, ap, [], ◌∷◌, ◌++◌, append_assoc, length, Bool-cases, inl, inr, ==_iff,
}
use aurion.Result.{ok}
use aurion.Bytes.{Bytes, IsBytes}
use aurion.Text.{is_utf8}
use aurion.Primitives.Codec.{next_byte}
use aurion.Primitives.Codec.Laws.{
  Reads, reading, wrapped-Reads, ok-injective, split_at-Reads, decode_uint-Reads,
  decode_times-Reads, decode_uint-append, split_at-append, decode_times-encode_all,
}
use aurion.Core.Canonical.{decode_hash-Reads}
use aurion.Core.Datum.{encode_vec_bytes}
use aurion.Core.RoundTrip.{length-fits, decode_hash-encode, decode_transaction-encode}
use aurion.Core.Tx.{IsTransaction, encode_transaction, decode_transaction}
use aurion.Core.TxCanonical.{decode_transaction-Reads}
use aurion.Rpc.Template.{
  BlockTemplate, IsTemplate, encode_template, decode_template, SubmitResult, accepted, rejected,
  IsSubmitResult, encode_submit_result, decode_submit_result, decode_submit_result_tagged,
  decode_accepted, decode_rejected, decode_string, check_utf8, IsText,
}

pub decode_template-encode :
    (t : BlockTemplate) (rest : Bytes)
    → IsTemplate t
    → decode_template (encode_template t ++ rest) ≡ ok (t, rest)
unfolding decode_template encode_template
decode_template-encode t rest is = rw (
  append_assoc,
  decode_uint-append 8 t.height _ is.height,
  append_assoc,
  decode_hash-encode t.previous_block_hash _ is.previous_block_hash,
  append_assoc,
  decode_hash-encode t.target _ is.target,
  append_assoc,
  decode_uint-append 8 t.timestamp _ is.timestamp,
  append_assoc,
  decode_uint-append 16 t.coinbase_subsidy _ is.coinbase_subsidy,
  append_assoc,
  decode_uint-append 16 t.total_fee _ is.total_fee,
  append_assoc,
  length-fits 4 (length t.transactions) is.count,
  decode_uint-append 4 (length t.transactions) _ is.count,
  decode_times-encode_all encode_transaction IsTransaction decode_transaction
      decode_transaction-encode t.transactions rest is.transactions,
)

pub decode_template-Reads :
    (cursor : Bytes) (z : BlockTemplate × Bytes)
    → IsBytes cursor
    → decode_template cursor ≡ ok z
    → Reads encode_template IsTemplate cursor z
unfolding decode_template encode_template
decode_template-Reads cursor z bytes h = reading _ (decode_uint-Reads 8) cursor z bytes h λ a r₁ h₁.
    reading _ decode_hash-Reads a.1 z r₁.bytes h₁ λ prev r₂ h₂.
      reading _ decode_hash-Reads prev.1 z r₂.bytes h₂ λ target r₃ h₃.
        reading _ (decode_uint-Reads 8) target.1 z r₃.bytes h₃ λ time r₄ h₄.
          reading _ (decode_uint-Reads 16) time.1 z r₄.bytes h₄ λ subsidy r₅ h₅.
            reading _ (decode_uint-Reads 16) subsidy.1 z r₅.bytes h₅ λ fee r₆ h₆.
              reading _ (decode_uint-Reads 4) fee.1 z r₆.bytes h₆ λ n r₇ h₇.
                reading _
                  (decode_times-Reads encode_transaction IsTransaction decode_transaction
                    decode_transaction-Reads n.0)
                  n.1 z r₇.bytes h₇
                  λ txs r₈ h₈.
                    let fit : length txs.0 < 256 ^ 4 = rw r₈.valid.0 r₇.valid in
                    subst (Reads encode_template IsTemplate cursor) (ok-injective h₈) (record {
                      written =
                          rw
                            (
                              append_assoc,
                              append_assoc,
                              append_assoc,
                              append_assoc,
                              append_assoc,
                              append_assoc,
                              append_assoc,
                              r₈.written,
                              length-fits 4 (length txs.0) fit,
                              r₈.valid.0,
                              r₇.written,
                              r₆.written,
                              r₅.written,
                              r₄.written,
                              r₃.written,
                              r₂.written,
                            )
                            r₁.written;
                      valid = record {
                        height = r₁.valid;
                        previous_block_hash = r₂.valid;
                        target = r₃.valid;
                        timestamp = r₄.valid;
                        coinbase_subsidy = r₅.valid;
                        total_fee = r₆.valid;
                        count = fit;
                        transactions = r₈.valid.1;
                      };
                      bytes = r₈.bytes;
                    })

pub decode_string-encode :
    (text rest : Bytes)
    → IsText text
    → decode_string (encode_vec_bytes text ++ rest) ≡ ok (text, rest)
unfolding decode_string encode_vec_bytes check_utf8
decode_string-encode text rest is = rw (
  append_assoc,
  length-fits 4 (length text) is.0.0,
  decode_uint-append 4 (length text) (text ++ rest) is.0.0,
  split_at-append text rest,
  is.1,
)

pub decode_string-Reads :
    (cursor : Bytes) (z : Bytes × Bytes)
    → IsBytes cursor
    → decode_string cursor ≡ ok z
    → Reads encode_vec_bytes IsText cursor z
unfolding decode_string encode_vec_bytes check_utf8
decode_string-Reads cursor z bytes h = reading _ (decode_uint-Reads 4) cursor z bytes h λ len r₁ h₁.
    reading _ (split_at-Reads len.0) len.1 z r₁.bytes h₁ λ text r₂ h₂.
      elim (Bool-cases (is_utf8 text.0)) [
        | inl good ↦
            let fit : length text.0 < 256 ^ 4 = rw r₂.valid.0 r₁.valid in
            subst (Reads encode_vec_bytes IsText cursor) (ok-injective (rw good at h₂)) (record {
              written =
                  rw (append_assoc, r₂.written, length-fits 4 (length text.0) fit, r₂.valid.0)
                    r₁.written;
              valid = ((fit, r₂.valid.1), good);
              bytes = r₂.bytes;
            })
        | inr bad ↦ let refused = (rw bad at h₂) in cc
      ]

pub decode_submit_result-encode :
    (result : SubmitResult) (rest : Bytes)
    → IsSubmitResult result
    → decode_submit_result (encode_submit_result result ++ rest) ≡ ok (result, rest)
unfolding decode_submit_result encode_submit_result next_byte decode_submit_result_tagged
    decode_accepted decode_rejected
decode_submit_result-encode (accepted block_hash height) rest is =
    rw (append_assoc, decode_hash-encode block_hash _ is.0, decode_uint-append 8 height rest is.1)
decode_submit_result-encode (rejected reason) rest is =
    rw (decode_string-encode reason rest is) refl

decode_accepted-Reads :
    (cursor : Bytes) (z : SubmitResult × Bytes)
    → IsBytes cursor
    → decode_accepted cursor ≡ ok z
    → Reads encode_submit_result IsSubmitResult (0x00 ∷ cursor) z
unfolding decode_accepted encode_submit_result
decode_accepted-Reads cursor z bytes h =
    reading _ decode_hash-Reads cursor z bytes h λ block_hash r₁ h₁.
      reading _ (decode_uint-Reads 8) block_hash.1 z r₁.bytes h₁ λ height r₂ h₂.
        subst (Reads encode_submit_result IsSubmitResult (0x00 ∷ cursor)) (ok-injective h₂)
          (record {
            written = ap (λ b. 0x00 ∷ b) (rw (append_assoc, r₂.written) r₁.written);
            valid = (r₁.valid, r₂.valid);
            bytes = r₂.bytes;
          })

pub decode_submit_result-Reads :
    (cursor : Bytes) (z : SubmitResult × Bytes)
    → IsBytes cursor
    → decode_submit_result cursor ≡ ok z
    → Reads encode_submit_result IsSubmitResult cursor z
unfolding decode_submit_result next_byte decode_submit_result_tagged decode_rejected
    encode_submit_result
decode_submit_result-Reads [] z bytes h = cc
decode_submit_result-Reads (tag ∷ cursor) z bytes h = elim (Bool-cases (tag == 0x00)) [
  | inl t ↦ rw ((==_iff tag 0x00).0 t) (decode_accepted-Reads cursor z bytes.1 (rw t at h))
  | inr f ↦ elim (Bool-cases (tag == 0x01)) [
    | inl t ↦ rw ((==_iff tag 0x01).0 t) (
        wrapped-Reads rejected 0x01 decode_string-Reads (λ a. refl) (λ a is. is) cursor z bytes.1
          (rw (f, t) at h))
    | inr f' ↦ let refused = rw (f, f') at h in cc
  ]
]
