-- ===== src/Core/BlockCanonical.antt =====
-- The same as Canonical for headers and blocks (crates/aurion-core/src/block.rs).
use mathlib.Core.Path.{subst}
use aurion.Prelude.{ℕ, [], ◌^◌, ◌<◌, ◌≡◌, ◌↔◌, append_assoc, length}
use aurion.Result.{ok}
use aurion.Bytes.{Bytes, IsBytes}
use aurion.Primitives.Codec.{at_least, decode_canonical}
use aurion.Primitives.Codec.Laws.{
  Reads, ok-injective, reading, at_least-eq-ok, decode_uint-Reads, decode_times-Reads,
  decode_canonical_iff,
}
use aurion.Core.Tx.{IsTransaction, encode_transaction, decode_transaction}
use aurion.Core.RoundTrip.{length-fits}
use aurion.Core.Canonical.{decode_hash-Reads}
use aurion.Core.TxCanonical.{decode_transaction-Reads}
use aurion.Core.Block.{
  BlockHeader, Block, IsHeader, IsBlockData, encode_header, decode_header, encode_block,
  decode_block,
}
use aurion.Core.BlockRoundTrip.{decode_block-encode}

-- The test for 28 bytes reads nothing.
at_least-Reads :
    (n : ℕ) (cursor : Bytes) (z : Unit {0} × Bytes)
    → IsBytes cursor
    → at_least n cursor ≡ ok z
    → Reads (λ _. []) (λ _. Unit) cursor z
at_least-Reads n cursor z bytes h =
    let same = at_least-eq-ok n cursor h in
    record { written = same; valid = tt; bytes = rw same bytes }

pub decode_header-Reads :
    (cursor : Bytes) (z : BlockHeader × Bytes)
    → IsBytes cursor
    → decode_header cursor ≡ ok z
    → Reads encode_header IsHeader cursor z
unfolding decode_header encode_header
decode_header-Reads cursor z bytes h = reading _ (decode_uint-Reads 4) cursor z bytes h λ v r₁ h₁.
    reading _ decode_hash-Reads v.1 z r₁.bytes h₁ λ prev r₂ h₂.
      reading _ decode_hash-Reads prev.1 z r₂.bytes h₂ λ root r₃ h₃.
        reading _ (at_least-Reads 28) root.1 z r₃.bytes h₃ λ long r₀ h₀.
          reading _ (decode_uint-Reads 8) long.1 z r₀.bytes h₀ λ time r₄ h₄.
            reading _ (decode_uint-Reads 4) time.1 z r₄.bytes h₄ λ b r₅ h₅.
              reading _ (decode_uint-Reads 8) b.1 z r₅.bytes h₅ λ n r₆ h₆.
                reading _ (decode_uint-Reads 8) n.1 z r₆.bytes h₆ λ t r₇ h₇.
                  subst (Reads encode_header IsHeader cursor) (ok-injective h₇) (record {
                    written =
                        rw
                          (
                            append_assoc, append_assoc, append_assoc, append_assoc, append_assoc,
                            append_assoc, r₇.written, r₆.written, r₅.written, r₄.written,
                            r₀.written, r₃.written, r₂.written,
                          )
                          r₁.written;
                    valid = record {
                      version = r₁.valid;
                      prev_block_hash = r₂.valid;
                      merkle_root = r₃.valid;
                      timestamp = r₄.valid;
                      bits = r₅.valid;
                      nonce = r₆.valid;
                      height = r₇.valid;
                    };
                    bytes = r₇.bytes;
                  })

pub decode_block-Reads :
    (cursor : Bytes) (z : Block × Bytes)
    → IsBytes cursor
    → decode_block cursor ≡ ok z
    → Reads encode_block IsBlockData cursor z
unfolding decode_block encode_block
decode_block-Reads cursor z bytes h = reading _ decode_header-Reads cursor z bytes h λ v r₁ h₁.
    reading _ (decode_uint-Reads 4) v.1 z r₁.bytes h₁ λ m r₂ h₂.
      reading _
        (decode_times-Reads encode_transaction IsTransaction decode_transaction
          decode_transaction-Reads m.0)
        m.1 z r₂.bytes h₂
        λ txs r₃ h₃.
          let fit : length txs.0 < 256 ^ 4 = rw r₃.valid.0 r₂.valid in
          subst (Reads encode_block IsBlockData cursor) (ok-injective h₃) (record {
            written =
                rw
                  (
                    append_assoc,
                    append_assoc,
                    r₃.written,
                    length-fits 4 (length txs.0) fit,
                    r₃.valid.0,
                    r₂.written,
                  )
                  r₁.written;
            valid = record { header = r₁.valid; count = fit; transactions = r₃.valid.1 };
            bytes = r₃.bytes;
          })

-- A whole input of bytes decodes to a block exactly if it is the canonical encoding of that block and the
-- block is valid: every field of the header and of the transactions fits its type and its limits.
pub decode_canonical-block_iff :
    (bytes : Bytes) (block : Block)
    → IsBytes bytes
    → (decode_canonical decode_block bytes ≡ ok block)
      ↔ ((encode_block block ≡ bytes) × IsBlockData block)
decode_canonical-block_iff =
    decode_canonical_iff encode_block IsBlockData decode_block decode_block-encode
      decode_block-Reads
