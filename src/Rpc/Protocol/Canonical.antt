-- ===== src/Rpc/Protocol/Canonical.antt =====
-- Which bytes are a request and which a response (crates/aurion-rpc/src/protocol.rs).
use mathlib.Core.Path.{subst}
use mathlib.Core.Logic.{◌↔◌}
use aurion.Prelude.{◌≡◌, ◌==◌, refl, [], ◌∷◌, ◌++◌, append_assoc, Bool-cases, inl, inr, ==_iff}
use aurion.Result.{ok}
use aurion.Bytes.{Bytes, IsBytes}
use aurion.Primitives.Codec.{decode_canonical, next_byte}
use aurion.Primitives.Codec.Laws.{
  Reads, reading, wrapped-Reads, ok-injective, decode_uint-Reads, decode_uint-append,
  decode_canonical_iff, decode_canonical-encode,
}
use aurion.Core.Canonical.{decode_hash-Reads, decode_vec_bytes-Reads}
use aurion.Core.RoundTrip.{decode_vec_bytes-encode, decode_hash-encode, decode_transaction-encode}
use aurion.Core.BlockRoundTrip.{decode_block-encode}
use aurion.Core.BlockCanonical.{decode_block-Reads}
use aurion.Core.TxCanonical.{decode_transaction-Reads}
use aurion.Rpc.Template.Canonical.{
  decode_template-encode, decode_template-Reads, decode_submit_result-encode,
  decode_submit_result-Reads, decode_string-encode, decode_string-Reads,
}
use aurion.Rpc.Protocol.{
  RpcRequest, get_block_template, submit_block, send_raw_transaction, get_tip_status,
  encode_request, decode_request, decode_request_tagged, IsRequest, TipStatus, encode_tip_status,
  decode_tip_status, IsTipStatus, RpcResponse, block_template, submit_block_result,
  transaction_accepted, tip_status, error, encode_response, decode_response, decode_response_tagged,
  IsResponse,
}

decode_request-encode :
    (request : RpcRequest) (rest : Bytes)
    → IsRequest request
    → decode_request (encode_request request ++ rest) ≡ ok (request, rest)
unfolding decode_request encode_request next_byte decode_request_tagged
decode_request-encode (get_block_template payout_address) rest is =
    rw (decode_vec_bytes-encode payout_address rest is) refl
decode_request-encode (submit_block block) rest is = rw (decode_block-encode block rest is) refl
decode_request-encode (send_raw_transaction tx) rest is =
    rw (decode_transaction-encode tx rest is) refl
decode_request-encode get_tip_status rest is = refl

decode_request-Reads :
    (cursor : Bytes) (z : RpcRequest × Bytes)
    → IsBytes cursor
    → decode_request cursor ≡ ok z
    → Reads encode_request IsRequest cursor z
unfolding decode_request next_byte decode_request_tagged encode_request
decode_request-Reads [] z bytes h = cc
decode_request-Reads (tag ∷ cursor) z bytes h = elim (Bool-cases (tag == 0x00)) [
  | inl t ↦ rw ((==_iff tag 0x00).0 t) (
      wrapped-Reads get_block_template 0x00 decode_vec_bytes-Reads (λ a. refl) (λ a is. is) cursor z
        bytes.1 (rw t at h))
  | inr f₀ ↦ elim (Bool-cases (tag == 0x01)) [
    | inl t ↦ rw ((==_iff tag 0x01).0 t) (
        wrapped-Reads submit_block 0x01 decode_block-Reads (λ a. refl) (λ a is. is) cursor z bytes.1
          (rw (f₀, t) at h))
    | inr f₁ ↦ elim (Bool-cases (tag == 0x02)) [
      | inl t ↦ rw ((==_iff tag 0x02).0 t) (
          wrapped-Reads send_raw_transaction 0x02 decode_transaction-Reads (λ a. refl) (λ a is. is)
            cursor z bytes.1 (rw (f₀, f₁, t) at h))
      | inr f₂ ↦ elim (Bool-cases (tag == 0x03)) [
        | inl t ↦ rw ((==_iff tag 0x03).0 t) (
            subst (Reads encode_request IsRequest (0x03 ∷ cursor))
              (ok-injective (rw (f₀, f₁, f₂, t) at h))
              (record { written = refl; valid = tt; bytes = bytes.1 }))
        | inr f₃ ↦ let refused = (rw (f₀, f₁, f₂, f₃) at h) in cc
      ]
    ]
  ]
]

-- A whole input of bytes decodes to a request exactly if it is the canonical encoding of that request
-- and the request is valid: what it carries is a valid block, a valid transaction or an address of fewer than
-- 2 ^ 32 bytes.
pub decode_canonical-IsRequest_iff :
    (bytes : Bytes) (request : RpcRequest)
    → IsBytes bytes
    → (decode_canonical decode_request bytes ≡ ok request)
      ↔ ((encode_request request ≡ bytes) × IsRequest request)
decode_canonical-IsRequest_iff =
    decode_canonical_iff encode_request IsRequest decode_request decode_request-encode
      decode_request-Reads

decode_tip_status-encode :
    (s : TipStatus) (rest : Bytes)
    → IsTipStatus s
    → decode_tip_status (encode_tip_status s ++ rest) ≡ ok (s, rest)
unfolding decode_tip_status encode_tip_status
decode_tip_status-encode s rest is = rw (
  append_assoc,
  decode_uint-append 8 s.height _ is.height,
  append_assoc,
  decode_hash-encode s.best_block_hash _ is.best_block_hash,
  decode_uint-append 8 s.mempool_size rest is.mempool_size,
)

decode_tip_status-Reads :
    (cursor : Bytes) (z : TipStatus × Bytes)
    → IsBytes cursor
    → decode_tip_status cursor ≡ ok z
    → Reads encode_tip_status IsTipStatus cursor z
unfolding decode_tip_status encode_tip_status
decode_tip_status-Reads cursor z bytes h =
    reading _ (decode_uint-Reads 8) cursor z bytes h λ a r₁ h₁.
      reading _ decode_hash-Reads a.1 z r₁.bytes h₁ λ b r₂ h₂.
        reading _ (decode_uint-Reads 8) b.1 z r₂.bytes h₂ λ c r₃ h₃.
          subst (Reads encode_tip_status IsTipStatus cursor) (ok-injective h₃) (record {
            written = rw (append_assoc, append_assoc, r₃.written, r₂.written) r₁.written;
            valid = record {
              height = r₁.valid;
              best_block_hash = r₂.valid;
              mempool_size = r₃.valid;
            };
            bytes = r₃.bytes;
          })

decode_response-encode :
    (response : RpcResponse) (rest : Bytes)
    → IsResponse response
    → decode_response (encode_response response ++ rest) ≡ ok (response, rest)
unfolding decode_response encode_response next_byte decode_response_tagged
decode_response-encode (block_template t) rest is = rw (decode_template-encode t rest is) refl
decode_response-encode (submit_block_result result) rest is =
    rw (decode_submit_result-encode result rest is) refl
decode_response-encode (transaction_accepted id) rest is = rw (decode_hash-encode id rest is) refl
decode_response-encode (tip_status s) rest is = rw (decode_tip_status-encode s rest is) refl
decode_response-encode (error reason) rest is = rw (decode_string-encode reason rest is) refl

decode_response-Reads :
    (cursor : Bytes) (z : RpcResponse × Bytes)
    → IsBytes cursor
    → decode_response cursor ≡ ok z
    → Reads encode_response IsResponse cursor z
unfolding decode_response next_byte decode_response_tagged encode_response
decode_response-Reads [] z bytes h = cc
decode_response-Reads (tag ∷ cursor) z bytes h = elim (Bool-cases (tag == 0x00)) [
  | inl t ↦ rw ((==_iff tag 0x00).0 t) (
      wrapped-Reads block_template 0x00 decode_template-Reads (λ a. refl) (λ a is. is) cursor z
        bytes.1 (rw t at h))
  | inr f₀ ↦ elim (Bool-cases (tag == 0x01)) [
    | inl t ↦ rw ((==_iff tag 0x01).0 t) (
        wrapped-Reads submit_block_result 0x01 decode_submit_result-Reads (λ a. refl) (λ a is. is)
          cursor z bytes.1 (rw (f₀, t) at h))
    | inr f₁ ↦ elim (Bool-cases (tag == 0x02)) [
      | inl t ↦ rw ((==_iff tag 0x02).0 t) (
          wrapped-Reads transaction_accepted 0x02 decode_hash-Reads (λ a. refl) (λ a is. is) cursor
            z bytes.1 (rw (f₀, f₁, t) at h))
      | inr f₂ ↦ elim (Bool-cases (tag == 0x03)) [
        | inl t ↦ rw ((==_iff tag 0x03).0 t) (
            wrapped-Reads tip_status 0x03 decode_tip_status-Reads (λ a. refl) (λ a is. is) cursor z
              bytes.1 (rw (f₀, f₁, f₂, t) at h))
        | inr f₃ ↦ elim (Bool-cases (tag == 0x04)) [
          | inl t ↦ rw ((==_iff tag 0x04).0 t) (
              wrapped-Reads error 0x04 decode_string-Reads (λ a. refl) (λ a is. is) cursor z bytes.1
                (rw (f₀, f₁, f₂, f₃, t) at h))
          | inr f₄ ↦ let refused = (rw (f₀, f₁, f₂, f₃, f₄) at h) in cc
        ]
      ]
    ]
  ]
]

-- A whole input of bytes decodes to a response exactly if it is the canonical encoding of that response
-- and the response is valid: its numbers, hashes and transactions fit their types, and a text in it is
-- UTF-8 of fewer than 2 ^ 32 bytes.
pub decode_canonical-IsResponse_iff :
    (bytes : Bytes) (response : RpcResponse)
    → IsBytes bytes
    → (decode_canonical decode_response bytes ≡ ok response)
      ↔ ((encode_response response ≡ bytes) × IsResponse response)
decode_canonical-IsResponse_iff =
    decode_canonical_iff encode_response IsResponse decode_response decode_response-encode
      decode_response-Reads

pub decode_canonical-encode_request :
    (request : RpcRequest)
    → IsRequest request
    → decode_canonical decode_request (encode_request request) ≡ ok request
decode_canonical-encode_request request is =
    decode_canonical-encode encode_request decode_request request
      (decode_request-encode request [] is)

pub decode_canonical-encode_response :
    (response : RpcResponse)
    → IsResponse response
    → decode_canonical decode_response (encode_response response) ≡ ok response
decode_canonical-encode_response response is =
    decode_canonical-encode encode_response decode_response response
      (decode_response-encode response [] is)
