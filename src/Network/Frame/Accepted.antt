-- ===== src/Network/Frame/Accepted.antt =====
-- Which bytes `unpack_frame` accepts (crates/aurion-network/src/frame.rs).
use mathlib.Core.Logic.{◌↔◌}
use aurion.Prelude.{
  ℕ, zero, suc, ◌+◌, ◌≤◌, ◌≡◌, refl, sym, ap, ◌∙◌, [], ◌∷◌, ◌++◌, append_assoc, All-append_left,
  All-append_right, not, ltb, true, false, length, take, drop, take-append-drop, length-take,
  length-drop, length-append, arith,
}
use aurion.Result.{ok, Ensures, returns, Ensures-bind, Ensures-guard, Ensures-value}
use aurion.Bytes.{Bytes, IsBytes, to_be, from_be, bytes_eq}
use aurion.Bytes.Laws.{length-to_be, from_be-to_be, to_be-from_be_of_length, bytes_eq_iff}
use aurion.Text.{is_utf8}
use aurion.Primitives.Hash.{Blake3}
use aurion.Network.Frame.{
  magic_bytes, header_size, max_payload_size, incomplete_header, invalid_magic,
  invalid_command_encoding, payload_too_large, truncated_payload, checksum_mismatch, until_zero,
  check_body, unpack_frame,
}

-- The bytes start with a frame: magic, a command field of 12 bytes that is the command up to its first
-- zero, the length of the payload, its checksum, and the payload, which has at most 4 MB.
pub record IsFrame (blake3 : Blake3) (raw command payload : Bytes) : Type 0 where
  pub field : Bytes
  pub more : Bytes
  pub field_size : length field ≡ 12
  pub shape :
      magic_bytes
        ++ (field ++ (to_be 4 (length payload) ++ (blake3.hash payload ++ (payload ++ more))))
      ≡ raw
  pub command_read : until_zero field ≡ command
  pub text : is_utf8 command ≡ true
  pub small : length payload ≤ max_payload_size

take_prefix : (n : ℕ) (xs ys : Bytes) → length xs ≡ n → take n (xs ++ ys) ≡ xs
take_prefix zero [] ys h = refl
take_prefix zero (x ∷ xs) ys h = absurd (omega arith)
take_prefix (suc n) [] ys h = absurd (omega arith)
take_prefix (suc n) (x ∷ xs) ys h = rw (take_prefix n xs ys (omega arith)) refl

drop_prefix : (n : ℕ) (xs ys : Bytes) → length xs ≡ n → drop n (xs ++ ys) ≡ ys
drop_prefix zero [] ys h = refl
drop_prefix zero (x ∷ xs) ys h = absurd (omega arith)
drop_prefix (suc n) [] ys h = absurd (omega arith)
drop_prefix (suc n) (x ∷ xs) ys h = drop_prefix n xs ys (omega arith)

drop_nil : (n : ℕ) → drop {A = ℕ} n [] ≡ []
drop_nil zero = refl
drop_nil (suc n) = refl

drop-drop : (k n m : ℕ) (xs : Bytes) → k ≡ n + m → drop k xs ≡ drop m (drop n xs)
drop-drop k zero m xs h = let same : k ≡ m = omega arith in rw same refl
drop-drop zero (suc n) m xs h = absurd (omega arith)
drop-drop (suc k) (suc n) m [] h = sym (drop_nil m)
drop-drop (suc k) (suc n) m (x ∷ xs) h = drop-drop k n m xs (omega arith)

take_all : (n : ℕ) (xs : Bytes) → length xs ≡ n → take n xs ≡ xs
take_all zero [] h = refl
take_all zero (x ∷ xs) h = absurd (omega arith)
take_all (suc n) [] h = refl
take_all (suc n) (x ∷ xs) h = rw (take_all n xs (omega arith)) refl

-- The four parts of a header of 52 bytes.
record Parts (header field len sum : Bytes) : Type 0 where
  magic_at : take 4 header ≡ magic_bytes
  field_at : take 12 (drop 4 header) ≡ field
  len_at : take 4 (drop 16 header) ≡ len
  sum_at : take 32 (drop 20 header) ≡ sum

Parts-of_header :
    (field len sum : Bytes)
    → length field ≡ 12
    → length len ≡ 4
    → length sum ≡ 32
    → Parts (magic_bytes ++ (field ++ (len ++ sum))) field len sum
Parts-of_header field len sum hf hl hs = record {
  magic_at = refl;
  field_at = take_prefix 12 field (len ++ sum) hf;
  len_at = rw (drop_prefix 12 field (len ++ sum) hf) (take_prefix 4 len sum hl);
  sum_at =
      rw
        (
          drop-drop 16 12 4 (field ++ (len ++ sum)) refl,
          drop_prefix 12 field (len ++ sum) hf,
          drop_prefix 4 len sum hl,
        )
        (take_all 32 sum hs);
}

regroup :
    (field len sum rest : Bytes)
    → (magic_bytes ++ (field ++ (len ++ sum))) ++ rest
      ≡ magic_bytes ++ (field ++ (len ++ (sum ++ rest)))
regroup field len sum rest =
    ap (λ (t : Bytes). magic_bytes ++ t)
      (append_assoc field (len ++ sum) rest
        ∙ ap (λ (t : Bytes). field ++ t) (append_assoc len sum rest))

header_length :
    (field len sum : Bytes)
    → length field ≡ 12
    → length len ≡ 4
    → length sum ≡ 32
    → length (magic_bytes ++ (field ++ (len ++ sum))) ≡ 52
header_length field len sum hf hl hs =
    rw (length-append field (len ++ sum), length-append len sum) (omega arith)

module _ (blake3 : Blake3) where
  pub unpack_frame-whole :
      (raw command payload : Bytes)
      → IsFrame blake3 raw command payload
      → unpack_frame blake3 raw ≡ ok (command, payload)
  unfolding unpack_frame check_body
  unpack_frame-whole raw command payload f =
      let len = to_be 4 (length payload) in
      let sum = blake3.hash payload in
      let header = magic_bytes ++ (f.field ++ (len ++ sum)) in
      let size : length header ≡ 52 =
        header_length f.field len sum f.field_size (length-to_be 4 _) (blake3.hash_size payload) in
      let split : header ++ (payload ++ f.more) ≡ raw =
        regroup f.field len sum (payload ++ f.more) ∙ f.shape in
      let parts =
        Parts-of_header f.field len sum f.field_size (length-to_be 4 _)
          (blake3.hash_size payload) in
      let declared : from_be len ≡ length payload =
        from_be-to_be 4 (length payload) (omega (arith, f.small)) in
      let head : take 52 raw ≡ header =
        rw (← split) (take_prefix 52 header (payload ++ f.more) size) in
      let body : drop 52 raw ≡ payload ++ f.more =
        rw (← split) (drop_prefix 52 header (payload ++ f.more) size) in
      let long : ltb (length raw) 52 ≡ false = rw (← split, length-append, size) (ground arith) in
      let enough : ltb (length (drop 52 raw)) (length payload) ≡ false =
        rw (body, length-append) (ground arith) in
      let within : ltb max_payload_size (length payload) ≡ false =
        let small = f.small in ground arith in
      let magic = (bytes_eq_iff magic_bytes magic_bytes).1 refl in
      let same = (bytes_eq_iff sum sum).1 refl in
      rw
        (
          unpack_frame,
          long,
          head,
          parts.magic_at,
          magic,
          parts.field_at,
          f.command_read,
          f.text,
          check_body,
          parts.len_at,
          declared,
          within,
          enough,
          body,
          take_prefix (length payload) payload f.more refl,
          parts.sum_at,
          same,
        )
        refl

take_bytes : (n : ℕ) (xs : Bytes) → IsBytes xs → IsBytes (take n xs)
take_bytes n xs h = All-append_left _ (take n xs) (drop n xs) (rw (take-append-drop n xs) h)

drop_bytes : (n : ℕ) (xs : Bytes) → IsBytes xs → IsBytes (drop n xs)
drop_bytes n xs h = All-append_right _ (take n xs) (drop n xs) (rw (take-append-drop n xs) h)

header_parts :
    (header : Bytes)
    → length header ≡ 52
    → take 4 header
        ++ (take 12 (drop 4 header) ++ (take 4 (drop 16 header) ++ take 32 (drop 20 header)))
      ≡ header
header_parts header size =
    let last : take 32 (drop 20 header) ≡ drop 20 header =
      take_all 32 (drop 20 header) (rw (length-drop 20 header) (omega arith)) in
    let third : take 4 (drop 16 header) ++ drop 20 header ≡ drop 16 header =
      rw (drop-drop 20 16 4 header refl) (take-append-drop 4 (drop 16 header)) in
    let second : take 12 (drop 4 header) ++ drop 16 header ≡ drop 4 header =
      rw (drop-drop 16 4 12 header refl) (take-append-drop 12 (drop 4 header)) in
    rw (last, third, second) (take-append-drop 4 header)

module _ (blake3 : Blake3) where
  found-IsFrame :
      (raw : Bytes)
      → IsBytes raw
      → 52 ≤ length raw
      → take 4 (take 52 raw) ≡ magic_bytes
      → is_utf8 (until_zero (take 12 (drop 4 (take 52 raw)))) ≡ true
      → from_be (take 4 (drop 16 (take 52 raw))) ≤ max_payload_size
      → from_be (take 4 (drop 16 (take 52 raw))) ≤ length (drop 52 raw)
      → blake3.hash (take (from_be (take 4 (drop 16 (take 52 raw)))) (drop 52 raw))
        ≡ take 32 (drop 20 (take 52 raw))
      → IsFrame blake3 raw
          (until_zero (take 12 (drop 4 (take 52 raw))))
          (take (from_be (take 4 (drop 16 (take 52 raw)))) (drop 52 raw))
  found-IsFrame raw bytes long magic text small enough sum =
      let header = take 52 raw in
      let body = drop 52 raw in
      let field = take 12 (drop 4 header) in
      let len = take 4 (drop 16 header) in
      let payload = take (from_be len) body in
      let size : length header ≡ 52 = length-take 52 raw long in
      let rest_size : length (drop 16 header) ≡ 36 = rw (length-drop 16 header, size) refl in
      let len_size : length len ≡ 4 = length-take 4 (drop 16 header) (omega arith) in
      let len_bytes =
        take_bytes 4 (drop 16 header) (drop_bytes 16 header (take_bytes 52 raw bytes)) in
      let back : to_be 4 (from_be len) ≡ len =
        (to_be-from_be_of_length 4 len len_bytes len_size).0 in
      let count : length payload ≡ from_be len = length-take (from_be len) body enough in
      let parts = rw magic at (header_parts header size) in
      record {
        field = field;
        more = drop (from_be len) body;
        field_size = length-take 12 (drop 4 header) (rw (length-drop 4 header, size) (omega arith));
        shape =
            rw (count, back, sum, take-append-drop (from_be len) body)
              (sym (regroup field len (take 32 (drop 20 header)) body)
                ∙ ap (λ (t : Bytes). t ++ body) parts
                ∙ take-append-drop 52 raw);
        command_read = refl;
        text = text;
        small = rw count small;
      }

  unpack_frame-IsFrame :
      (raw : Bytes)
      → IsBytes raw
      → Ensures (λ z. IsFrame blake3 raw z.0 z.1) (unpack_frame blake3 raw)
  unfolding unpack_frame check_body
  unpack_frame-IsFrame raw bytes =
      let header = take 52 raw in
      let body = drop 52 raw in
      let cmd_str = until_zero (take 12 (drop 4 header)) in
      let n = from_be (take 4 (drop 16 header)) in
      Ensures-bind
        (Ensures-guard (not (ltb (length raw) header_size)) (incomplete_header (length raw)))
        λ _ long.
          Ensures-bind
            (Ensures-guard (bytes_eq (take 4 header) magic_bytes) (invalid_magic (take 4 header)))
            λ _ magic.
              Ensures-bind (Ensures-guard (is_utf8 cmd_str) invalid_command_encoding) λ _ text.
                Ensures-bind
                  (Ensures-guard (not (ltb max_payload_size n))
                    (payload_too_large n max_payload_size))
                  λ _ small.
                    Ensures-bind
                      (Ensures-guard (not (ltb (length body) n))
                        (truncated_payload n (length body)))
                      λ _ enough.
                        Ensures-bind
                          (Ensures-guard
                            (bytes_eq (blake3.hash (take n body)) (take 32 (drop 20 header)))
                            checksum_mismatch)
                          λ _ same. returns (
                            found-IsFrame raw bytes (ground arith) ((bytes_eq_iff _ _).0 magic) text
                              (ground arith) (ground arith) ((bytes_eq_iff _ _).0 same))

  -- Bytes are accepted as a frame with a command and a payload exactly if they start with the magic
  -- bytes, a field of 12 bytes that holds the command up to its first zero, the length of the payload,
  -- its digest and the payload itself, if the command is UTF-8 and the payload has at most 4 MB.
  pub unpack_frame_iff :
      (raw command payload : Bytes)
      → IsBytes raw
      → (unpack_frame blake3 raw ≡ ok (command, payload)) ↔ IsFrame blake3 raw command payload
  unpack_frame_iff raw command payload bytes = (
    (λ h. Ensures-value _ (unpack_frame-IsFrame raw bytes) h),
    unpack_frame-whole blake3 raw command payload,
  )
