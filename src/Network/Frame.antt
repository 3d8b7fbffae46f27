-- ===== src/Network/Frame.antt =====
-- crates/aurion-network/src/frame.rs and error.rs: a header of 52 bytes with a checksum, and a payload
pub mod Accepted
use aurion.Prelude.{
  ℕ, ◌*◌, ◌-◌, ◌%◌, ◌^◌, [], ◌∷◌, ◌++◌, Bool, not, ◌==◌, ltb, length, take, drop, replicate,
  if◌then◌else◌,
}
use aurion.Result.{Result, ok, err, guard, ◌>>=◌, ◌>>◌}
use aurion.Bytes.{Bytes, to_be, from_be, bytes_eq, codes}
use aurion.Text.{is_utf8}
use aurion.Primitives.Codec.{CodecError}
use aurion.Primitives.Hash.{Blake3}

-- `b"AUR\x01"`
abbrev pub magic_bytes : Bytes
magic_bytes = codes "AUR" ++ (0x01 ∷ [])

abbrev pub header_size : ℕ
header_size = 52

abbrev pub command_size : ℕ
command_size = 12

abbrev pub max_payload_size : ℕ
max_payload_size = 4 * 1024 * 1024

-- The texts are bytes; `CodecError` keeps the error that the source formats, and what the payload was
-- expected to be.
pub data NetworkError : Type 0 where
  incomplete_header : ℕ → NetworkError
  invalid_magic : Bytes → NetworkError
  command_too_long : Bytes → NetworkError
  invalid_command_encoding : NetworkError
  payload_too_large truncated_payload : ℕ → ℕ → NetworkError
  checksum_mismatch : NetworkError
  unexpected_command : Bytes → Bytes → NetworkError
  codec_error : CodecError → NetworkError

-- `cmd_raw[..end]`, up to the first zero
unfoldable pub until_zero : Bytes → Bytes
until_zero [] = []
until_zero (b ∷ bs) = let rest = until_zero bs in if b == 0 then [] else b ∷ rest

-- `[0u8; 12]` with the command copied to its start
unfoldable pub padded : Bytes → Bytes
padded command = command ++ replicate (command_size - length command) 0

module _ (blake3 : Blake3) where
  unfoldable pub pack_frame : Bytes → Bytes → Result NetworkError Bytes
  pack_frame command payload = do
    guard (not (ltb command_size (length command))) (command_too_long command)
    guard (not (ltb max_payload_size (length payload)))
        (payload_too_large (length payload) max_payload_size)
    ok (
        magic_bytes
        ++ (padded command
            ++ (to_be 4 (length payload % 2 ^ 32) ++ (blake3.hash payload ++ payload))))

  -- the tests of `unpack_frame` after the split of the header from the body
  unfoldable pub check_body : Bytes → Bytes → Bytes → Result NetworkError (Bytes × Bytes)
  check_body header body cmd_str = do
    let payload_len = from_be (take 4 (drop 16 header))
    guard (not (ltb max_payload_size payload_len)) (payload_too_large payload_len max_payload_size)
    guard (not (ltb (length body) payload_len)) (truncated_payload payload_len (length body))
    guard (bytes_eq (blake3.hash (take payload_len body)) (take 32 (drop 20 header)))
        checksum_mismatch
    ok (cmd_str, take payload_len body)

  unfoldable pub unpack_frame : Bytes → Result NetworkError (Bytes × Bytes)
  unpack_frame raw = do
    guard (not (ltb (length raw) header_size)) (incomplete_header (length raw))
    let header = take header_size raw
    let body = drop header_size raw
    guard (bytes_eq (take 4 header) magic_bytes) (invalid_magic (take 4 header))
    let cmd_str = until_zero (take 12 (drop 4 header))
    guard (is_utf8 cmd_str) invalid_command_encoding
    check_body header body cmd_str
