-- ===== src/Rpc/Frame.antt =====
-- crates/aurion-rpc/src/frame.rs and error.rs: frames of a length and a payload
pub mod RoundTrip
use aurion.Prelude.{ℕ, ◌*◌, ◌%◌, ◌^◌, ◌≡◌, ◌++◌, Bool, not, ltb, length}
use aurion.Result.{Result, ok, err, guard, map_err, ◌>>=◌, ◌>>◌}
use aurion.Bytes.{Bytes, to_be, from_be}
use aurion.Primitives.Codec.{CodecError}

abbrev pub max_rpc_frame_size : ℕ
max_rpc_frame_size = 4 * 1024 * 1024

-- The streams of tokio are not under the repository: `Io` has the operations that the source calls.
pub record Io : Type 1 where
  pub Reader : Type 0
  pub Writer : Type 0
  pub IoError : Type 0
  pub is_unexpected_eof : IoError → Bool
  pub read_exact : ℕ → Reader → Result IoError (Bytes × Reader)
  pub write_all : Bytes → Writer → Result IoError Writer
  pub flush : Writer → Result IoError Writer

-- What their documentation says of a success: `read_exact` takes as many bytes as it is asked for from
-- what is to come, `write_all` sends all its bytes. Any operation may fail.
pub record IoLaws (net : Io) : Type 0 where
  pub to_come : net.Reader → Bytes
  pub sent : net.Writer → Bytes
  pub read_exact-to_come :
      (n : ℕ) (reader : net.Reader) (z : Bytes × net.Reader)
      → net.read_exact n reader ≡ ok z
      → (z.0 ++ to_come z.1 ≡ to_come reader) × (length z.0 ≡ n)
  pub write_all-sent :
      (bytes : Bytes) (writer after : net.Writer)
      → net.write_all bytes writer ≡ ok after
      → sent after ≡ sent writer ++ bytes
  pub flush-sent :
      (writer after : net.Writer) → net.flush writer ≡ ok after → sent after ≡ sent writer

-- The texts are bytes; `Serialization` formats the codec's error.
pub data RpcError (IoError : Type 0) : Type 0 where
  io : IoError → RpcError IoError
  payload_too_large : ℕ → RpcError IoError
  serialization : CodecError → RpcError IoError
  connection_failed : IoError → RpcError IoError
  node_rejected : Bytes → RpcError IoError
  protocol_mismatch : RpcError IoError

module _ (net : Io) where
  -- `?` on a result of the streams
  abbrev pub from_io : {A : Type 0} → Result net.IoError A → Result (RpcError net.IoError) A
  from_io = map_err io

  unfoldable pub write_frame : Bytes → net.Writer → Result (RpcError net.IoError) net.Writer
  write_frame payload writer = do
    guard (not (ltb max_rpc_frame_size (length payload))) (payload_too_large (length payload))
    writer ← from_io (net.write_all (to_be 4 (length payload % 2 ^ 32)) writer)
    writer ← from_io (net.write_all payload writer)
    from_io (net.flush writer)

  unfoldable pub read_frame : net.Reader → Result (RpcError net.IoError) (Bytes × net.Reader)
  read_frame reader = do
    (len_buf, reader) ← from_io (net.read_exact 4 reader)
    let len = from_be len_buf
    guard (not (ltb max_rpc_frame_size len)) (payload_too_large len)
    from_io (net.read_exact len reader)
