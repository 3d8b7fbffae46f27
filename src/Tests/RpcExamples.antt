-- ===== src/Tests/RpcExamples.antt =====
-- A request over streams in memory, and bytes that are a request and a response.
use aurion.Prelude.{
  ℕ, ◌+◌, ◌≡◌, ◌↔◌, refl, [], ◌∷◌, ◌++◌, true, false, ltb, length, take, drop, take-append-drop,
  length-take, Bool-cases, inl, inr, arith, some, if◌then◌else◌,
}
use aurion.Result.{ok, err}
use aurion.Bytes.{Bytes, to_be, to_le, from_be, from_le}
use aurion.Text.{Position, well_formed, lead, tail_of}
use aurion.Primitives.Codec.{decode_canonical, next_byte}
use aurion.Primitives.Hash.{from_bytes}
use aurion.Rpc.Template.{rejected}
use aurion.Rpc.Protocol.{
  get_tip_status, encode_request, decode_request, decode_request_tagged, IsRequest, RpcResponse,
  error, encode_response, decode_response, IsResponse, encode_tip_status,
}
use aurion.Rpc.Protocol.Canonical.{decode_canonical-IsRequest_iff, decode_canonical-IsResponse_iff}
use aurion.Rpc.Frame.{Io, IoLaws, write_frame, read_frame}
use aurion.Rpc.Frame.RoundTrip.{Arrives, frame_of}
use aurion.Rpc.Server.{
  NodeRpcHandler, Connection, dispatch, answer_request, serve_round, send_request, receive_response,
}
use aurion.Rpc.Server.Exchange.{Serves, serve_round-Serves, receive_response-serve_round}
use aurion.Tests.Fixtures.{sevens, sevens-IsHash}

abbrev memory_streams : Io
memory_streams = record {
  Reader = Bytes;
  Writer = Bytes;
  IoError = Unit;
  is_unexpected_eof = λ e. true;
  read_exact =
      λ n reader. if ltb (length reader) n then err tt else ok (take n reader, drop n reader);
  write_all = λ bytes writer. ok (writer ++ bytes);
  flush = λ writer. ok writer;
}

read_exact_laws :
    (n : ℕ) (reader : Bytes) (z : Bytes × Bytes)
    → memory_streams.read_exact n reader ≡ ok z
    → (z.0 ++ z.1 ≡ reader) × (length z.0 ≡ n)
read_exact_laws n reader z h = elim (Bool-cases (ltb (length reader) n)) [
  | inl short ↦ let refused = (rw short at h) in cc
  | inr long ↦ ground (arith, take-append-drop n reader, length-take n reader)
]

abbrev memory_streams_laws : IoLaws memory_streams
memory_streams_laws = record {
  to_come = λ reader. reader;
  sent = λ writer. writer;
  read_exact-to_come = read_exact_laws;
  write_all-sent = λ bytes writer after e. cc;
  flush-sent = λ writer after e. cc;
}

-- A node that counts the questions after its tip.
abbrev counter : NodeRpcHandler
counter = record {
  State = ℕ;
  handle_get_block_template = λ address n. (err [], n);
  handle_submit_block = λ block n. (ok (rejected []), n);
  handle_send_raw_tx = λ tx n. (ok (from_bytes sevens), n);
  handle_get_tip_status = λ n.
      (ok (record { height = 7; best_block_hash = from_bytes sevens; mempool_size = 3 }), n + 1);
}

abbrev asked : Bytes
asked = frame_of (encode_request get_tip_status)

abbrev conn : Connection memory_streams
conn = record { reader = asked; writer = [] }

asked-bytes : asked ≡ 0 ∷ 0 ∷ 0 ∷ 1 ∷ 3 ∷ []
unfolding encode_request to_be to_le
asked-bytes = refl

serve_round-Serves_example :
    Serves memory_streams memory_streams_laws counter get_tip_status conn 4 []
      (serve_round memory_streams counter conn 4)
unfolding encode_request encode_response encode_tip_status dispatch to_be to_le
serve_round-Serves_example =
    serve_round-Serves memory_streams memory_streams_laws counter get_tip_status conn 4 [] tt
      (omega arith) (omega arith) refl

decode_canonical-IsRequest_iff_example :
    (decode_canonical decode_request (3 ∷ []) ≡ ok get_tip_status)
    ↔ ((encode_request get_tip_status ≡ 3 ∷ []) × IsRequest get_tip_status)
decode_canonical-IsRequest_iff_example =
    decode_canonical-IsRequest_iff (3 ∷ []) get_tip_status (omega arith, tt)

decode_canonical-IsResponse_iff_example :
    (decode_canonical decode_response (4 ∷ 0 ∷ 0 ∷ 0 ∷ 1 ∷ 65 ∷ []) ≡ ok (error (65 ∷ []))) ↔ (
      (encode_response (error (65 ∷ [])) ≡ 4 ∷ 0 ∷ 0 ∷ 0 ∷ 1 ∷ 65 ∷ [])
      × IsResponse (error (65 ∷ [])))
decode_canonical-IsResponse_iff_example =
    decode_canonical-IsResponse_iff (4 ∷ 0 ∷ 0 ∷ 0 ∷ 1 ∷ 65 ∷ []) (error (65 ∷ []))
      (omega arith, (omega arith, (omega arith, (omega arith, (omega arith, (omega arith, tt))))))

-- Euro sign, and an overlong form.
utf8_euro : well_formed Position.between (0xE2 ∷ 0x82 ∷ 0xAC ∷ []) ≡ true
unfolding well_formed lead tail_of
utf8_euro = refl

utf8_overlong : well_formed Position.between (0xE0 ∷ 0x82 ∷ 0xAC ∷ []) ≡ false
unfolding well_formed lead tail_of
utf8_overlong = refl

abbrev tip_answer : RpcResponse
tip_answer = (dispatch counter get_tip_status 4).0

abbrev answered : Connection memory_streams
answered = record { reader = []; writer = frame_of (encode_response tip_answer) }

sent-asked : send_request memory_streams get_tip_status [] ≡ ok asked
unfolding send_request write_frame encode_request
sent-asked = refl

served-answered : serve_round memory_streams counter conn 4 ≡ (ok (some answered), 5)
unfolding serve_round answer_request read_frame write_frame encode_request encode_response
    encode_tip_status dispatch to_be to_le from_be from_le decode_request decode_request_tagged
    next_byte decode_canonical
served-answered = refl

receive_response-serve_round_example :
    Arrives
      (λ got. got ≡ tip_answer)
      (receive_response memory_streams (frame_of (encode_response tip_answer)))
unfolding encode_request encode_response encode_tip_status dispatch to_be to_le
receive_response-serve_round_example =
    receive_response-serve_round memory_streams memory_streams_laws counter get_tip_status [] asked
      conn answered 4 5 (frame_of (encode_response tip_answer)) tt (omega arith)
      (record { height = omega arith; best_block_hash = sevens-IsHash; mempool_size = omega arith })
      (omega arith) refl sent-asked refl refl served-answered refl
