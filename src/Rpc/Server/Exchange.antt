-- ===== src/Rpc/Server/Exchange.antt =====
-- A call of the client and the server's round for it (crates/aurion-rpc/src/server.rs and client.rs).
use aurion.Prelude.{
  ◌≤◌, ◌≡◌, refl, ◌∙◌, [], ◌++◌, append-nil, length, none, some, ◌⊎◌, inl, inr, Bool-cases, true,
  false,
}
use aurion.Result.{Result, ok, err}
use aurion.Bytes.{Bytes}
use aurion.Rpc.Frame.{Io, IoLaws, RpcError, io, max_rpc_frame_size, write_frame, read_frame}
use aurion.Rpc.Frame.RoundTrip.{
  Arrives, arrives, broken, Arrives-bind, frame_of, write_frame-Arrives, read_frame-Arrives,
}
use aurion.Rpc.Protocol.{
  RpcRequest, IsRequest, encode_request, RpcResponse, IsResponse, encode_response,
}
use aurion.Rpc.Protocol.Canonical.{
  decode_canonical-encode_request, decode_canonical-encode_response,
}
use aurion.Rpc.Server.{
  NodeRpcHandler, dispatch, Connection, Round, read_failed, answer_request, serve_round,
  send_request, receive_response,
}

-- The two ways in which something arrives or not.
Arrives-cases :
    {E A : Type 0} {P : A → Type 0} (r : Result (RpcError E) A)
    → Arrives P r
    → ((a : A) × (r ≡ ok a) × P a) ⊎ ((e : E) × (r ≡ err (io e)))
Arrives-cases _ (arrives h) = inl (_, refl, h)
Arrives-cases _ broken = inr (_, refl)

Arrives-ok : {E A : Type 0} {P : A → Type 0} {a : A} → Arrives {E = E} P (ok a) → P a
Arrives-ok (arrives h) = h

Arrives-value :
    {E A : Type 0} {P : A → Type 0} {a : A} (r : Result (RpcError E) A)
    → Arrives P r
    → r ≡ ok a
    → P a
Arrives-value r h e = Arrives-ok (rw e at h)

module _ (net : Io) (laws : IoLaws net) where
  send_request-Arrives :
      (request : RpcRequest) (writer : net.Writer)
      → length (encode_request request) ≤ max_rpc_frame_size
      → Arrives
          (λ after. laws.sent after ≡ laws.sent writer ++ frame_of (encode_request request))
          (send_request net request writer)
  unfolding send_request
  send_request-Arrives request writer h =
      write_frame-Arrives net laws (encode_request request) writer h

  receive_response-Arrives :
      (response : RpcResponse) (more : Bytes) (reader : net.Reader)
      → IsResponse response
      → length (encode_response response) ≤ max_rpc_frame_size
      → laws.to_come reader ≡ frame_of (encode_response response) ++ more
      → Arrives (λ got. got ≡ response) (receive_response net reader)
  unfolding receive_response
  receive_response-Arrives response more reader is h coming =
      Arrives-bind (read_frame-Arrives net laws (encode_response response) more reader h coming)
        λ z hz. rw (hz.0, decode_canonical-encode_response response is) (arrives refl)

  module _ (handler : NodeRpcHandler) where
    -- What a round does for a request: it sends the handler's response, and takes no more than the
    -- request's frame.
    pub record IsAnswered (request : RpcRequest) (conn : Connection net) (state : handler.State)
        (more : Bytes) (after_conn : Connection net) (after : handler.State) : Type 0 where
      pub taken : laws.to_come after_conn.reader ≡ more
      pub answered :
          laws.sent after_conn.writer
          ≡ laws.sent conn.writer ++ frame_of (encode_response (dispatch handler request state).0)
      pub state_after : after ≡ (dispatch handler request state).1

    -- How a round for a request ends: it answers the request; or nothing has happened, since the
    -- request's frame could not be read, because the peer has closed or the stream has failed; or the
    -- handler has done its work and the stream has failed while its response was written.
    pub data Serves (request : RpcRequest) (conn : Connection net) (state : handler.State)
        (more : Bytes) : Round net × handler.State → Type 0 where
      serves :
          {after_conn : Connection net} {after : handler.State}
          → IsAnswered request conn state more after_conn after
          → Serves request conn state more (ok (some after_conn), after)
      closes :
          {e : net.IoError}
          → read_frame net conn.reader ≡ err (io e)
          → net.is_unexpected_eof e ≡ true
          → Serves request conn state more (ok none, state)
      read_fails :
          {e : net.IoError}
          → read_frame net conn.reader ≡ err (io e)
          → net.is_unexpected_eof e ≡ false
          → Serves request conn state more (err (io e), state)
      write_fails :
          {e : net.IoError}
          → write_frame net (encode_response (dispatch handler request state).0) conn.writer
            ≡ err (io e)
          → Serves request conn state more (err (io e), (dispatch handler request state).1)

    -- If a valid request stands in a frame at the start of what is to come, and the request and the
    -- handler's response have at most 4 MB, then a round of the server answers it: it sends the frame of
    -- the handler's response, leaves what follows the request, and keeps the handler's new state. It
    -- ends in three other ways only. If reading the frame fails as at the end of a stream, it ends
    -- without an error; if reading fails otherwise, it ends with that error; in both the handler's
    -- state is as it was. If writing the handler's response fails, it ends with that error and the
    -- handler's new state.
    pub serve_round-Serves :
        (request : RpcRequest) (conn : Connection net) (state : handler.State) (more : Bytes)
        → IsRequest request
        → length (encode_request request) ≤ max_rpc_frame_size
        → length (encode_response (dispatch handler request state).0) ≤ max_rpc_frame_size
        → laws.to_come conn.reader ≡ frame_of (encode_request request) ++ more
        → Serves request conn state more (serve_round net handler conn state)
    unfolding serve_round answer_request read_failed
    serve_round-Serves request conn state more is small small' coming =
        let response = (dispatch handler request state).0 in
        let decoded = decode_canonical-encode_request request is in
        elim (Arrives-cases (read_frame net conn.reader)
          (read_frame-Arrives net laws (encode_request request) more conn.reader small coming)) [
            | inr (e, lost) ↦ elim (Bool-cases (net.is_unexpected_eof e)) [
              | inl eof ↦ rw (serve_round, lost, read_failed, eof) (closes lost eof)
              | inr other ↦ rw (serve_round, lost, read_failed, other) (read_fails lost other)
            ]
            | inl (z, at, got) ↦
                elim (Arrives-cases (write_frame net (encode_response response) conn.writer)
                  (write_frame-Arrives net laws (encode_response response) conn.writer small')) [
                    | inr (e, lost) ↦
                        rw (serve_round, at, got.0, decoded, answer_request, lost)
                          (write_fails lost)
                    | inl (writer, done, sent) ↦
                        rw (serve_round, at, got.0, decoded, answer_request, done)
                          (serves (record { taken = got.1; answered = sent; state_after = refl }))
                  ]
          ]

    went_on :
        {request : RpcRequest} {conn after_conn : Connection net} {state after : handler.State}
        {more : Bytes}
        → Serves request conn state more (ok (some after_conn), after)
        → IsAnswered request conn state more after_conn after
    went_on (serves h) = h

    -- A call: the client sends a valid request on a fresh connection, the server's round reads what the
    -- client has sent and goes on, and the client reads what the server has sent. Then the client gets
    -- the response of the handler, if both frames keep to 4 MB and the response is valid, or its stream
    -- fails.
    pub receive_response-serve_round :
        (request : RpcRequest) (client sent_by_client : net.Writer)
        (conn after_conn : Connection net) (state after : handler.State) (reader : net.Reader)
        → IsRequest request
        → length (encode_request request) ≤ max_rpc_frame_size
        → IsResponse (dispatch handler request state).0
        → length (encode_response (dispatch handler request state).0) ≤ max_rpc_frame_size
        → laws.sent client ≡ []
        → send_request net request client ≡ ok sent_by_client
        → laws.to_come conn.reader ≡ laws.sent sent_by_client
        → laws.sent conn.writer ≡ []
        → serve_round net handler conn state ≡ (ok (some after_conn), after)
        → laws.to_come reader ≡ laws.sent after_conn.writer
        → Arrives (λ got. got ≡ (dispatch handler request state).0) (receive_response net reader)
    receive_response-serve_round request client sent_by_client conn after_conn state after reader is
          small is' small' fresh sending heard fresh' served heard' =
        let response = (dispatch handler request state).0 in
        let sent =
          Arrives-value (send_request net request client)
            (send_request-Arrives request client small) sending in
        let sent' : laws.sent sent_by_client ≡ frame_of (encode_request request) =
          rw fresh at sent in
        let coming : laws.to_come conn.reader ≡ frame_of (encode_request request) ++ [] =
          rw append-nil (heard ∙ sent') in
        let round = serve_round-Serves request conn state [] is small small' coming in
        let answered = (went_on (rw served at round)).answered in
        let back : laws.to_come reader ≡ frame_of (encode_response response) ++ [] =
          rw append-nil (heard' ∙ (rw fresh' at answered)) in
        receive_response-Arrives response [] reader is' small' back
