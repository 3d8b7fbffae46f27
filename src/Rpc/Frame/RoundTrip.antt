-- ===== src/Rpc/Frame/RoundTrip.antt =====
-- A frame that is written is the one that is read (crates/aurion-rpc/src/frame.rs).
use aurion.Prelude.{
  ℕ, ◌%◌, ◌^◌, ◌<◌, ◌≤◌, ◌≡◌, refl, sym, ◌∙◌, [], ◌∷◌, ◌++◌, append_assoc, length, not, ltb, true,
  arith,
}
use aurion.Result.{Result, ok, err, map_err, ◌>>=◌}
use aurion.Bytes.{Bytes, to_be, from_be}
use aurion.Bytes.Laws.{length-to_be, from_be-to_be}
use aurion.Rpc.Frame.{Io, IoLaws, RpcError, io, max_rpc_frame_size, write_frame, read_frame}

-- A value with `P`, or an error of the stream and no other.
pub data Arrives {E A : Type 0} (P : A → Type 0) : Result (RpcError E) A → Type 0 where
  arrives : {a : A} → P a → Arrives P (ok a)
  broken : {e : E} → Arrives P (err (io e))

pub Arrives-bind :
    {E A B : Type 0} {P : A → Type 0} {Q : B → Type 0} {r : Result (RpcError E) A}
    {f : A → Result (RpcError E) B}
    → Arrives P r
    → ((a : A) → P a → Arrives Q (f a))
    → Arrives Q (r >>= f)
Arrives-bind (arrives h) k = k _ h
Arrives-bind broken k = broken

from_io-Arrives :
    {E A : Type 0} {P : A → Type 0} (r : Result E A)
    → ((a : A) → r ≡ ok a → P a)
    → Arrives P (map_err io r)
from_io-Arrives (ok a) law = arrives (law a refl)
from_io-Arrives (err e) law = broken

append-injective :
    (xs as' : Bytes) {ys bs : Bytes}
    → xs ++ ys ≡ as' ++ bs
    → length xs ≡ length as'
    → (xs ≡ as') × (ys ≡ bs)
append-injective [] [] h l = (refl, h)
append-injective [] (a ∷ as') h l = absurd (omega arith)
append-injective (x ∷ xs) [] h l = absurd (omega arith)
append-injective (x ∷ xs) (a ∷ as') {ys} {bs} h l =
    let first : x ≡ a = cc in
    let tails : xs ++ ys ≡ as' ++ bs = cc in
    let (same, rest) = append-injective xs as' tails (omega arith) in (rw (first, same) refl, rest)

-- The bytes of a frame.
abbrev pub frame_of : Bytes → Bytes
frame_of payload = to_be 4 (length payload % 2 ^ 32) ++ payload

fits_length :
    (n : ℕ)
    → n ≤ max_rpc_frame_size
    → (n % 2 ^ 32 ≡ n) × (n < 256 ^ 4) × (not (ltb max_rpc_frame_size n) ≡ true)
fits_length n h = (omega arith, omega arith, ground arith)

module _ (net : Io) (laws : IoLaws net) where
  pub write_frame-Arrives :
      (payload : Bytes) (writer : net.Writer)
      → length payload ≤ max_rpc_frame_size
      → Arrives
          (λ after. laws.sent after ≡ laws.sent writer ++ frame_of payload)
          (write_frame net payload writer)
  unfolding write_frame
  write_frame-Arrives payload writer h =
      let (same, small, passes) = fits_length (length payload) h in
      let prefix = to_be 4 (length payload % 2 ^ 32) in
      rw passes (
        Arrives-bind
          (from_io-Arrives (net.write_all prefix writer) (laws.write_all-sent prefix writer))
          λ a ha.
            Arrives-bind (from_io-Arrives (net.write_all payload a) (laws.write_all-sent payload a))
              λ b hb.
                from_io-Arrives (net.flush b)
                  (λ c hc. laws.flush-sent b c hc ∙ rw (hb, ha, append_assoc) refl))

  pub read_frame-Arrives :
      (payload more : Bytes) (reader : net.Reader)
      → length payload ≤ max_rpc_frame_size
      → laws.to_come reader ≡ frame_of payload ++ more
      → Arrives (λ z. (z.0 ≡ payload) × (laws.to_come z.1 ≡ more)) (read_frame net reader)
  unfolding read_frame
  read_frame-Arrives payload more reader h coming =
      let (same, small, passes) = fits_length (length payload) h in
      Arrives-bind (from_io-Arrives (net.read_exact 4 reader) (laws.read_exact-to_come 4 reader))
        λ z hz.
          let prefix = to_be 4 (length payload % 2 ^ 32) in
          let all : laws.to_come reader ≡ prefix ++ (payload ++ more) = rw append_assoc at coming in
          let (head, tail) =
            append-injective z.0 prefix (hz.0 ∙ all) (hz.1 ∙ sym (length-to_be 4 _)) in
          let declared : from_be z.0 ≡ length payload =
            rw (head, same) (from_be-to_be 4 (length payload) small) in
          rw (declared, passes)
            (from_io-Arrives (net.read_exact (length payload) z.1) λ y e.
              let hy = laws.read_exact-to_come (length payload) z.1 y e in
              append-injective y.0 payload (hy.0 ∙ tail) hy.1)
