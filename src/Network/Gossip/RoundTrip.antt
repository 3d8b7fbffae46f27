-- ===== src/Network/Gossip/RoundTrip.antt =====
-- What a peer publishes, another one reads (crates/aurion-network/src/gossip.rs and frame.rs).
use aurion.Prelude.{
  ℕ, zero, suc, ◌-◌, ◌%◌, ◌^◌, ◌≤◌, ◌≡◌, refl, [], ◌∷◌, ◌++◌, append-nil, length, length-append,
  length-replicate, replicate, ltb, true, false, arith,
}
use aurion.Result.{ok}
use aurion.Bytes.{Bytes, to_be}
use aurion.Bytes.Laws.{bytes_eq_iff}
use aurion.Text.{is_utf8, well_formed, lead, tail_of}
use aurion.Primitives.Codec.Laws.{decode_canonical-encode}
use aurion.Primitives.Hash.{Blake3}
use aurion.Core.Block.{Block, IsBlockData, encode_block, decode_block}
use aurion.Core.BlockRoundTrip.{decode_block-encode}
use aurion.Core.RoundTrip.{decode_transaction-encode}
use aurion.Core.Tx.{Transaction, IsTransaction, encode_transaction, decode_transaction}
use aurion.Network.Frame.{
  magic_bytes, command_size, max_payload_size, until_zero, padded, pack_frame, unpack_frame,
}
use aurion.Network.Frame.Accepted.{IsFrame, unpack_frame-whole}
use aurion.Network.Gossip.{
  block_command, tx_command, block_frame, tx_frame, decode_block_frame, decode_tx_frame,
}

-- A command that fits its field: at most 12 bytes of UTF-8, none of them zero.
pub record IsCommand (command : Bytes) : Type 0 where
  pub size : length command ≤ command_size
  pub no_zero : until_zero command ≡ command
  pub text : is_utf8 command ≡ true

until_zero-padding :
    (command : Bytes) (n : ℕ) → until_zero (command ++ replicate n 0) ≡ until_zero command
unfolding until_zero
until_zero-padding [] zero = refl
until_zero-padding [] (suc n) = refl
until_zero-padding (b ∷ bs) n = rw (until_zero-padding bs n) refl

block_command-IsCommand : IsCommand block_command
unfolding until_zero is_utf8 well_formed lead tail_of
block_command-IsCommand = record { size = omega arith; no_zero = refl; text = refl }

tx_command-IsCommand : IsCommand tx_command
unfolding until_zero is_utf8 well_formed lead tail_of
tx_command-IsCommand = record { size = omega arith; no_zero = refl; text = refl }

module _ (blake3 : Blake3) where
  -- The frame of a command and a payload, which is read back.
  pub unpack_frame-pack_frame :
      (command payload : Bytes)
      → IsCommand command
      → length payload ≤ max_payload_size
      → (raw : Bytes) × (pack_frame blake3 command payload ≡ ok raw)
        × (unpack_frame blake3 raw ≡ ok (command, payload))
  unfolding pack_frame padded
  unpack_frame-pack_frame command payload is small =
      let body = to_be 4 (length payload % 2 ^ 32) ++ (blake3.hash payload ++ payload) in
      let raw = magic_bytes ++ (padded command ++ body) in
      let size = is.size in
      let short : ltb command_size (length command) ≡ false = ground arith in
      let fits : ltb max_payload_size (length payload) ≡ false = ground arith in
      let low : length payload % 2 ^ 32 ≡ length payload = omega arith in
      let frame : IsFrame blake3 raw command payload = record {
        field = padded command;
        more = [];
        field_size = rw (length-append, length-replicate) (omega arith);
        shape = rw (append-nil, low) refl;
        command_read = rw (until_zero-padding command (command_size - length command)) is.no_zero;
        text = is.text;
        small = small;
      } in
      (raw, rw (pack_frame, short, fits) refl, unpack_frame-whole blake3 raw command payload frame)

  -- A valid block whose encoding has at most 4 MB is published in a frame, and the peer that reads the
  -- frame gets the block.
  pub decode_block_frame-block_frame :
      (block : Block)
      → IsBlockData block
      → length (encode_block block) ≤ max_payload_size
      → (raw : Bytes) × (block_frame blake3 block ≡ ok raw)
        × (decode_block_frame blake3 raw ≡ ok block)
  unfolding block_frame decode_block_frame
  decode_block_frame-block_frame block is small =
      let (raw, packed, unpacked) =
        unpack_frame-pack_frame block_command (encode_block block) block_command-IsCommand small in
      let whole =
        decode_canonical-encode encode_block decode_block block (decode_block-encode block [] is) in
      (raw, packed, rw (unpacked, (bytes_eq_iff block_command block_command).1 refl, whole) refl)

  -- The same for a valid transaction.
  pub decode_tx_frame-tx_frame :
      (tx : Transaction)
      → IsTransaction tx
      → length (encode_transaction tx) ≤ max_payload_size
      → (raw : Bytes) × (tx_frame blake3 tx ≡ ok raw) × (decode_tx_frame blake3 raw ≡ ok tx)
  unfolding tx_frame decode_tx_frame
  decode_tx_frame-tx_frame tx is small =
      let (raw, packed, unpacked) =
        unpack_frame-pack_frame tx_command (encode_transaction tx) tx_command-IsCommand small in
      let whole =
        decode_canonical-encode encode_transaction decode_transaction tx
          (decode_transaction-encode tx [] is) in
      (raw, packed, rw (unpacked, (bytes_eq_iff tx_command tx_command).1 refl, whole) refl)
