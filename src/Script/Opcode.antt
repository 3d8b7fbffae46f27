-- ===== src/Script/Opcode.antt =====
-- crates/aurion-script/src/opcode.rs
pub mod Codes
use aurion.Prelude.{ℕ, Option, none, some, ◌==◌, if◌then◌else◌}

pub data OpCode : Type 0 where
  op_false op_true op_nop op_verify op_return op_dup op_drop op_swap op_equal op_equal_verify :
      OpCode
  op_add op_sub op_hash256 op_check_sig op_check_sig_verify : OpCode
  op_tx_inputs_count op_current_input_idx op_tx_outputs_count op_tx_output_value : OpCode
  op_tx_output_script op_tx_output_datum op_tx_locktime op_validation_height : OpCode

unfoldable pub from_u8 : ℕ → Option OpCode
from_u8 byte =
    if byte == 0x00
    then some op_false
    else if byte == 0x51
    then some op_true
    else if byte == 0x61
    then some op_nop
    else if byte == 0x69
    then some op_verify
    else if byte == 0x6a
    then some op_return
    else if byte == 0x73
    then some op_dup
    else if byte == 0x75
    then some op_drop
    else if byte == 0x78
    then some op_swap
    else if byte == 0x87
    then some op_equal
    else if byte == 0x88
    then some op_equal_verify
    else if byte == 0x93
    then some op_add
    else if byte == 0x94
    then some op_sub
    else if byte == 0xaa
    then some op_hash256
    else if byte == 0xac
    then some op_check_sig
    else if byte == 0xad
    then some op_check_sig_verify
    else if byte == 0xc0
    then some op_tx_inputs_count
    else if byte == 0xc1
    then some op_current_input_idx
    else if byte == 0xc2
    then some op_tx_outputs_count
    else if byte == 0xc3
    then some op_tx_output_value
    else if byte == 0xc4
    then some op_tx_output_script
    else if byte == 0xc5
    then some op_tx_output_datum
    else if byte == 0xc6
    then some op_tx_locktime
    else if byte == 0xc7
    then some op_validation_height
    else none

-- `op as u8`
unfoldable pub to_u8 : OpCode → ℕ
to_u8 op_false = 0x00
to_u8 op_true = 0x51
to_u8 op_nop = 0x61
to_u8 op_verify = 0x69
to_u8 op_return = 0x6a
to_u8 op_dup = 0x73
to_u8 op_drop = 0x75
to_u8 op_swap = 0x78
to_u8 op_equal = 0x87
to_u8 op_equal_verify = 0x88
to_u8 op_add = 0x93
to_u8 op_sub = 0x94
to_u8 op_hash256 = 0xaa
to_u8 op_check_sig = 0xac
to_u8 op_check_sig_verify = 0xad
to_u8 op_tx_inputs_count = 0xc0
to_u8 op_current_input_idx = 0xc1
to_u8 op_tx_outputs_count = 0xc2
to_u8 op_tx_output_value = 0xc3
to_u8 op_tx_output_script = 0xc4
to_u8 op_tx_output_datum = 0xc5
to_u8 op_tx_locktime = 0xc6
to_u8 op_validation_height = 0xc7
