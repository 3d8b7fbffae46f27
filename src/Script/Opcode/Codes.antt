-- ===== src/Script/Opcode/Codes.antt =====
-- The codes of the opcodes (crates/aurion-script/src/opcode.rs).
use aurion.Prelude.{ℕ, ◌≡◌, refl, sym, some, ◌↔◌, arith}
use aurion.Script.Opcode.{
  OpCode, op_false, op_true, op_nop, op_verify, op_return, op_dup, op_drop, op_swap, op_equal,
  op_equal_verify, op_add, op_sub, op_hash256, op_check_sig, op_check_sig_verify,
  op_tx_inputs_count, op_current_input_idx, op_tx_outputs_count, op_tx_output_value,
  op_tx_output_script, op_tx_output_datum, op_tx_locktime, op_validation_height, from_u8, to_u8,
}

from_u8-to_u8 : (op : OpCode) → from_u8 (to_u8 op) ≡ some op
unfolding from_u8 to_u8
from_u8-to_u8 op_false = refl
from_u8-to_u8 op_true = refl
from_u8-to_u8 op_nop = refl
from_u8-to_u8 op_verify = refl
from_u8-to_u8 op_return = refl
from_u8-to_u8 op_dup = refl
from_u8-to_u8 op_drop = refl
from_u8-to_u8 op_swap = refl
from_u8-to_u8 op_equal = refl
from_u8-to_u8 op_equal_verify = refl
from_u8-to_u8 op_add = refl
from_u8-to_u8 op_sub = refl
from_u8-to_u8 op_hash256 = refl
from_u8-to_u8 op_check_sig = refl
from_u8-to_u8 op_check_sig_verify = refl
from_u8-to_u8 op_tx_inputs_count = refl
from_u8-to_u8 op_current_input_idx = refl
from_u8-to_u8 op_tx_outputs_count = refl
from_u8-to_u8 op_tx_output_value = refl
from_u8-to_u8 op_tx_output_script = refl
from_u8-to_u8 op_tx_output_datum = refl
from_u8-to_u8 op_tx_locktime = refl
from_u8-to_u8 op_validation_height = refl

to_u8-from_u8 : (b : ℕ) (op : OpCode) → from_u8 b ≡ some op → to_u8 op ≡ b
unfolding from_u8 to_u8
to_u8-from_u8 b op h = ground arith

-- A byte is decoded to an opcode exactly when it is the opcode's code.
pub from_u8_iff : (b : ℕ) (op : OpCode) → (from_u8 b ≡ some op) ↔ (to_u8 op ≡ b)
from_u8_iff b op = (λ h. to_u8-from_u8 b op h, λ h. rw (sym h) (from_u8-to_u8 op))
