-- ===== src/Script/Error.antt =====
-- crates/aurion-script/src/error.rs
use aurion.Prelude.{ℕ}

pub data ScriptError : Type 0 where
  stack_underflow : ScriptError
  stack_overflow : ℕ → ScriptError
  element_too_large : ℕ → ℕ → ScriptError
  max_op_count_exceeded : ℕ → ScriptError
  invalid_op_code : ℕ → ScriptError
  verify_failed equal_verify_failed op_return_triggered : ScriptError
  invalid_public_key invalid_signature : ScriptError
  empty_stack_on_termination script_failed arithmetic_overflow : ScriptError
  unexpected_eof context_unavailable : ScriptError
  index_out_of_bounds : ℕ → ScriptError
