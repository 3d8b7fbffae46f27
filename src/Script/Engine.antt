-- ===== src/Script/Engine.antt =====
-- crates/aurion-script/src/engine.rs and context.rs. The crate ed25519_dalek is not under the
-- repository: what the engine calls of it is the record `Ed25519`.
pub mod Limits
pub mod Loop
pub mod Pushes
pub mod Contract
use aurion.Prelude.{
  ℕ, zero, suc, ◌+◌, ◌^◌, [], ◌∷◌, length, take, drop, replicate, get_elem?, Bool, true, false, not,
  ◌&&◌, ◌||◌, Option, none, some, ◌==◌, ltb, leb, if◌then◌else◌,
}
use aurion.Result.{Result, ok, err, ok_or, guard, map_err, ◌>>=◌, ◌>>◌}
use aurion.Bytes.{Bytes, to_le, bytes_eq}
use aurion.Primitives.Hash.{Hash256, Blake3, digest, zero_hash}
use aurion.Primitives.Quantum.{Quantum}
use aurion.Core.Datum.{Datum, encode_datum}
use aurion.Core.Tx.{Transaction, TxOutput, sighash}
use aurion.Eutxo.State.{ExtendedUtxo}
use aurion.Script.Error.{
  ScriptError, max_op_count_exceeded, invalid_op_code, verify_failed, equal_verify_failed,
  op_return_triggered, empty_stack_on_termination, script_failed, arithmetic_overflow,
  unexpected_eof, context_unavailable, index_out_of_bounds,
}
use aurion.Script.Opcode.{
  OpCode, op_false, op_true, op_nop, op_verify, op_return, op_dup, op_drop, op_swap, op_equal,
  op_equal_verify, op_add, op_sub, op_hash256, op_check_sig, op_check_sig_verify,
  op_tx_inputs_count, op_current_input_idx, op_tx_outputs_count, op_tx_output_value,
  op_tx_output_script, op_tx_output_datum, op_tx_locktime, op_validation_height, from_u8,
}
use aurion.Script.Stack.{Stack, push, pop, dup, drop_top, swap}
use aurion.Script.Number.{add_ints, sub_ints, decode_u32_index}

abbrev pub max_ops_per_script : ℕ
max_ops_per_script = 201

pub record ScriptContext : Type 0 where
  pub tx : Transaction
  pub current_input_index : ℕ
  pub current_spent_utxo : ExtendedUtxo
  pub fee : Quantum
  pub validation_height : ℕ

pub record ScriptEngine : Type 0 where
  pub stack : Stack
  pub context : Option ScriptContext
  pub sighash : Hash256

-- `VerifyingKey::from_bytes(key).is_ok()`, and `key.verify_strict(message, signature).is_ok()`
pub record Ed25519 : Type 0 where
  pub accepts_key : Bytes → Bool
  pub verify_strict : Bytes → Bytes → Bytes → Bool

unfoldable pub verify_ed25519 : Ed25519 → Bytes → Bytes → Bytes → Bool
verify_ed25519 ed25519 pubkey_bytes sig_bytes message =
    if not (length pubkey_bytes == 32) || not (length sig_bytes == 64)
    then false
    else if not (ed25519.accepts_key pubkey_bytes)
    then false
    else ed25519.verify_strict pubkey_bytes message sig_bytes

unfoldable pub is_truthy : Bytes → Bool
is_truthy [] = false
is_truthy (byte ∷ bytes) = not (byte == 0) || is_truthy bytes

-- `vec![1]` for true and `vec![]` for false
abbrev pub script_bool : Bool → Bytes
script_bool b = if b then 1 ∷ [] else []

-- `u32::try_from(n)`, then `to_le_bytes`
unfoldable pub count_bytes : ℕ → Result ScriptError Bytes
count_bytes n = if leb (2 ^ 32) n then err arithmetic_overflow else ok (to_le 4 n)

abbrev pub context_of : ScriptEngine → Result ScriptError ScriptContext
context_of engine = ok_or engine.context context_unavailable

-- the output whose index is on top of the stack, and the items below
unfoldable pub indexed_output : ScriptEngine → Result ScriptError (TxOutput × Stack)
indexed_output engine = do
  ctx ← context_of engine
  (idx_bytes, rest) ← pop engine.stack
  idx ← decode_u32_index idx_bytes
  output ← ok_or (get_elem? ctx.tx.outputs idx) (index_out_of_bounds idx)
  ok (output, rest)

unfoldable pub datum_digest : Blake3 → Datum → Bytes
datum_digest blake3 Datum.none = replicate 32 0
datum_digest blake3 (Datum.hash h) = (digest blake3 (encode_datum (Datum.hash h))).as_bytes
datum_digest blake3 (Datum.inline bytes) =
    (digest blake3 (encode_datum (Datum.inline bytes))).as_bytes

module _ (blake3 : Blake3) (ed25519 : Ed25519) where
  -- `match op`: the stack after the opcode
  unfoldable pub execute_op : OpCode → ScriptEngine → Result ScriptError Stack
  execute_op op_false engine = push [] engine.stack
  execute_op op_true engine = push (1 ∷ []) engine.stack
  execute_op op_nop engine = ok engine.stack
  execute_op op_return engine = err op_return_triggered
  execute_op op_verify engine = do
    (item, rest) ← pop engine.stack
    guard (is_truthy item) verify_failed
    ok rest
  execute_op op_dup engine = dup engine.stack
  execute_op op_drop engine = drop_top engine.stack
  execute_op op_swap engine = swap engine.stack
  execute_op op_equal engine = do
    (a, below_a) ← pop engine.stack
    (b, rest) ← pop below_a
    push (script_bool (bytes_eq a b)) rest
  execute_op op_equal_verify engine = do
    (a, below_a) ← pop engine.stack
    (b, rest) ← pop below_a
    guard (bytes_eq a b) equal_verify_failed
    ok rest
  execute_op op_add engine = do
    (b_bytes, below_b) ← pop engine.stack
    (a_bytes, rest) ← pop below_b
    sum ← add_ints a_bytes b_bytes
    push sum rest
  execute_op op_sub engine = do
    (b_bytes, below_b) ← pop engine.stack
    (a_bytes, rest) ← pop below_b
    diff ← sub_ints a_bytes b_bytes
    push diff rest
  execute_op op_hash256 engine = do
    (item, rest) ← pop engine.stack
    push (digest blake3 item).as_bytes rest
  execute_op op_check_sig engine = do
    (pubkey_bytes, below) ← pop engine.stack
    (sig_bytes, rest) ← pop below
    push (script_bool (verify_ed25519 ed25519 pubkey_bytes sig_bytes engine.sighash.as_bytes)) rest
  execute_op op_check_sig_verify engine = do
    (pubkey_bytes, below) ← pop engine.stack
    (sig_bytes, rest) ← pop below
    guard (verify_ed25519 ed25519 pubkey_bytes sig_bytes engine.sighash.as_bytes) verify_failed
    ok rest
  execute_op op_tx_inputs_count engine = do
    ctx ← context_of engine
    count ← count_bytes (length ctx.tx.inputs)
    push count engine.stack
  execute_op op_current_input_idx engine = do
    ctx ← context_of engine
    idx ← count_bytes ctx.current_input_index
    push idx engine.stack
  execute_op op_tx_outputs_count engine = do
    ctx ← context_of engine
    count ← count_bytes (length ctx.tx.outputs)
    push count engine.stack
  execute_op op_tx_output_value engine = do
    (output, rest) ← indexed_output engine
    push (to_le 16 output.value) rest
  execute_op op_tx_output_script engine = do
    (output, rest) ← indexed_output engine
    push (digest blake3 output.locking_script).as_bytes rest
  execute_op op_tx_output_datum engine = do
    (output, rest) ← indexed_output engine
    push (datum_digest blake3 output.datum) rest
  execute_op op_tx_locktime engine = do
    ctx ← context_of engine
    push (to_le 8 ctx.tx.locktime) engine.stack
  execute_op op_validation_height engine = do
    ctx ← context_of engine
    push (to_le 8 ctx.validation_height) engine.stack

  -- One round of the loop after its count of operations: what is left to run, and the engine.
  unfoldable pub execute_byte : ℕ → Bytes → ScriptEngine → Result ScriptError (Bytes × ScriptEngine)
  execute_byte op_byte cursor engine =
      if leb 0x01 op_byte && leb op_byte 0x4b
      then (if ltb (length cursor) op_byte
          then err unexpected_eof
          else (push (take op_byte cursor) engine.stack >>= λ stack.
              ok (drop op_byte cursor, record engine { stack = stack })))
      else (ok_or (from_u8 op_byte) (invalid_op_code op_byte) >>= λ op.
          execute_op op engine >>= λ stack. ok (cursor, record engine { stack = stack }))

  -- `while !cursor.is_empty()`. Each round takes a byte off, so the length of the bytecode is fuel
  -- enough (Loop); the second clause stands for no run of the source.
  unfoldable pub execute_loop : ℕ → Bytes → ℕ → ScriptEngine → Result ScriptError (ℕ × ScriptEngine)
  execute_loop fuel [] op_count engine = ok (op_count, engine)
  execute_loop zero (op_byte ∷ cursor) op_count engine =
      err (max_op_count_exceeded max_ops_per_script)
  execute_loop (suc fuel) (op_byte ∷ cursor) op_count engine =
      elim (leb max_ops_per_script op_count) [
        | true ↦ err (max_op_count_exceeded max_ops_per_script)
        | false ↦ execute_byte op_byte cursor engine >>= λ next.
            execute_loop fuel next.0 (op_count + 1) next.1
      ]

  unfoldable pub execute_bytecode : ScriptEngine → Bytes → ℕ → Result ScriptError (ℕ × ScriptEngine)
  execute_bytecode engine bytecode op_count =
      execute_loop (length bytecode) bytecode op_count engine

  -- `ScriptEngine::new`
  unfoldable pub new_engine : Option ScriptContext → ScriptEngine
  new_engine none = record { stack = []; context = none; sighash = zero_hash }
  new_engine (some ctx) = record {
    stack = [];
    context = some ctx;
    sighash =
        if ltb ctx.current_input_index (length ctx.tx.inputs)
        then sighash blake3 ctx.tx ctx.current_input_index
        else zero_hash;
  }

  -- `ScriptEngine::verify`
  unfoldable pub verify : Bytes → Bytes → Hash256 → Result ScriptError (Unit {0})
  verify unlocking_script locking_script message = do
    (op_count, unlocked) ←
        execute_bytecode (record { stack = []; context = none; sighash = message }) unlocking_script
          0
    (_, engine) ← execute_bytecode unlocked locking_script op_count
    (top, _) ← map_err (λ _. empty_stack_on_termination) (pop engine.stack)
    guard (is_truthy top) script_failed

  unfoldable pub push_datum : Datum → Stack → Result ScriptError Stack
  push_datum Datum.none stack = ok stack
  push_datum (Datum.hash h) stack = push h.as_bytes stack
  push_datum (Datum.inline bytes) stack = push bytes stack

  unfoldable pub push_redeemer : Option Bytes → Stack → Result ScriptError Stack
  push_redeemer none stack = ok stack
  push_redeemer (some r) stack = push r stack

  -- step e: exactly one element, and it is true
  unfoldable pub contract_result : Stack → Bool
  contract_result (top ∷ []) = is_truthy top
  contract_result _ = false

  unfoldable pub execute_contract :
      ScriptEngine → Bytes → Bytes → Datum → Option Bytes → Result ScriptError Bool
  execute_contract engine locking_script unlocking_script datum redeemer = do
    with_datum ← push_datum datum []
    with_redeemer ← push_redeemer redeemer with_datum
    (op_count, unlocked) ←
        execute_bytecode (record engine { stack = with_redeemer }) unlocking_script 0
    (_, done) ← execute_bytecode unlocked locking_script op_count
    ok (contract_result done.stack)
