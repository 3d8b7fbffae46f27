-- ===== src/Script/Engine/Limits.antt =====
-- No script exceeds the limits of the stack or of the count of operations, and none changes what
-- the engine was given (crates/aurion-script/src/engine.rs and stack.rs).
use aurion.Prelude.{
  ℕ, zero, suc, ◌+◌, ◌≤◌, ◌≡◌, refl, ◌∙◌, [], ◌∷◌, length, take, get_elem?, Bool, leb, ltb, ◌&&◌,
  Bool-cases, inl, inr, arith,
}
use aurion.Result.{
  Result, ok, ok_or, guard, ◌>>=◌, ◌>>◌, Ensures, returns, raises, Ensures-bind, Ensures-any,
}
use aurion.Bytes.{Bytes, bytes_eq, to_le}
use aurion.Primitives.Hash.{Blake3}
use aurion.Script.Error.{
  ScriptError, index_out_of_bounds, verify_failed, equal_verify_failed, invalid_op_code,
}
use aurion.Script.Number.{add_ints, sub_ints, decode_u32_index}
use aurion.Script.Opcode.{
  OpCode, op_false, op_true, op_nop, op_verify, op_return, op_dup, op_drop, op_swap, op_equal,
  op_equal_verify, op_add, op_sub, op_hash256, op_check_sig, op_check_sig_verify,
  op_tx_inputs_count, op_current_input_idx, op_tx_outputs_count, op_tx_output_value,
  op_tx_output_script, op_tx_output_datum, op_tx_locktime, op_validation_height, from_u8,
}
use aurion.Script.Stack.{
  Stack, IsStack, max_stack_depth, max_element_size, push, pop, peek, dup, drop_top, swap,
}
use aurion.Script.Engine.{
  ScriptEngine, Ed25519, verify_ed25519, is_truthy, count_bytes, script_bool, indexed_output,
  execute_op, execute_byte, execute_loop, execute_bytecode, max_ops_per_script, context_of,
}

push-IsStack : (item : Bytes) (s : Stack) → IsStack s → Ensures IsStack (push item s)
unfolding push
push-IsStack item s h = elim (Bool-cases (leb max_stack_depth (length s))) [
  | inl full ↦ rw full raises
  | inr room ↦ elim (Bool-cases (ltb max_element_size (length item))) [
    | inl big ↦ rw (room, big) raises
    | inr small ↦
        rw (room, small)
          (returns (record { depth = ground arith; sizes = (ground arith, h.sizes) }))
  ]
]

abbrev RestIsStack : {A : Type 0} → A × Stack → Type 0
RestIsStack p = IsStack p.1

pop-IsStack : (s : Stack) → IsStack s → Ensures RestIsStack (pop s)
unfolding pop
pop-IsStack [] h = raises
pop-IsStack (item ∷ s) h = returns (record { depth = omega arith; sizes = h.sizes.1 })

dup-IsStack : (s : Stack) → IsStack s → Ensures IsStack (dup s)
unfolding dup peek
dup-IsStack s h = Ensures-bind (Ensures-any (peek s)) λ top _. push-IsStack top s h

drop_top-IsStack : (s : Stack) → IsStack s → Ensures IsStack (drop_top s)
unfolding drop_top
drop_top-IsStack s h = Ensures-bind (pop-IsStack s h) λ p hp. returns hp

swap-IsStack : (s : Stack) → IsStack s → Ensures IsStack (swap s)
unfolding swap
swap-IsStack [] h = raises
swap-IsStack (a ∷ []) h = raises
swap-IsStack (a ∷ b ∷ s) h =
    returns (record { depth = h.depth; sizes = (h.sizes.1.0, (h.sizes.0, h.sizes.1.1)) })

indexed_output-IsStack :
    (engine : ScriptEngine) → IsStack engine.stack → Ensures RestIsStack (indexed_output engine)
unfolding indexed_output
indexed_output-IsStack engine h = Ensures-bind (Ensures-any (context_of engine)) λ ctx _.
    Ensures-bind (pop-IsStack engine.stack h) λ p hp.
      Ensures-bind (Ensures-any (decode_u32_index p.0)) λ idx _.
        Ensures-bind (Ensures-any (ok_or (get_elem? ctx.tx.outputs idx) (index_out_of_bounds idx)))
          λ output _. returns hp

-- A test, and then what keeps it.
tested : (b : Bool) (e : ScriptError) (s : Stack) → IsStack s → Ensures IsStack (guard b e >> ok s)
tested b e s h = Ensures-bind (Ensures-any (guard b e)) λ _ _. returns h

-- Two items off the stack, and then what keeps it.
pop_two :
    (f : Bytes → Bytes → Stack → Result ScriptError Stack)
    → ((a b : Bytes) (s : Stack) → IsStack s → Ensures IsStack (f a b s))
    → (s : Stack) → IsStack s
    → Ensures IsStack (pop s >>= λ p. pop p.1 >>= λ q. f p.0 q.0 q.1)
pop_two f keeps s h =
    Ensures-bind (pop-IsStack s h)
      λ p hp. Ensures-bind (pop-IsStack p.1 hp) λ q hq. keeps p.0 q.0 q.1 hq

-- A value that is computed, and then pushed.
computed :
    {A : Type 0} (r : Result ScriptError A) (item : A → Bytes) (s : Stack)
    → IsStack s
    → Ensures IsStack (r >>= λ a. push (item a) s)
computed r item s h = Ensures-bind (Ensures-any r) λ a _. push-IsStack (item a) s h

module _ (blake3 : Blake3) (ed25519 : Ed25519) where
  execute_op-IsStack :
      (op : OpCode) (engine : ScriptEngine)
      → IsStack engine.stack
      → Ensures IsStack (execute_op blake3 ed25519 op engine)
  unfolding execute_op
  execute_op-IsStack op_false engine h = push-IsStack [] engine.stack h
  execute_op-IsStack op_true engine h = push-IsStack (1 ∷ []) engine.stack h
  execute_op-IsStack op_nop engine h = returns h
  execute_op-IsStack op_return engine h = raises
  execute_op-IsStack op_verify engine h =
      Ensures-bind (pop-IsStack engine.stack h) λ p hp. tested (is_truthy p.0) verify_failed p.1 hp
  execute_op-IsStack op_dup engine h = dup-IsStack engine.stack h
  execute_op-IsStack op_drop engine h = drop_top-IsStack engine.stack h
  execute_op-IsStack op_swap engine h = swap-IsStack engine.stack h
  execute_op-IsStack op_equal engine h =
      pop_two (λ a b s. push (script_bool (bytes_eq a b)) s) (λ a b s k. push-IsStack _ s k)
        engine.stack h
  execute_op-IsStack op_equal_verify engine h =
      pop_two (λ a b s. guard (bytes_eq a b) equal_verify_failed >> ok s)
        (λ a b s k. tested (bytes_eq a b) equal_verify_failed s k) engine.stack h
  execute_op-IsStack op_add engine h =
      pop_two (λ b a s. add_ints a b >>= λ c. push c s)
        (λ b a s k. computed (add_ints a b) (λ c. c) s k) engine.stack h
  execute_op-IsStack op_sub engine h =
      pop_two (λ b a s. sub_ints a b >>= λ c. push c s)
        (λ b a s k. computed (sub_ints a b) (λ c. c) s k) engine.stack h
  execute_op-IsStack op_hash256 engine h =
      Ensures-bind (pop-IsStack engine.stack h) λ p hp. push-IsStack _ p.1 hp
  execute_op-IsStack op_check_sig engine h =
      pop_two (λ a b s. push (script_bool (verify_ed25519 ed25519 a b engine.sighash.as_bytes)) s)
        (λ a b s k. push-IsStack _ s k) engine.stack h
  execute_op-IsStack op_check_sig_verify engine h =
      pop_two
        (λ a b s. guard (verify_ed25519 ed25519 a b engine.sighash.as_bytes) verify_failed >> ok s)
        (λ a b s k. tested (verify_ed25519 ed25519 a b engine.sighash.as_bytes) verify_failed s k)
        engine.stack h
  execute_op-IsStack op_tx_inputs_count engine h =
      Ensures-bind (Ensures-any (context_of engine))
        λ ctx _. computed (count_bytes (length ctx.tx.inputs)) (λ c. c) engine.stack h
  execute_op-IsStack op_current_input_idx engine h =
      Ensures-bind (Ensures-any (context_of engine))
        λ ctx _. computed (count_bytes ctx.current_input_index) (λ c. c) engine.stack h
  execute_op-IsStack op_tx_outputs_count engine h =
      Ensures-bind (Ensures-any (context_of engine))
        λ ctx _. computed (count_bytes (length ctx.tx.outputs)) (λ c. c) engine.stack h
  execute_op-IsStack op_tx_output_value engine h =
      Ensures-bind (indexed_output-IsStack engine h) λ p hp. push-IsStack _ p.1 hp
  execute_op-IsStack op_tx_output_script engine h =
      Ensures-bind (indexed_output-IsStack engine h) λ p hp. push-IsStack _ p.1 hp
  execute_op-IsStack op_tx_output_datum engine h =
      Ensures-bind (indexed_output-IsStack engine h) λ p hp. push-IsStack _ p.1 hp
  execute_op-IsStack op_tx_locktime engine h =
      computed (context_of engine) (λ ctx. to_le 8 ctx.tx.locktime) engine.stack h
  execute_op-IsStack op_validation_height engine h =
      computed (context_of engine) (λ ctx. to_le 8 ctx.validation_height) engine.stack h

  -- What one round keeps of an engine.
  abbrev Kept : ScriptEngine → Bytes × ScriptEngine → Type 0
  Kept engine p =
      IsStack p.1.stack × (p.1.context ≡ engine.context) × (p.1.sighash ≡ engine.sighash)

  execute_byte-Kept :
      (b : ℕ) (cursor : Bytes) (engine : ScriptEngine)
      → IsStack engine.stack
      → Ensures (Kept engine) (execute_byte blake3 ed25519 b cursor engine)
  unfolding execute_byte
  execute_byte-Kept b cursor engine h = elim (Bool-cases (leb 0x01 b && leb b 0x4b)) [
    | inl pushes ↦ elim (Bool-cases (ltb (length cursor) b)) [
      | inl short ↦ rw (pushes, short) raises
      | inr long ↦
          rw (pushes, long)
            (Ensures-bind (push-IsStack (take b cursor) engine.stack h)
              λ s k. returns (k, refl, refl))
    ]
    | inr no_push ↦ rw no_push (
        Ensures-bind (Ensures-any (ok_or (from_u8 b) (invalid_op_code b)))
          λ o _. Ensures-bind (execute_op-IsStack o engine h) λ s k. returns (k, refl, refl))
  ]

  -- What a run of bytecode keeps: the limits of the stack, what the engine was given, and a count of
  -- operations that grows and stays within its limit.
  pub record Within (engine : ScriptEngine) (op_count : ℕ) (result : ℕ × ScriptEngine)
      : Type 0 where
    pub stack : IsStack result.1.stack
    pub context : result.1.context ≡ engine.context
    pub sighash : result.1.sighash ≡ engine.sighash
    pub grows : op_count ≤ result.0
    pub bounded : result.0 ≤ max_ops_per_script

  later :
      (engine : ScriptEngine) (n : ℕ) (next : Bytes × ScriptEngine)
      (r : Result ScriptError (ℕ × ScriptEngine))
      → Kept engine next
      → Ensures (Within next.1 (n + 1)) r
      → Ensures (Within engine n) r
  later engine n next _ k raises = raises
  later engine n next _ k (returns w) = returns (record {
    stack = w.stack;
    context = w.context ∙ k.1;
    sighash = w.sighash ∙ k.2;
    grows = (let g = w.grows in omega arith);
    bounded = w.bounded;
  })

  execute_loop-Within :
      (fuel : ℕ) (bytecode : Bytes) (op_count : ℕ) (engine : ScriptEngine)
      → IsStack engine.stack
      → op_count ≤ max_ops_per_script
      → Ensures (Within engine op_count) (execute_loop blake3 ed25519 fuel bytecode op_count engine)
  unfolding execute_loop
  execute_loop-Within fuel [] n engine h bound =
      returns
        (record { stack = h; context = refl; sighash = refl; grows = omega arith; bounded = bound })
  execute_loop-Within zero (b ∷ cursor) n engine h bound = raises
  execute_loop-Within (suc fuel) (b ∷ cursor) n engine h bound =
      elim (Bool-cases (leb max_ops_per_script n)) [
        | inl full ↦ rw (execute_loop, full) raises
        | inr room ↦
            rw (execute_loop, room)
              (Ensures-bind (execute_byte-Kept b cursor engine h) (λ next k.
                later engine n next _ k
                  (execute_loop-Within fuel next.0 (n + 1) next.1 k.0 (ground arith))))
      ]

  -- A run of bytecode that starts within these limits and succeeds leaves at most 1024 items of at
  -- most 520 bytes each, the context and the message it was given, and has counted at most 201 operations, those counted before
  -- included.
  pub execute_bytecode-Within :
      (engine : ScriptEngine) (bytecode : Bytes) (op_count : ℕ)
      → IsStack engine.stack
      → op_count ≤ max_ops_per_script
      → Ensures (Within engine op_count) (execute_bytecode blake3 ed25519 engine bytecode op_count)
  unfolding execute_bytecode
  execute_bytecode-Within engine bytecode n h bound =
      execute_loop-Within (length bytecode) bytecode n engine h bound
