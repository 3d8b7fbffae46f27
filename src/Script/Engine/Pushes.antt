-- ===== src/Script/Engine/Pushes.antt =====
-- Bytecode of pushes in `execute_bytecode` (crates/aurion-script/src/engine.rs).
use aurion.Prelude.{
  ℕ, ◌+◌, ◌≤◌, ◌<◌, ◌≡◌, refl, ◌∙◌, [], ◌∷◌, ◌++◌, List, All, length, take-append, drop-append,
  length-append, Bool-cases, inl, inr, true, false, leb, ltb, ◌&&◌, arith, if◌then◌else◌,
}
use aurion.Result.{ok, err}
use aurion.Bytes.{Bytes}
use aurion.Primitives.Hash.{Blake3}
use aurion.Script.Error.{max_op_count_exceeded}
use aurion.Script.Stack.{Stack, push, max_element_size, max_stack_depth}
use aurion.Script.Engine.{ScriptEngine, Ed25519, execute_byte, execute_bytecode, max_ops_per_script}
use aurion.Script.Engine.Loop.{execute_bytecode-step, execute_bytecode-nil}

pub push-room :
    (item : Bytes) (s : Stack)
    → length s < max_stack_depth
    → length item ≤ max_element_size
    → push item s ≡ ok (item ∷ s)
unfolding push
push-room item s h k = ground arith

-- The bytecode that pushes the items, and the stack it leaves.
abbrev pub push_all : List Bytes → Bytes
push_all [] = []
push_all (item ∷ items) = length item ∷ item ++ push_all items

abbrev pub pushed : List Bytes → Stack → Stack
pushed [] stack = stack
pushed (item ∷ items) stack = pushed items (item ∷ stack)

-- What one opcode can push.
abbrev pub IsOperand : Bytes → Type 0
IsOperand item = (1 ≤ length item) × (length item ≤ 75)

module _ (blake3 : Blake3) (ed25519 : Ed25519) where
  pub run_push :
      (item rest : Bytes) (engine : ScriptEngine) (n : ℕ)
      → 1 ≤ length item
      → length item ≤ 75
      → n < max_ops_per_script
      → length engine.stack < max_stack_depth
      → execute_bytecode blake3 ed25519 engine (length item ∷ item ++ rest) n
        ≡ execute_bytecode blake3 ed25519
            (record engine { stack = item ∷ engine.stack })
            rest
            (n + 1)
  unfolding execute_byte
  run_push item rest engine n low high room depth =
      let within : (leb max_ops_per_script n) ≡ false = ground arith in
      let pushes : (leb 0x01 (length item) && leb (length item) 0x4b) ≡ true = ground arith in
      let long : ltb (length (item ++ rest)) (length item) ≡ false =
        (rw (length-append item rest) (ground arith)) in
      rw
        (
          execute_bytecode-step blake3 ed25519 engine (length item) (item ++ rest) n,
          within,
          pushes,
          long,
          take-append item rest,
          drop-append item rest,
          push-room item engine.stack depth (omega arith),
        )
        refl

  -- Every push counts as an operation: bytecode that pushes items of 1 to 75 bytes, however many, when n
  -- operations are counted, leaves all its items on the stack, the last on top, and counts one
  -- operation for each, if there are then at most 201; otherwise it is refused for its number of
  -- operations. At the start n is at most 201 and the stack has room for 201 - n items.
  pub execute_bytecode-push_all :
      (items : List Bytes) (engine : ScriptEngine) (n : ℕ)
      → All IsOperand items
      → n ≤ max_ops_per_script
      → length engine.stack + max_ops_per_script ≤ max_stack_depth + n
      → execute_bytecode blake3 ed25519 engine (push_all items) n ≡ (
          if leb (n + length items) max_ops_per_script
          then ok (n + length items, record engine { stack = pushed items engine.stack })
          else err (max_op_count_exceeded max_ops_per_script))
  execute_bytecode-push_all [] engine n are low depth =
      let within : leb (n + length {A = Bytes} []) max_ops_per_script ≡ true = ground arith in
      let none_left : n + length {A = Bytes} [] ≡ n = omega arith in
      rw (within, none_left) (execute_bytecode-nil blake3 ed25519 engine n)
  execute_bytecode-push_all (item ∷ items) engine n (small, are) low depth =
      let counted : n + length (item ∷ items) ≡ n + 1 + length items = omega arith in
      elim (Bool-cases (leb max_ops_per_script n)) [
        | inl full ↦
            let over : leb (n + length (item ∷ items)) max_ops_per_script ≡ false = ground arith in
            rw
              (
                execute_bytecode-step blake3 ed25519 engine (length item) (item ++ push_all items)
                    n,
                full,
                over,
              )
              refl
        | inr room ↦ rw counted (
            run_push item (push_all items) engine n small.0 small.1 (ground arith) (ground arith)
            ∙ execute_bytecode-push_all items (record engine { stack = item ∷ engine.stack })
                (n + 1) are (ground arith) (omega arith))
      ]
