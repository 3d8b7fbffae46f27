-- ===== src/Script/Engine/Loop.antt =====
-- The loop of `execute_bytecode` ends (crates/aurion-script/src/engine.rs): each round takes a byte
-- off the cursor.
use aurion.Prelude.{
  ℕ, zero, suc, ◌+◌, ◌≤◌, ◌≡◌, refl, [], ◌∷◌, length, take, length-drop, leb, ltb, ◌&&◌, Bool-cases,
  inl, inr, arith, if◌then◌else◌,
}
use aurion.Result.{
  Result, ok, err, ok_or, ◌>>=◌, Ensures, returns, raises, Ensures-bind, Ensures-any,
}
use aurion.Bytes.{Bytes}
use aurion.Primitives.Hash.{Blake3}
use aurion.Script.Error.{ScriptError, invalid_op_code, max_op_count_exceeded}
use aurion.Script.Opcode.{from_u8}
use aurion.Script.Stack.{push}
use aurion.Script.Engine.{
  ScriptEngine, Ed25519, execute_op, execute_byte, execute_loop, execute_bytecode,
  max_ops_per_script,
}

-- Two continuations that agree on what a result can be.
bind_congr :
    {A B : Type 0} {P : A → Type 0} {r : Result ScriptError A} (f g : A → Result ScriptError B)
    → Ensures P r
    → ((a : A) → P a → f a ≡ g a)
    → (r >>= f) ≡ (r >>= g)
bind_congr f g (returns h) same = same _ h
bind_congr f g raises same = refl

module _ (blake3 : Blake3) (ed25519 : Ed25519) where
  abbrev Shorter : Bytes → Bytes × ScriptEngine → Type 0
  Shorter cursor next = length next.0 ≤ length cursor

  execute_byte-Shorter :
      (b : ℕ) (cursor : Bytes) (engine : ScriptEngine)
      → Ensures (Shorter cursor) (execute_byte blake3 ed25519 b cursor engine)
  unfolding execute_byte
  execute_byte-Shorter b cursor engine = elim (Bool-cases (leb 0x01 b && leb b 0x4b)) [
    | inl pushes ↦ elim (Bool-cases (ltb (length cursor) b)) [
      | inl short ↦ rw (pushes, short) raises
      | inr long ↦
          rw (pushes, long)
            (Ensures-bind (Ensures-any (push (take b cursor) engine.stack))
              λ s _. returns (omega (arith, length-drop b cursor)))
    ]
    | inr no_push ↦ rw no_push (
        Ensures-bind (Ensures-any (ok_or (from_u8 b) (invalid_op_code b))) λ o _.
          Ensures-bind (Ensures-any (execute_op blake3 ed25519 o engine))
            λ s _. returns (omega arith))
  ]

  execute_loop-fuel :
      (f g : ℕ) (bytecode : Bytes) (n : ℕ) (engine : ScriptEngine)
      → length bytecode ≤ f
      → length bytecode ≤ g
      → execute_loop blake3 ed25519 f bytecode n engine
        ≡ execute_loop blake3 ed25519 g bytecode n engine
  unfolding execute_loop
  execute_loop-fuel f g [] n engine hf hg = refl
  execute_loop-fuel zero g (b ∷ cursor) n engine hf hg = absurd (omega arith)
  execute_loop-fuel (suc f) zero (b ∷ cursor) n engine hf hg = absurd (omega arith)
  execute_loop-fuel (suc f) (suc g) (b ∷ cursor) n engine hf hg =
      elim (Bool-cases (leb max_ops_per_script n)) [
        | inl full ↦ rw (execute_loop, full) refl
        | inr room ↦
            rw (execute_loop, room)
              (bind_congr (λ next. execute_loop blake3 ed25519 f next.0 (n + 1) next.1)
                (λ next. execute_loop blake3 ed25519 g next.0 (n + 1) next.1)
                (execute_byte-Shorter b cursor engine)
                λ next shorter.
                  execute_loop-fuel f g next.0 (n + 1) next.1 (omega arith) (omega arith))
      ]

  -- One round of the loop, with the fuel of the bytecode that is left.
  pub execute_bytecode-step :
      (engine : ScriptEngine) (b : ℕ) (cursor : Bytes) (n : ℕ)
      → execute_bytecode blake3 ed25519 engine (b ∷ cursor) n ≡ (
          if leb max_ops_per_script n
          then err (max_op_count_exceeded max_ops_per_script)
          else (execute_byte blake3 ed25519 b cursor engine >>= λ next.
              execute_bytecode blake3 ed25519 next.1 next.0 (n + 1)))
  unfolding execute_bytecode execute_loop
  execute_bytecode-step engine b cursor n = elim (Bool-cases (leb max_ops_per_script n)) [
    | inl full ↦ rw (execute_loop, full) refl
    | inr room ↦
        rw (execute_loop, room)
          (bind_congr (λ next. execute_loop blake3 ed25519 (length cursor) next.0 (n + 1) next.1)
            (λ next. execute_loop blake3 ed25519 (length next.0) next.0 (n + 1) next.1)
            (execute_byte-Shorter b cursor engine)
            λ next shorter.
              execute_loop-fuel (length cursor) (length next.0) next.0 (n + 1) next.1 shorter
                (omega arith))
  ]

  pub execute_bytecode-nil :
      (engine : ScriptEngine) (n : ℕ) → execute_bytecode blake3 ed25519 engine [] n ≡ ok (n, engine)
  unfolding execute_bytecode execute_loop
  execute_bytecode-nil engine n = refl
