-- ===== src/Script/Engine/Contract.antt =====
-- Two contracts, run by `execute_contract` (crates/aurion-script/src/engine.rs): a lock on the digest
-- of a secret, and a lock on a key.
use aurion.Prelude.{
  ℕ, ◌+◌, ◌≤◌, ◌<◌, ◌≡◌, refl, ap, ◌∙◌, [], ◌∷◌, ◌++◌, length, append-nil, Bool, true, false, leb,
  ◌&&◌, arith, some, none,
}
use aurion.Result.{ok, ◌>>=◌, >>=_assoc}
use aurion.Bytes.{Bytes, bytes_eq}
use aurion.Primitives.Hash.{Hash256, Blake3, digest, digest-IsHash, hash_eq}
use aurion.Core.Datum.{Datum}
use aurion.Script.Opcode.{OpCode, op_hash256, op_equal, op_check_sig, from_u8}
use aurion.Script.Stack.{Stack, pop, max_element_size, max_stack_depth}
use aurion.Script.Engine.{
  ScriptEngine, Ed25519, is_truthy, script_bool, verify_ed25519, execute_op, execute_byte,
  execute_bytecode, max_ops_per_script, execute_contract, contract_result, push_datum,
  push_redeemer,
}
use aurion.Script.Engine.Pushes.{push-room, run_push}
use aurion.Script.Engine.Loop.{execute_bytecode-step, execute_bytecode-nil}

script_bool-is_truthy : (b : Bool) → is_truthy (script_bool b) ≡ b
unfolding is_truthy
script_bool-is_truthy true = refl
script_bool-is_truthy false = refl

-- The scripts, with the datum and the redeemer that they do not use left out.
abbrev pub hash_lock : Hash256 → Bytes
hash_lock h = 0xaa ∷ 32 ∷ h.as_bytes ++ (0x87 ∷ [])

abbrev pub key_lock : Bytes → Bytes
key_lock key = 32 ∷ key ++ (0xac ∷ [])

abbrev pub push_script : Bytes → Bytes
push_script item = length item ∷ item

module _ (blake3 : Blake3) (ed25519 : Ed25519) where
  run_op :
      (b : ℕ) (op : OpCode) (rest : Bytes) (engine : ScriptEngine) (n : ℕ)
      → from_u8 b ≡ some op
      → 75 < b
      → n < max_ops_per_script
      → execute_bytecode blake3 ed25519 engine (b ∷ rest) n ≡ (
          execute_op blake3 ed25519 op engine >>= λ s.
          execute_bytecode blake3 ed25519 (record engine { stack = s }) rest (n + 1))
  unfolding execute_byte
  run_op b op rest engine n known high room =
      let within : (leb max_ops_per_script n) ≡ false = ground arith in
      let no_push : (leb 0x01 b && leb b 0x4b) ≡ false = ground arith in
      rw (execute_bytecode-step blake3 ed25519 engine b rest n, within, no_push, known)
        (>>=_assoc (execute_op blake3 ed25519 op engine)
          (λ s. ok (rest, record engine { stack = s }))
          (λ next. execute_bytecode blake3 ed25519 next.1 next.0 (n + 1)))

  -- A push of 32 bytes, as a script writes it.
  run_push_32 :
      (item rest : Bytes) (engine : ScriptEngine) (n : ℕ)
      → length item ≡ 32
      → n < max_ops_per_script
      → length engine.stack < max_stack_depth
      → execute_bytecode blake3 ed25519 engine (32 ∷ item ++ rest) n
        ≡ execute_bytecode blake3 ed25519
            (record engine { stack = item ∷ engine.stack })
            rest
            (n + 1)
  run_push_32 item rest engine n size room depth =
      let run = run_push blake3 ed25519 item rest engine n (omega arith) (omega arith) room depth in
      (rw size at run)

  op_hash256-run :
      (item : Bytes) (s : Stack) (engine : ScriptEngine)
      → length s < max_stack_depth
      → execute_op blake3 ed25519 op_hash256 (record engine { stack = item ∷ s })
        ≡ ok ((digest blake3 item).as_bytes ∷ s)
  unfolding execute_op pop
  op_hash256-run item s engine depth =
      push-room (digest blake3 item).as_bytes s depth (omega (arith, (digest-IsHash blake3 item).0))

  op_equal-run :
      (a b : Bytes) (engine : ScriptEngine)
      → execute_op blake3 ed25519 op_equal (record engine { stack = a ∷ b ∷ [] })
        ≡ ok (script_bool (bytes_eq a b) ∷ [])
  unfolding execute_op pop
  op_equal-run a b engine =
      push-room (script_bool (bytes_eq a b)) [] (omega arith) (small (bytes_eq a b))
    where
      small : (t : Bool) → length (script_bool t) ≤ 520
      small true = omega arith
      small false = omega arith

  op_check_sig-run :
      (key sig : Bytes) (engine : ScriptEngine)
      → execute_op blake3 ed25519 op_check_sig (record engine { stack = key ∷ sig ∷ [] })
        ≡ ok (script_bool (verify_ed25519 ed25519 key sig engine.sighash.as_bytes) ∷ [])
  unfolding execute_op pop
  op_check_sig-run key sig engine =
      push-room (script_bool (verify_ed25519 ed25519 key sig engine.sighash.as_bytes)) []
        (omega arith) (small (verify_ed25519 ed25519 key sig engine.sighash.as_bytes))
    where
      small : (t : Bool) → length (script_bool t) ≤ 520
      small true = omega arith
      small false = omega arith

  run_push_script :
      (item : Bytes) (engine : ScriptEngine)
      → 1 ≤ length item
      → length item ≤ 75
      → length engine.stack < max_stack_depth
      → execute_bytecode blake3 ed25519 engine (push_script item) 0
        ≡ ok (1, record engine { stack = item ∷ engine.stack })
  run_push_script item engine low high depth =
      let run = run_push blake3 ed25519 item [] engine 0 low high (omega arith) depth in
      let run' = (rw (append-nil item) at run) in
      run' ∙ execute_bytecode-nil blake3 ed25519 (record engine { stack = item ∷ engine.stack }) 1

  -- A contract whose locking script is `OP_HASH256 <h> OP_EQUAL`, with `h` of 32 bytes, unlocked by a
  -- push of a secret of 1 to 75 bytes,
  -- answers whether `h` is the digest of the secret. The engine's stack, context and message do not matter.
  pub execute_contract-hash_lock :
      (engine : ScriptEngine) (h : Hash256) (secret : Bytes)
      → length h.as_bytes ≡ 32
      → 1 ≤ length secret
      → length secret ≤ 75
      → execute_contract blake3 ed25519 engine (hash_lock h) (push_script secret) Datum.none none
        ≡ ok (hash_eq h (digest blake3 secret))
  unfolding execute_contract push_datum push_redeemer contract_result hash_eq from_u8
  execute_contract-hash_lock engine h secret size low high =
      rw (run_push_script secret (record engine { stack = [] }) low high (omega arith)) (
        rw
          (
            run_op 0xaa op_hash256 (32 ∷ h.as_bytes ++ (0x87 ∷ []))
                (record engine { stack = secret ∷ [] }) 1 refl (omega arith) (omega arith),
            op_hash256-run secret [] engine (omega arith),
            run_push_32 h.as_bytes (0x87 ∷ [])
                (record engine { stack = (digest blake3 secret).as_bytes ∷ [] }) 2 size
                (omega arith) (omega arith),
            run_op 0x87 op_equal []
                (record engine { stack = h.as_bytes ∷ (digest blake3 secret).as_bytes ∷ [] }) 3 refl
                (omega arith) (omega arith),
            op_equal-run h.as_bytes (digest blake3 secret).as_bytes engine,
            execute_bytecode-nil blake3 ed25519
                (record engine {
                  stack = script_bool (bytes_eq h.as_bytes (digest blake3 secret).as_bytes) ∷ [];
                })
                4,
          )
          (ap ok (script_bool-is_truthy (bytes_eq h.as_bytes (digest blake3 secret).as_bytes))))

  -- A contract whose locking script is `<key> OP_CHECKSIG`, with a key of 32 bytes, unlocked by a push
  -- of a signature of 64 bytes, answers
  -- whether ed25519 accepts the key and the signature of the engine's message under it.
  pub execute_contract-key_lock :
      (engine : ScriptEngine) (key sig : Bytes)
      → length key ≡ 32
      → length sig ≡ 64
      → execute_contract blake3 ed25519 engine (key_lock key) (push_script sig) Datum.none none
        ≡ ok (ed25519.accepts_key key && ed25519.verify_strict key engine.sighash.as_bytes sig)
  unfolding execute_contract push_datum push_redeemer contract_result verify_ed25519 from_u8
  execute_contract-key_lock engine key sig key_size sig_size =
      rw
        (run_push_script sig (record engine { stack = [] }) (omega arith) (omega arith)
          (omega arith))
        (rw
          (
            run_push_32 key (0xac ∷ []) (record engine { stack = sig ∷ [] }) 1 key_size
                (omega arith) (omega arith),
            run_op 0xac op_check_sig [] (record engine { stack = key ∷ sig ∷ [] }) 2 refl
                (omega arith) (omega arith),
            op_check_sig-run key sig engine,
            execute_bytecode-nil blake3 ed25519
                (record engine {
                  stack = script_bool (verify_ed25519 ed25519 key sig engine.sighash.as_bytes) ∷ [];
                })
                3,
          )
          (ap ok (
            script_bool-is_truthy (verify_ed25519 ed25519 key sig engine.sighash.as_bytes)
            ∙ ground arith)))

  -- A contract whose locking script is `OP_HASH256 OP_EQUAL`, with no unlocking script, 32 bytes `h`
  -- as the datum and a secret of at most 520 bytes as the redeemer, answers whether `h` is the digest
  -- of the secret: the redeemer is on top of the datum.
  pub execute_contract-datum_lock :
      (engine : ScriptEngine) (h : Hash256) (secret : Bytes)
      → length h.as_bytes ≡ 32
      → length secret ≤ max_element_size
      → execute_contract blake3 ed25519 engine (0xaa ∷ 0x87 ∷ []) [] (Datum.hash h) (some secret)
        ≡ ok (hash_eq (digest blake3 secret) h)
  unfolding execute_contract push_datum push_redeemer contract_result hash_eq from_u8
  execute_contract-datum_lock engine h secret size high =
      rw
        (
          push-room h.as_bytes [] (omega arith) (omega (arith, size)),
          push-room secret (h.as_bytes ∷ []) (omega arith) high,
          execute_bytecode-nil blake3 ed25519 (record engine { stack = secret ∷ h.as_bytes ∷ [] })
              0,
        )
        (rw
          (
            run_op 0xaa op_hash256 (0x87 ∷ []) (record engine { stack = secret ∷ h.as_bytes ∷ [] })
                0 refl (omega arith) (omega arith),
            op_hash256-run secret (h.as_bytes ∷ []) engine (omega arith),
            run_op 0x87 op_equal []
                (record engine { stack = (digest blake3 secret).as_bytes ∷ h.as_bytes ∷ [] }) 1 refl
                (omega arith) (omega arith),
            op_equal-run (digest blake3 secret).as_bytes h.as_bytes engine,
            execute_bytecode-nil blake3 ed25519
                (record engine {
                  stack = script_bool (bytes_eq (digest blake3 secret).as_bytes h.as_bytes) ∷ [];
                })
                2,
          )
          (ap ok (script_bool-is_truthy (bytes_eq (digest blake3 secret).as_bytes h.as_bytes))))
