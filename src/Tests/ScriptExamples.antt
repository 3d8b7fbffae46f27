-- ===== src/Tests/ScriptExamples.antt =====
-- The script engine at concrete values.
use aurion.Prelude.{
  ℕ, zero, suc, List, All, length, ◌+◌, ◌≡◌, arith, [], ◌∷◌, replicate, length-replicate, none,
  some, ◌&&◌, leb, if◌then◌else◌,
}
use aurion.Result.{ok, err, Ensures}
use aurion.Bytes.{Bytes}
use aurion.Primitives.Hash.{from_bytes, hash_eq, digest}
use aurion.Core.Datum.{Datum}
use aurion.Script.Error.{max_op_count_exceeded}
use aurion.Script.Stack.{IsStack}
use aurion.Script.Engine.{execute_bytecode, execute_contract, max_ops_per_script}
use aurion.Script.Engine.Limits.{Within, execute_bytecode-Within}
use aurion.Script.Engine.Pushes.{push_all, pushed, IsOperand, execute_bytecode-push_all}
use aurion.Script.Engine.Contract.{
  hash_lock, key_lock, push_script, execute_contract-hash_lock, execute_contract-key_lock,
  execute_contract-datum_lock,
}
use aurion.Tests.Fixtures.{constant_hash, first_byte_signs, sevens, sevens-IsHash, empty_engine}

empty_engine-IsStack : IsStack empty_engine.stack
empty_engine-IsStack = record { depth = omega arith; sizes = tt }

execute_bytecode-Within_example :
    Ensures
      (Within constant_hash first_byte_signs empty_engine 0)
      (execute_bytecode constant_hash first_byte_signs empty_engine (0x51 ∷ 0x73 ∷ 0x93 ∷ []) 0)
execute_bytecode-Within_example =
    execute_bytecode-Within constant_hash first_byte_signs empty_engine (0x51 ∷ 0x73 ∷ 0x93 ∷ []) 0
      empty_engine-IsStack (omega arith)

-- One push more than may be counted.
abbrev one_push_more : List Bytes
one_push_more = replicate 202 (7 ∷ [])

one_push_more-IsOperand : All IsOperand one_push_more
one_push_more-IsOperand = all_operands 202
  where
    all_operands : (k : ℕ) → All IsOperand (replicate k (7 ∷ []))
    all_operands zero = tt
    all_operands (suc k) = ((omega arith, omega arith), all_operands k)

execute_bytecode-push_all_example :
    execute_bytecode constant_hash first_byte_signs empty_engine (push_all one_push_more) 0 ≡ (
      if leb (0 + length one_push_more) max_ops_per_script
      then ok (
        0 + length one_push_more,
        record empty_engine { stack = pushed one_push_more empty_engine.stack },
      )
      else err (max_op_count_exceeded max_ops_per_script))
execute_bytecode-push_all_example =
    execute_bytecode-push_all constant_hash first_byte_signs one_push_more empty_engine 0
      one_push_more-IsOperand (omega arith) (omega arith)

execute_contract-hash_lock_example :
    execute_contract constant_hash first_byte_signs empty_engine
      (hash_lock (from_bytes sevens))
      (push_script (1 ∷ 2 ∷ []))
      Datum.none
      none
    ≡ ok (hash_eq (from_bytes sevens) (digest constant_hash (1 ∷ 2 ∷ [])))
execute_contract-hash_lock_example =
    execute_contract-hash_lock constant_hash first_byte_signs empty_engine (from_bytes sevens)
      (1 ∷ 2 ∷ []) sevens-IsHash.0 (omega arith) (omega arith)

execute_contract-key_lock_example :
    execute_contract constant_hash first_byte_signs empty_engine
      (key_lock sevens)
      (push_script (replicate 64 9))
      Datum.none
      none
    ≡ ok (
        first_byte_signs.accepts_key sevens
        && first_byte_signs.verify_strict sevens sevens (replicate 64 9))
execute_contract-key_lock_example =
    execute_contract-key_lock constant_hash first_byte_signs empty_engine sevens (replicate 64 9)
      sevens-IsHash.0 (length-replicate {A = ℕ} 64 9)

execute_contract-datum_lock_example :
    execute_contract constant_hash first_byte_signs empty_engine
      (0xaa ∷ 0x87 ∷ [])
      []
      (Datum.hash (from_bytes sevens))
      (some (1 ∷ 2 ∷ []))
    ≡ ok (hash_eq (digest constant_hash (1 ∷ 2 ∷ [])) (from_bytes sevens))
execute_contract-datum_lock_example =
    execute_contract-datum_lock constant_hash first_byte_signs empty_engine (from_bytes sevens)
      (1 ∷ 2 ∷ []) sevens-IsHash.0 (omega arith)
