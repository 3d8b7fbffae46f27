-- ===== src/Tests/NodeExamples.antt =====
-- The invariants of a block at a concrete ledger: one transaction spends an output that `OP_TRUE`
-- locks.
use aurion.Prelude.{
  ℕ, ◌+◌, ◌*◌, ◌^◌, ◌<◌, ◌↔◌, ◌⊎◌, true, arith, ◌≤◌, ◌≡◌, refl, [], ◌∷◌, All, false, none, some,
}
use aurion.Result.{ok}
use aurion.Bytes.{bytes_eq, to_be, to_le}
use aurion.Primitives.Codec.{encode_all}
use aurion.Primitives.Hash.{from_bytes, hash_eq}
use aurion.Primitives.Quantum.{checked_add, checked_sub}
use aurion.Core.Datum.{encode_vec_bytes, encode_datum}
use aurion.Core.OutPoint.{OutPoint, encode_outpoint}
use aurion.Core.Tx.{is_coinbase, encode_transaction, encode_input, encode_output, encode_redeemer}
use aurion.Core.Block.{Block}
use aurion.Eutxo.State.{from_output}
use aurion.Script.Opcode.{from_u8}
use aurion.Script.Stack.{push}
use aurion.Script.Engine.{
  execute_contract, execute_bytecode, execute_loop, execute_byte, execute_op, new_engine,
  push_datum, push_redeemer, contract_result, is_truthy,
}
use aurion.Node.Invariants.{
  contains, sum_outputs, resolve_inputs, run_contract, run_contracts, verify_transaction,
  verify_transactions, verify_block_invariants, UtxoLookup,
}
use aurion.Node.Invariants.Spent.{consumed, count, verify_block_invariants-spent}
use aurion.Node.Invariants.Sound.{IsSound, verify_block_invariants-IsSound}
use aurion.Eutxo.State.{UtxoView}
use aurion.Node.Mempool.FeeRate.{FeeRateIndex, wide_mul_u128, beats, cmp_bytes, greater}
use aurion.Node.Mempool.FeeRate.Exact.{wide_mul_u128-exact, beats_iff}
use aurion.Node.Mempool.Validation.{
  Reservations, validate_for_mempool, check_reserved, next_height, resolve_utxos, add_outputs,
  required_fee, run_input, run_inputs,
}
use aurion.Node.Mempool.Validation.Admitted.{IsAdmitted, validate_for_mempool-IsAdmitted}
use aurion.Eutxo.Locktime.{
  verify_transaction_locktime, has_active_lock, verify_relative_sequence, is_disabled,
  required_delay,
}
use aurion.Eutxo.Maturity.{verify_coinbase_maturity}
use aurion.Eutxo.Fee.{verify_transaction_fee}
use aurion.Tests.Fixtures.{
  funding, open_output, spend, constant_hash, first_byte_signs, sevens, sample_block,
}

abbrev ledger : UtxoLookup
ledger op = some (open_output 1000)

abbrev free : Reservations
free op = none

abbrev view : UtxoView
view op = some (from_output (open_output 5000) 3 true)

abbrev block : Block
block = record sample_block { transactions = spend ∷ [] }

block-verified :
    verify_block_invariants constant_hash first_byte_signs block ledger ≡ ok (funding ∷ [])
unfolding verify_block_invariants verify_transactions verify_transaction run_contracts run_contract
    resolve_inputs sum_outputs contains execute_contract execute_bytecode execute_loop execute_byte
    execute_op new_engine push_datum push_redeemer contract_result is_truthy push from_u8
    from_output checked_add checked_sub is_coinbase hash_eq bytes_eq
block-verified = refl

verify_block_invariants-spent_example :
    (funding ∷ [] ≡ consumed (spend ∷ [])) × ((op : OutPoint) → count op (funding ∷ []) ≤ 1)
verify_block_invariants-spent_example =
    verify_block_invariants-spent constant_hash first_byte_signs block ledger (funding ∷ [])
      block-verified

verify_block_invariants-IsSound_example :
    All
      (λ tx. is_coinbase tx ≡ false → IsSound constant_hash first_byte_signs ledger 8 tx)
      (spend ∷ [])
verify_block_invariants-IsSound_example =
    verify_block_invariants-IsSound constant_hash first_byte_signs block ledger (funding ∷ [])
      block-verified

spend-admitted :
    validate_for_mempool constant_hash first_byte_signs spend view free 150 100 ≡ ok 4200
unfolding validate_for_mempool check_reserved next_height resolve_utxos add_outputs required_fee
    run_input run_inputs encode_transaction to_be to_le encode_all encode_input encode_outpoint
    encode_vec_bytes encode_redeemer encode_output encode_datum is_coinbase hash_eq bytes_eq
    verify_transaction_locktime has_active_lock verify_coinbase_maturity from_output
    verify_relative_sequence is_disabled required_delay verify_transaction_fee checked_add
    checked_sub contract_result execute_byte execute_bytecode execute_contract execute_loop
    execute_op is_truthy new_engine push_datum push_redeemer from_u8 push
spend-admitted = refl

validate_for_mempool-IsAdmitted_example :
    IsAdmitted constant_hash first_byte_signs spend view free 150 100 4200
validate_for_mempool-IsAdmitted_example =
    validate_for_mempool-IsAdmitted constant_hash first_byte_signs spend view free 150 100 4200
      spend-admitted

wide_mul_u128-exact_example :
    (wide_mul_u128 (2 ^ 127 + 5) (2 ^ 100 + 3)).0 * 2 ^ 128
      + (wide_mul_u128 (2 ^ 127 + 5) (2 ^ 100 + 3)).1
    ≡ (2 ^ 127 + 5) * (2 ^ 100 + 3)
wide_mul_u128-exact_example =
    wide_mul_u128-exact (2 ^ 127 + 5) (2 ^ 100 + 3) (omega arith) (omega arith)

abbrev rate : ℕ → ℕ → FeeRateIndex
rate fee size = record { fee = fee; size_bytes = size; txid = from_bytes sevens }

beats_iff_example :
    (beats (rate 20 100) (rate 30 300) ≡ true)
    ↔ ((30 * 100 < 20 * 300) ⊎ ((30 * 100 ≡ 20 * 300) × (cmp_bytes sevens sevens ≡ greater)))
beats_iff_example =
    beats_iff (rate 20 100) (rate 30 300) (omega arith) (omega arith) (omega arith) (omega arith)
