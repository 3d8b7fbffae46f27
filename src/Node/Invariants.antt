-- ===== src/Node/Invariants.antt =====
-- crates/aurion-node/src/authority/invariants.rs. The ledger is the function `utxo_lookup`; the
-- `HashSet` of spent outpoints is the list of what was inserted.
pub mod Spent
pub mod Sound
use aurion.Prelude.{
  ℕ, zero, suc, ◌+◌, List, [], ◌∷◌, ◌++◌, Bool, true, false, not, ◌||◌, ltb, Option, none, some,
  if◌then◌else◌,
}
use aurion.Result.{Result, ok, err, guard, ok_or, map_err, ◌>>=◌, ◌>>◌}
use aurion.Primitives.Hash.{Hash256, Blake3}
use aurion.Primitives.Quantum.{Quantum, checked_add, checked_sub}
use aurion.Core.OutPoint.{OutPoint, outpoint_eq}
use aurion.Core.Tx.{Transaction, TxInput, TxOutput, is_coinbase, txid}
use aurion.Core.Block.{Block}
use aurion.Eutxo.State.{from_output}
use aurion.Script.Error.{ScriptError, script_failed}
use aurion.Script.Engine.{Ed25519, execute_contract, new_engine}

pub data InvariantError : Type 0 where
  duplicate_input_spend : OutPoint → InvariantError
  missing_utxo : OutPoint → InvariantError
  script_execution_failed : Hash256 → ℕ → ScriptError → InvariantError
  value_inflation : Hash256 → Quantum → Quantum → InvariantError
  arithmetic_overflow : InvariantError

abbrev pub UtxoLookup : Type 0
UtxoLookup = OutPoint → Option TxOutput

-- The outpoints of inputs, in their order.
unfoldable pub outpoints : List TxInput → List OutPoint
outpoints [] = []
outpoints (input ∷ inputs) = input.previous_output ∷ outpoints inputs

-- `spent_set.contains`; `insert` answers whether it was not there.
unfoldable pub contains : OutPoint → List OutPoint → Bool
contains op [] = false
contains op (p ∷ ps) = outpoint_eq op p || contains op ps

-- 1. the loop over the outputs
unfoldable pub sum_outputs : Quantum → List TxOutput → Result InvariantError Quantum
sum_outputs total_output_val [] = ok total_output_val
sum_outputs total_output_val (output ∷ outputs) = do
  total ← map_err (λ _. arithmetic_overflow) (checked_add total_output_val output.value)
  sum_outputs total outputs

-- an entry of `tx_spent_utxos`
pub record SpentInput : Type 0 where
  pub input_idx : ℕ
  pub input : TxInput
  pub utxo : TxOutput

pub record Resolved : Type 0 where
  pub spent_set : List OutPoint
  pub total_input_val : Quantum
  pub spent_utxos : List SpentInput

-- 2. the loop over the inputs, from index `idx` on
unfoldable pub resolve_inputs :
    UtxoLookup → List OutPoint → Quantum → ℕ → List TxInput → Result InvariantError Resolved
resolve_inputs utxo_lookup spent_set total idx [] =
    ok (record { spent_set = spent_set; total_input_val = total; spent_utxos = [] })
resolve_inputs utxo_lookup spent_set total idx (input ∷ inputs) = do
  let op = input.previous_output
  guard (not (contains op spent_set)) (duplicate_input_spend op)
  utxo ← ok_or (utxo_lookup op) (missing_utxo op)
  total' ← map_err (λ _. arithmetic_overflow) (checked_add total utxo.value)
  r ← resolve_inputs utxo_lookup (op ∷ spent_set) total' (suc idx) inputs
  ok (record r {
    spent_utxos = record { input_idx = idx; input = input; utxo = utxo } ∷ r.spent_utxos;
  })

module _ (blake3 : Blake3) (ed25519 : Ed25519) where
  -- `execute_contract` on one input, with `from_output(&utxo, 0, false)` as the output in the context
  unfoldable pub run_contract : Transaction → ℕ → Quantum → SpentInput → Result ScriptError Bool
  run_contract tx height tx_fee spent =
      let spent_extended_utxo = from_output spent.utxo 0 false in
      execute_contract blake3 ed25519
        (new_engine blake3 ed25519 (
          some (record {
            tx = tx;
            current_input_index = spent.input_idx;
            current_spent_utxo = spent_extended_utxo;
            fee = tx_fee;
            validation_height = height;
          })))
        spent_extended_utxo.locking_script spent.input.unlocking_script spent_extended_utxo.datum
        spent.input.redeemer

  -- 4. the loop over `tx_spent_utxos`: what it appends to `spent_inputs`
  unfoldable pub run_contracts :
      Transaction → ℕ → Quantum → List SpentInput → Result InvariantError (List OutPoint)
  run_contracts tx height tx_fee [] = ok []
  run_contracts tx height tx_fee (spent ∷ rest) = do
    let failed = script_execution_failed (txid blake3 tx) spent.input_idx
    valid ← map_err failed (run_contract tx height tx_fee spent)
    guard valid (failed script_failed)
    later ← run_contracts tx height tx_fee rest
    ok (spent.input.previous_output ∷ later)

  -- the body of the loop over the transactions: the set, and what is appended to `spent_inputs`
  unfoldable pub verify_transaction :
      UtxoLookup
      → ℕ
      → List OutPoint
      → Transaction
      → Result InvariantError (List OutPoint × List OutPoint)
  verify_transaction utxo_lookup height spent_set tx =
      if is_coinbase tx then ok (spent_set, []) else do
        total_output_val ← sum_outputs 0 tx.outputs
        r ← resolve_inputs utxo_lookup spent_set 0 0 tx.inputs
        guard (not (ltb r.total_input_val total_output_val))
            (value_inflation (txid blake3 tx) r.total_input_val total_output_val)
        tx_fee ← map_err (λ _. arithmetic_overflow) (checked_sub r.total_input_val total_output_val)
        spent_inputs ← run_contracts tx height tx_fee r.spent_utxos
        ok (r.spent_set, spent_inputs)

  unfoldable pub verify_transactions :
      UtxoLookup → ℕ → List OutPoint → List Transaction → Result InvariantError (List OutPoint)
  verify_transactions utxo_lookup height spent_set [] = ok []
  verify_transactions utxo_lookup height spent_set (tx ∷ txs) = do
    (spent_set', here) ← verify_transaction utxo_lookup height spent_set tx
    later ← verify_transactions utxo_lookup height spent_set' txs
    ok (here ++ later)

  unfoldable pub verify_block_invariants :
      Block → UtxoLookup → Result InvariantError (List OutPoint)
  verify_block_invariants block utxo_lookup =
      verify_transactions utxo_lookup block.header.height [] block.transactions
