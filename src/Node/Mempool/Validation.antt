-- ===== src/Node/Mempool/Validation.antt =====
-- crates/aurion-node/src/mempool/validation.rs and error.rs. Where the source keeps the text of an
-- error of another crate, the error itself is kept. `mempool_spent.get` is a function.
pub mod Admitted
use aurion.Prelude.{
  ℕ, suc, ◌+◌, ◌*◌, ◌^◌, List, [], ◌∷◌, Bool, true, not, ◌||◌, ◌==◌, ltb, leb, Option, none, some,
  length, if◌then◌else◌,
}
use aurion.Result.{Result, ok, err, guard, ok_or, map_err, ◌>>=◌, ◌>>◌}
use aurion.Primitives.Hash.{Hash256, Blake3}
use aurion.Primitives.Quantum.{Quantum, u128_mod, checked_add, checked_sub}
use aurion.Core.OutPoint.{OutPoint}
use aurion.Core.Tx.{Transaction, TxInput, TxOutput, is_coinbase, encode_transaction}
use aurion.Eutxo.Error.{EutxoError}
use aurion.Eutxo.State.{ExtendedUtxo, UtxoView}
use aurion.Eutxo.Locktime.{verify_transaction_locktime, verify_relative_sequence}
use aurion.Eutxo.Maturity.{verify_coinbase_maturity}
use aurion.Eutxo.Fee.{max_tx_size_bytes, min_fee_per_byte_aur, verify_transaction_fee}
use aurion.Script.Error.{ScriptError}
use aurion.Script.Engine.{Ed25519, execute_contract, new_engine}

pub data MempoolReject : Type 0 where
  oversized_transaction : ℕ → MempoolReject
  empty_transaction coinbase_not_allowed : MempoolReject
  double_spend_conflict : OutPoint → Hash256 → MempoolReject
  missing_utxo : OutPoint → MempoolReject
  immature_coinbase locktime_reject sequence_reject : EutxoError → MempoolReject
  value_conservation_violation : MempoolReject
  insufficient_fee : EutxoError → MempoolReject
  fee_too_low : Quantum → Quantum → MempoolReject
  script_execution_failed : ScriptError → MempoolReject
  contract_condition_failed : ℕ → MempoolReject
  mempool_full arithmetic_overflow : MempoolReject

abbrev pub Reservations : Type 0
Reservations = OutPoint → Option Hash256

-- gate 3
unfoldable pub check_reserved : Reservations → List TxInput → Result MempoolReject (Unit {0})
check_reserved mempool_spent [] = ok tt
check_reserved mempool_spent (input ∷ inputs) = elim (mempool_spent input.previous_output) [
  | some conflicting_txid ↦ err (double_spend_conflict input.previous_output conflicting_txid)
  | none ↦ check_reserved mempool_spent inputs
]

-- `current_tip_height.checked_add(1)`
unfoldable pub next_height : ℕ → Result MempoolReject ℕ
next_height tip = if ltb (tip + 1) (256 ^ 8) then ok (tip + 1) else err arithmetic_overflow

abbrev pub add_value : Quantum → Quantum → Result MempoolReject Quantum
add_value a b = map_err (λ _. arithmetic_overflow) (checked_add a b)

-- an entry of `spent_utxos`
pub record ResolvedInput : Type 0 where
  pub input_idx : ℕ
  pub input : TxInput
  pub utxo : ExtendedUtxo

-- gate 4: the loop over the inputs, from index `idx` on
unfoldable pub resolve_utxos :
    UtxoView → ℕ → Quantum → ℕ → List TxInput → Result MempoolReject (Quantum × List ResolvedInput)
resolve_utxos utxo_view height total idx [] = ok (total, [])
resolve_utxos utxo_view height total idx (input ∷ inputs) = do
  let op = input.previous_output
  utxo ← ok_or (utxo_view op) (missing_utxo op)
  map_err immature_coinbase (verify_coinbase_maturity op utxo height)
  map_err sequence_reject (verify_relative_sequence input.sequence utxo height idx)
  total' ← add_value total utxo.value
  (sum, resolved) ← resolve_utxos utxo_view height total' (suc idx) inputs
  ok (sum, record { input_idx = idx; input = input; utxo = utxo } ∷ resolved)

-- gate 5: the loop over the outputs
unfoldable pub add_outputs : Quantum → List TxOutput → Result MempoolReject Quantum
add_outputs total [] = ok total
add_outputs total (output ∷ outputs) = do
  total' ← add_value total output.value
  add_outputs total' outputs

unfoldable pub required_fee : ℕ → Result MempoolReject Quantum
required_fee tx_size =
    if ltb (tx_size * min_fee_per_byte_aur) u128_mod
    then ok (tx_size * min_fee_per_byte_aur)
    else err arithmetic_overflow

module _ (blake3 : Blake3) (ed25519 : Ed25519) where
  unfoldable pub run_input : Transaction → ℕ → Quantum → ResolvedInput → Result ScriptError Bool
  run_input tx height tx_fee r =
      execute_contract blake3 ed25519
        (new_engine blake3 ed25519 (
          some (record {
            tx = tx;
            current_input_index = r.input_idx;
            current_spent_utxo = r.utxo;
            fee = tx_fee;
            validation_height = height;
          })))
        r.utxo.locking_script r.input.unlocking_script r.utxo.datum r.input.redeemer

  -- the loop over `spent_utxos`
  unfoldable pub run_inputs :
      Transaction → ℕ → Quantum → List ResolvedInput → Result MempoolReject (Unit {0})
  run_inputs tx height tx_fee [] = ok tt
  run_inputs tx height tx_fee (r ∷ rest) = do
    valid ← map_err script_execution_failed (run_input tx height tx_fee r)
    guard valid (contract_condition_failed r.input_idx)
    run_inputs tx height tx_fee rest

  unfoldable pub validate_for_mempool :
      Transaction → UtxoView → Reservations → ℕ → ℕ → Result MempoolReject Quantum
  validate_for_mempool tx utxo_view mempool_spent current_tip_height median_time_past = do
    let tx_size = length (encode_transaction tx)
    guard (not (ltb max_tx_size_bytes tx_size)) (oversized_transaction tx_size)
    guard (not (length tx.inputs == 0 || length tx.outputs == 0)) empty_transaction
    guard (not (is_coinbase tx)) coinbase_not_allowed
    check_reserved mempool_spent tx.inputs
    next_block_height ← next_height current_tip_height
    map_err locktime_reject (verify_transaction_locktime tx next_block_height median_time_past)
    (total_input_val, spent_utxos) ← resolve_utxos utxo_view next_block_height 0 0 tx.inputs
    total_output_val ← add_outputs 0 tx.outputs
    guard (not (ltb total_input_val total_output_val)) value_conservation_violation
    tx_fee ← map_err (λ _. arithmetic_overflow) (checked_sub total_input_val total_output_val)
    run_inputs tx next_block_height tx_fee spent_utxos
    required ← required_fee tx_size
    _ ← map_err insufficient_fee (verify_transaction_fee tx total_input_val total_output_val)
    guard (not (ltb tx_fee required)) (fee_too_low tx_fee required)
    ok tx_fee
