-- ===== src/Node/Invariants/Sound.antt =====
-- What `verify_block_invariants` says of the values and the contracts of a block
-- (crates/aurion-node/src/authority/invariants.rs).
use aurion.Prelude.{
  ℕ, suc, ◌+◌, ◌-◌, ◌≤◌, ◌≡◌, refl, List, [], ◌∷◌, All, true, false, not, ltb, none, some,
  Bool-cases, at_most, inl, inr, arith,
}
use aurion.Result.{
  ok, guard, map_err, Ensures, returns, Ensures-bind, Ensures-any, Ensures-guard, Ensures-ok_or,
  Ensures-value, Ensures-self, Ensures-map_err, Ensures-weaken,
}
use aurion.Primitives.Hash.{Blake3}
use aurion.Primitives.Quantum.{Quantum, checked_add, checked_sub}
use aurion.Primitives.Quantum.Exact.{checked_add-exact, checked_sub-exact}
use aurion.Core.OutPoint.{OutPoint}
use aurion.Core.Tx.{Transaction, TxInput, TxOutput, is_coinbase, txid}
use aurion.Core.Block.{Block}
use aurion.Consensus.Verification.Accepted.{total_value}
use aurion.Script.Error.{script_failed}
use aurion.Script.Engine.{Ed25519}
use aurion.Node.Invariants.{
  InvariantError, duplicate_input_spend, missing_utxo, value_inflation, script_execution_failed,
  arithmetic_overflow, UtxoLookup, contains, sum_outputs, SpentInput, Resolved, resolve_inputs,
  run_contract, run_contracts, verify_transaction, verify_transactions, verify_block_invariants,
}

-- What the ledger holds for an input: nothing if the outpoint is not there.
unfoldable pub funds : UtxoLookup → List TxInput → ℕ
funds utxo_lookup [] = 0
funds utxo_lookup (input ∷ inputs) =
    elim (utxo_lookup input.previous_output) [ none ↦ 0 | some utxo ↦ utxo.value ]
    + funds utxo_lookup inputs

add_exact :
    (a b : ℕ)
    → Ensures
        (λ c. c ≡ a + b)
        (map_err {F = InvariantError} (λ _. arithmetic_overflow) (checked_add a b))
add_exact a b = Ensures-map_err (λ _. arithmetic_overflow) (checked_add a b) (checked_add-exact a b)

sum_outputs-exact :
    (total : ℕ) (outputs : List TxOutput)
    → Ensures (λ c. c ≡ total + total_value outputs) (sum_outputs total outputs)
unfolding sum_outputs total_value
sum_outputs-exact total [] = returns (omega arith)
sum_outputs-exact total (output ∷ outputs) = Ensures-bind (add_exact total output.value) λ t e.
    Ensures-weaken (sum_outputs t outputs) (sum_outputs-exact t outputs) λ c h. omega (arith, e, h)

-- The spent inputs are the inputs from `idx` on, with what the ledger holds for them.
abbrev IsFound : UtxoLookup → ℕ → List TxInput → List SpentInput → Type 0
IsFound utxo_lookup idx [] [] = Unit
IsFound utxo_lookup idx (i ∷ is) (s ∷ ss) =
    (s ≡ record { input_idx = idx; input = i; utxo = s.utxo })
    × (utxo_lookup i.previous_output ≡ some s.utxo)
    × IsFound utxo_lookup (suc idx) is ss
IsFound utxo_lookup idx _ _ = ⊥

record IsFunded (utxo_lookup : UtxoLookup) (total idx : ℕ) (inputs : List TxInput) (r : Resolved)
    : Type 0 where
  value : r.total_input_val ≡ total + funds utxo_lookup inputs
  found : IsFound utxo_lookup idx inputs r.spent_utxos

resolve_inputs-IsFunded :
    (utxo_lookup : UtxoLookup) (spent : List OutPoint) (total : Quantum) (idx : ℕ)
    (inputs : List TxInput)
    → Ensures
        (IsFunded utxo_lookup total idx inputs)
        (resolve_inputs utxo_lookup spent total idx inputs)
unfolding resolve_inputs funds
resolve_inputs-IsFunded utxo_lookup spent total idx [] =
    returns (record { value = omega arith; found = tt })
resolve_inputs-IsFunded utxo_lookup spent total idx (input ∷ inputs) =
    let op = input.previous_output in
    Ensures-bind (Ensures-any (guard (not (contains op spent)) (duplicate_input_spend op))) λ _ _.
      Ensures-bind (Ensures-ok_or (utxo_lookup op) (missing_utxo op)) λ utxo here.
        Ensures-bind (add_exact total utxo.value) λ total' e.
          Ensures-bind (resolve_inputs-IsFunded utxo_lookup (op ∷ spent) total' (suc idx) inputs)
            λ r is. returns (record {
              value = rw here (let v = is.value in omega (arith, e, v));
              found = (refl, here, is.found);
            })

module _ (blake3 : Blake3) (ed25519 : Ed25519) where
  -- The contracts of the inputs from `idx` on, each over the output that the ledger holds, succeed.
  abbrev pub AllPass : UtxoLookup → Transaction → ℕ → Quantum → ℕ → List TxInput → Type 0
  AllPass utxo_lookup tx height fee idx [] = Unit
  AllPass utxo_lookup tx height fee idx (i ∷ is) =
      ((utxo : TxOutput) × (utxo_lookup i.previous_output ≡ some utxo)
        × (run_contract blake3 ed25519 tx height fee
              (record { input_idx = idx; input = i; utxo = utxo })
            ≡ ok true))
      × AllPass utxo_lookup tx height fee (suc idx) is

  -- A transaction pays out no more than the ledger holds for its inputs, and their contracts succeed
  -- with the difference as the fee.
  pub record IsSound (utxo_lookup : UtxoLookup) (height : ℕ) (tx : Transaction) : Type 0 where
    pub conserved : total_value tx.outputs ≤ funds utxo_lookup tx.inputs
    pub contracts :
        AllPass utxo_lookup tx height
          (funds utxo_lookup tx.inputs - total_value tx.outputs)
          0
          tx.inputs

  run_contracts-AllPass :
      (utxo_lookup : UtxoLookup) (tx : Transaction) (height : ℕ) (fee : Quantum) (idx : ℕ)
      (inputs : List TxInput) (spent : List SpentInput)
      → IsFound utxo_lookup idx inputs spent
      → Ensures
          (λ _. AllPass utxo_lookup tx height fee idx inputs)
          (run_contracts blake3 ed25519 tx height fee spent)
  unfolding run_contracts
  run_contracts-AllPass utxo_lookup tx height fee idx [] [] h = returns tt
  run_contracts-AllPass utxo_lookup tx height fee idx [] (s ∷ ss) h = absurd h
  run_contracts-AllPass utxo_lookup tx height fee idx (i ∷ is) [] h = absurd h
  run_contracts-AllPass utxo_lookup tx height fee idx (i ∷ is) (s ∷ ss) h =
      let failed = script_execution_failed (txid blake3 tx) s.input_idx in
      let run = run_contract blake3 ed25519 tx height fee s in
      Ensures-bind (Ensures-map_err failed run (Ensures-self run)) λ valid e.
        Ensures-bind (Ensures-guard valid (failed script_failed)) λ _ t.
          Ensures-bind (run_contracts-AllPass utxo_lookup tx height fee (suc idx) is ss h.2)
            λ later k.
              let passed : run ≡ ok true = (rw t at e) in
              returns ((s.utxo, h.1, (rw (← h.0) passed)), k)

  verify_transaction-IsSound :
      (utxo_lookup : UtxoLookup) (height : ℕ) (spent : List OutPoint) (tx : Transaction)
      → Ensures
          (λ _. is_coinbase tx ≡ false → IsSound utxo_lookup height tx)
          (verify_transaction blake3 ed25519 utxo_lookup height spent tx)
  unfolding verify_transaction
  verify_transaction-IsSound utxo_lookup height spent tx = elim (Bool-cases (is_coinbase tx)) [
    | inl coinbase ↦ rw coinbase (returns λ other. cc)
    | inr other ↦ rw other (
        Ensures-bind (sum_outputs-exact 0 tx.outputs) λ total_out out.
          Ensures-bind (resolve_inputs-IsFunded utxo_lookup spent 0 0 tx.inputs) λ r is.
            Ensures-bind
              (Ensures-guard (not (ltb r.total_input_val total_out))
                (value_inflation (txid blake3 tx) r.total_input_val total_out))
              λ _ below.
                Ensures-bind
                  (Ensures-map_err (λ _. arithmetic_overflow)
                    (checked_sub r.total_input_val total_out)
                    (checked_sub-exact r.total_input_val total_out))
                  λ fee e.
                    Ensures-bind
                      (run_contracts-AllPass utxo_lookup tx height fee 0 tx.inputs r.spent_utxos
                        is.found)
                      λ ops k.
                        let v = is.value in
                        let enough = at_most total_out r.total_input_val below in
                        let fee_is : fee ≡ funds utxo_lookup tx.inputs - total_value tx.outputs =
                          omega (arith, e, v, out) in
                        returns λ _. record {
                          conserved = omega (arith, enough, v, out);
                          contracts = rw fee_is at k;
                        })
  ]

  verify_transactions-IsSound :
      (utxo_lookup : UtxoLookup) (height : ℕ) (spent : List OutPoint) (txs : List Transaction)
      → Ensures
          (λ _. All (λ tx. is_coinbase tx ≡ false → IsSound utxo_lookup height tx) txs)
          (verify_transactions blake3 ed25519 utxo_lookup height spent txs)
  unfolding verify_transactions
  verify_transactions-IsSound utxo_lookup height spent [] = returns tt
  verify_transactions-IsSound utxo_lookup height spent (tx ∷ txs) =
      Ensures-bind (verify_transaction-IsSound utxo_lookup height spent tx) λ p here.
        Ensures-bind (verify_transactions-IsSound utxo_lookup height p.0 txs)
          λ later rest. returns (here, rest)

  -- If the invariants of a block hold, then each transaction of it that is no coinbase pays out no
  -- more than the ledger holds for its inputs, and for each of its inputs the ledger has an output
  -- whose contract, run with the difference as the fee, answers true.
  pub verify_block_invariants-IsSound :
      (block : Block) (utxo_lookup : UtxoLookup) (spent : List OutPoint)
      → verify_block_invariants blake3 ed25519 block utxo_lookup ≡ ok spent
      → All
          (λ tx. is_coinbase tx ≡ false → IsSound utxo_lookup block.header.height tx)
          block.transactions
  unfolding verify_block_invariants
  verify_block_invariants-IsSound block utxo_lookup spent h =
      Ensures-value _
        (verify_transactions-IsSound utxo_lookup block.header.height [] block.transactions) h
