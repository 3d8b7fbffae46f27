-- ===== src/Node/Invariants/Spent.antt =====
-- What `verify_block_invariants` says of the outpoints that a block spends
-- (crates/aurion-node/src/authority/invariants.rs).
use aurion.Prelude.{
  ℕ, suc, ◌+◌, ◌≤◌, ◌≡◌, refl, List, [], ◌∷◌, ◌++◌, false, not, ltb, if◌then◌else◌, Bool-cases,
  not-true, inl, inr, arith,
}
use aurion.Result.{
  ok, guard, ok_or, map_err, Ensures, returns, Ensures-bind, Ensures-any, Ensures-guard,
  Ensures-value,
}
use aurion.Primitives.Hash.{Blake3}
use aurion.Primitives.Quantum.{Quantum, checked_add, checked_sub}
use aurion.Core.OutPoint.{OutPoint, outpoint_eq}
use aurion.Core.OutPoint.Key.{outpoint_eq-eq}
use aurion.Core.Tx.{Transaction, TxInput, is_coinbase, txid}
use aurion.Core.Block.{Block}
use aurion.Script.Error.{script_failed}
use aurion.Script.Engine.{Ed25519}
use aurion.Node.Invariants.{
  duplicate_input_spend, missing_utxo, value_inflation, script_execution_failed,
  arithmetic_overflow, UtxoLookup, outpoints, contains, sum_outputs, SpentInput, Resolved,
  resolve_inputs, run_contract, run_contracts, verify_transaction, verify_transactions,
  verify_block_invariants,
}

-- The outpoints that transactions spend, coinbases left out.
unfoldable pub consumed_by : Transaction → List OutPoint
consumed_by tx = if is_coinbase tx then [] else outpoints tx.inputs

unfoldable pub consumed : List Transaction → List OutPoint
consumed [] = []
consumed (tx ∷ txs) = consumed_by tx ++ consumed txs

-- How often an outpoint stands in a list.
unfoldable pub count : OutPoint → List OutPoint → ℕ
count op [] = 0
count op (p ∷ ps) = (if outpoint_eq op p then 1 else 0) + count op ps

-- The set after the outpoints are inserted in their order.
insert_all : List OutPoint → List OutPoint → List OutPoint
insert_all [] spent = spent
insert_all (op ∷ ops) spent = insert_all ops (op ∷ spent)

-- None of the outpoints is in the set, nor among those before it.
Fresh : List OutPoint → List OutPoint → Type 0
Fresh spent [] = Unit
Fresh spent (op ∷ ops) = (contains op spent ≡ false) × Fresh (op ∷ spent) ops

Fresh-append :
    (spent xs ys : List OutPoint)
    → Fresh spent xs
    → Fresh (insert_all xs spent) ys
    → Fresh spent (xs ++ ys)
unfolding Fresh insert_all
Fresh-append spent [] ys h k = k
Fresh-append spent (x ∷ xs) ys h k = (h.0, Fresh-append (x ∷ spent) xs ys h.1 k)

count-Fresh :
    (op : OutPoint) (spent ops : List OutPoint)
    → Fresh spent ops
    → (if contains op spent then 1 else 0) + count op ops ≤ 1
unfolding Fresh contains count
count-Fresh op spent [] h = ground arith
count-Fresh op spent (p ∷ ps) h = elim (Bool-cases (outpoint_eq op p)) [
  | inl e ↦
      let same = outpoint_eq-eq op p e in
      let absent : contains op spent ≡ false = (rw same h.0) in
      let ih = (rw e at (count-Fresh op (p ∷ spent) ps h.1)) in rw (e, absent) (omega (arith, ih))
  | inr e ↦ let ih = (rw e at (count-Fresh op (p ∷ spent) ps h.1)) in rw e (omega (arith, ih))
]

abbrev MapsTo : List SpentInput → List TxInput → Type 0
MapsTo [] [] = Unit
MapsTo (s ∷ ss) (i ∷ is) = (s.input ≡ i) × MapsTo ss is
MapsTo _ _ = ⊥

record IsResolved (spent : List OutPoint) (inputs : List TxInput) (r : Resolved) : Type 0 where
  fresh : Fresh spent (outpoints inputs)
  set : r.spent_set ≡ insert_all (outpoints inputs) spent
  same : MapsTo r.spent_utxos inputs

resolve_inputs-IsResolved :
    (utxo_lookup : UtxoLookup) (spent : List OutPoint) (total : Quantum) (idx : ℕ)
    (inputs : List TxInput)
    → Ensures (IsResolved spent inputs) (resolve_inputs utxo_lookup spent total idx inputs)
unfolding resolve_inputs outpoints insert_all Fresh
resolve_inputs-IsResolved utxo_lookup spent total idx [] =
    returns (record { fresh = tt; set = refl; same = tt })
resolve_inputs-IsResolved utxo_lookup spent total idx (input ∷ inputs) =
    let op = input.previous_output in
    Ensures-bind (Ensures-guard (not (contains op spent)) (duplicate_input_spend op)) λ _ new.
      Ensures-bind (Ensures-any (ok_or (utxo_lookup op) (missing_utxo op))) λ utxo _.
        Ensures-bind
          (Ensures-any (map_err (λ _. arithmetic_overflow) (checked_add total utxo.value)))
          λ total' _.
            Ensures-bind
              (resolve_inputs-IsResolved utxo_lookup (op ∷ spent) total' (suc idx) inputs)
              λ r is. returns (record {
                fresh = (not-true _ new, is.fresh);
                set = is.set;
                same = (refl, is.same);
              })

module _ (blake3 : Blake3) (ed25519 : Ed25519) where
  run_contracts-outpoints :
      (tx : Transaction) (height : ℕ) (fee : Quantum) (spent : List SpentInput)
      (inputs : List TxInput)
      → MapsTo spent inputs
      → Ensures (λ ops. ops ≡ outpoints inputs) (run_contracts blake3 ed25519 tx height fee spent)
  unfolding run_contracts outpoints
  run_contracts-outpoints tx height fee [] [] h = returns refl
  run_contracts-outpoints tx height fee [] (i ∷ is) h = absurd h
  run_contracts-outpoints tx height fee (s ∷ ss) [] h = absurd h
  run_contracts-outpoints tx height fee (s ∷ ss) (i ∷ is) h =
      let failed = script_execution_failed (txid blake3 tx) s.input_idx in
      Ensures-bind (Ensures-any (map_err failed (run_contract blake3 ed25519 tx height fee s)))
        λ valid _. Ensures-bind (Ensures-any (guard valid (failed script_failed))) λ _ _.
          Ensures-bind (run_contracts-outpoints tx height fee ss is h.1)
            λ later k. returns (rw (h.0, k) refl)

  record Consumes (spent ops : List OutPoint) (p : List OutPoint × List OutPoint) : Type 0 where
    fresh : Fresh spent ops
    set : p.0 ≡ insert_all ops spent
    here : p.1 ≡ ops

  verify_transaction-Consumes :
      (utxo_lookup : UtxoLookup) (height : ℕ) (spent : List OutPoint) (tx : Transaction)
      → Ensures
          (Consumes spent (consumed_by tx))
          (verify_transaction blake3 ed25519 utxo_lookup height spent tx)
  unfolding verify_transaction consumed_by insert_all Fresh
  verify_transaction-Consumes utxo_lookup height spent tx = elim (Bool-cases (is_coinbase tx)) [
    | inl coinbase ↦ rw coinbase (returns (record { fresh = tt; set = refl; here = refl }))
    | inr other ↦ rw other (
        Ensures-bind (Ensures-any (sum_outputs 0 tx.outputs)) λ total_out _.
          Ensures-bind (resolve_inputs-IsResolved utxo_lookup spent 0 0 tx.inputs) λ r is.
            Ensures-bind
              (Ensures-any (
                guard (not (ltb r.total_input_val total_out))
                  (value_inflation (txid blake3 tx) r.total_input_val total_out)))
              λ _ _.
                Ensures-bind
                  (Ensures-any
                    (map_err (λ _. arithmetic_overflow) (checked_sub r.total_input_val total_out)))
                  λ fee _.
                    Ensures-bind
                      (run_contracts-outpoints tx height fee r.spent_utxos tx.inputs is.same)
                      λ ops e. returns (record { fresh = is.fresh; set = is.set; here = e }))
  ]

  verify_transactions-Fresh :
      (utxo_lookup : UtxoLookup) (height : ℕ) (spent : List OutPoint) (txs : List Transaction)
      → Ensures
          (λ ops. (ops ≡ consumed txs) × Fresh spent (consumed txs))
          (verify_transactions blake3 ed25519 utxo_lookup height spent txs)
  unfolding verify_transactions consumed Fresh
  verify_transactions-Fresh utxo_lookup height spent [] = returns (refl, tt)
  verify_transactions-Fresh utxo_lookup height spent (tx ∷ txs) =
      Ensures-bind (verify_transaction-Consumes utxo_lookup height spent tx) λ p c.
        Ensures-bind (verify_transactions-Fresh utxo_lookup height p.0 txs) λ later h. returns (
          (rw (c.here, h.0) refl),
          Fresh-append spent (consumed_by tx) (consumed txs) c.fresh (rw c.set at h.1),
        )

  -- If the invariants of a block hold, the answer lists the outpoints that its transactions spend, in
  -- their order and with coinbases left out, and no outpoint stands there twice.
  pub verify_block_invariants-spent :
      (block : Block) (utxo_lookup : UtxoLookup) (spent : List OutPoint)
      → verify_block_invariants blake3 ed25519 block utxo_lookup ≡ ok spent
      → (spent ≡ consumed block.transactions) × ((op : OutPoint) → count op spent ≤ 1)
  unfolding verify_block_invariants contains
  verify_block_invariants-spent block utxo_lookup spent h =
      let (same, fresh) =
        Ensures-value _
          (verify_transactions-Fresh utxo_lookup block.header.height [] block.transactions) h in
      (
        same,
        λ op.
            let once = rw (← same) at (count-Fresh op [] (consumed block.transactions) fresh) in
            omega (arith, once),
      )
