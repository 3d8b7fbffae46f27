-- ===== src/Node/Mempool/Validation/Admitted.antt =====
-- What `validate_for_mempool` admits (crates/aurion-node/src/mempool/validation.rs).
use aurion.Prelude.{
  ℕ, suc, ◌+◌, ◌*◌, ◌^◌, ◌≤◌, ◌≡◌, refl, List, [], ◌∷◌, All, true, false, not, ◌||◌, ◌==◌, ltb,
  none, some, length, Bool-cases, not-true, at_most, Option-cases, inl, inr, arith,
}
use aurion.Result.{
  Result, ok, map_err, Ensures, returns, raises, Ensures-bind, Ensures-any, Ensures-guard,
  Ensures-ok_or, Ensures-value, Ensures-self, Ensures-map_err, Ensures-weaken,
}
use aurion.Primitives.Hash.{Blake3}
use aurion.Primitives.Quantum.{Quantum, checked_add, checked_sub}
use aurion.Primitives.Quantum.Exact.{checked_add-exact, checked_sub-exact}
use aurion.Core.Tx.{Transaction, TxInput, TxOutput, is_coinbase, encode_transaction}
use aurion.Consensus.Verification.Accepted.{total_value}
use aurion.Eutxo.State.{UtxoView, ExtendedUtxo}
use aurion.Eutxo.Locktime.{verify_transaction_locktime, verify_relative_sequence}
use aurion.Eutxo.Maturity.{verify_coinbase_maturity}
use aurion.Eutxo.Fee.{max_tx_size_bytes, verify_transaction_fee}
use aurion.Script.Engine.{Ed25519}
use aurion.Node.Mempool.Validation.{
  oversized_transaction, empty_transaction, coinbase_not_allowed, missing_utxo, immature_coinbase,
  locktime_reject, sequence_reject, value_conservation_violation, insufficient_fee, fee_too_low,
  script_execution_failed, contract_condition_failed, arithmetic_overflow, Reservations,
  check_reserved, next_height, add_value, ResolvedInput, resolve_utxos, add_outputs, required_fee,
  run_input, run_inputs, validate_for_mempool,
}

-- What the ledger holds for inputs, each occurrence of an outpoint counted.
unfoldable pub view_funds : UtxoView → List TxInput → ℕ
view_funds utxo_view [] = 0
view_funds utxo_view (input ∷ inputs) =
    elim (utxo_view input.previous_output) [ none ↦ 0 | some utxo ↦ utxo.value ]
    + view_funds utxo_view inputs

check_reserved-none :
    (reserved : Reservations) (inputs : List TxInput)
    → Ensures
        (λ _. All (λ (i : TxInput). reserved i.previous_output ≡ none) inputs)
        (check_reserved reserved inputs)
unfolding check_reserved
check_reserved-none reserved [] = returns tt
check_reserved-none reserved (i ∷ is) = elim (Option-cases (reserved i.previous_output)) [
  | inl free ↦
      rw (check_reserved, free)
        (Ensures-weaken (check_reserved reserved is) (check_reserved-none reserved is)
          λ _ h. (refl, h))
  | inr (t, taken) ↦ rw (check_reserved, taken) raises
]

next_height-exact : (tip : ℕ) → Ensures (λ h. h ≡ tip + 1) (next_height tip)
unfolding next_height
next_height-exact tip = elim (Bool-cases (ltb (tip + 1) (256 ^ 8))) [
  | inl fits ↦ rw fits (returns refl)
  | inr over ↦ rw over raises
]

required_fee-exact : (size : ℕ) → Ensures (λ fee. fee ≡ size * 10) (required_fee size)
unfolding required_fee
required_fee-exact size = elim (Bool-cases (ltb (size * 10) (256 ^ 16))) [
  | inl fits ↦ rw fits (returns refl)
  | inr over ↦ rw over raises
]

add_value-exact : (a b : ℕ) → Ensures (λ c. c ≡ a + b) (add_value a b)
add_value-exact a b =
    Ensures-map_err (λ _. arithmetic_overflow) (checked_add a b) (checked_add-exact a b)

add_outputs-exact :
    (total : ℕ) (outputs : List TxOutput)
    → Ensures (λ c. c ≡ total + total_value outputs) (add_outputs total outputs)
unfolding add_outputs total_value
add_outputs-exact total [] = returns (omega arith)
add_outputs-exact total (output ∷ outputs) =
    Ensures-bind (add_value-exact total output.value) λ t e.
      Ensures-weaken (add_outputs t outputs) (add_outputs-exact t outputs)
        λ c h. omega (arith, e, h)

-- The ledger has an output for the input, and the rules on coinbases and relative locks hold.
pub record IsSpendable (height idx : ℕ) (input : TxInput) (utxo : ExtendedUtxo) : Type 0 where
  pub mature : verify_coinbase_maturity input.previous_output utxo height ≡ ok tt
  pub unlocked : verify_relative_sequence input.sequence utxo height idx ≡ ok tt

abbrev IsFound : UtxoView → ℕ → ℕ → List TxInput → List ResolvedInput → Type 0
IsFound utxo_view height idx [] [] = Unit
IsFound utxo_view height idx (i ∷ is) (r ∷ rs) =
    (r ≡ record { input_idx = idx; input = i; utxo = r.utxo })
    × (utxo_view i.previous_output ≡ some r.utxo)
    × IsSpendable height idx i r.utxo
    × IsFound utxo_view height (suc idx) is rs
IsFound utxo_view height idx _ _ = ⊥

abbrev Funded : UtxoView → ℕ → ℕ → ℕ → List TxInput → ℕ × List ResolvedInput → Type 0
Funded utxo_view height total idx inputs p =
    (p.0 ≡ total + view_funds utxo_view inputs) × IsFound utxo_view height idx inputs p.1

-- A check of another crate, with its error wrapped.
passed :
    {E F : Type 0} (wrap : E → F) (r : Result E (Unit {0}))
    → Ensures (λ _. r ≡ ok tt) (map_err wrap r)
passed wrap r = Ensures-map_err wrap r (Ensures-weaken r (Ensures-self r) λ _ e. e)

resolve_utxos-Funded :
    (utxo_view : UtxoView) (height : ℕ) (total : Quantum) (idx : ℕ) (inputs : List TxInput)
    → Ensures
        (Funded utxo_view height total idx inputs)
        (resolve_utxos utxo_view height total idx inputs)
unfolding resolve_utxos view_funds
resolve_utxos-Funded utxo_view height total idx [] = returns (omega arith, tt)
resolve_utxos-Funded utxo_view height total idx (input ∷ inputs) =
    let op = input.previous_output in
    Ensures-bind (Ensures-ok_or (utxo_view op) (missing_utxo op)) λ utxo here.
      Ensures-bind (passed immature_coinbase (verify_coinbase_maturity op utxo height)) λ _ mature.
        Ensures-bind
          (passed sequence_reject (verify_relative_sequence input.sequence utxo height idx))
          λ _ unlocked. Ensures-bind (add_value-exact total utxo.value) λ total' e.
            Ensures-bind (resolve_utxos-Funded utxo_view height total' (suc idx) inputs) λ p h.
              let v = h.0 in
              returns (
                rw here (omega (arith, e, v)),
                (refl, here, record { mature = mature; unlocked = unlocked }, h.1),
              )

nonempty : (a b : ℕ) → not (a == 0 || b == 0) ≡ true → (1 ≤ a) × (1 ≤ b)
nonempty a b h = (ground arith, ground arith)

module _ (blake3 : Blake3) (ed25519 : Ed25519) where
  -- Each input from `idx` on has an output in the ledger that it may spend and whose contract
  -- answers true.
  abbrev pub AllAdmitted : UtxoView → Transaction → ℕ → Quantum → ℕ → List TxInput → Type 0
  AllAdmitted utxo_view tx height fee idx [] = Unit
  AllAdmitted utxo_view tx height fee idx (i ∷ is) =
      ((utxo : ExtendedUtxo) × (utxo_view i.previous_output ≡ some utxo)
        × IsSpendable height idx i utxo
        × (run_input blake3 ed25519 tx height fee
              (record { input_idx = idx; input = i; utxo = utxo })
            ≡ ok true))
      × AllAdmitted utxo_view tx height fee (suc idx) is

  run_inputs-AllAdmitted :
      (utxo_view : UtxoView) (tx : Transaction) (height : ℕ) (fee : Quantum) (idx : ℕ)
      (inputs : List TxInput) (resolved : List ResolvedInput)
      → IsFound utxo_view height idx inputs resolved
      → Ensures
          (λ _. AllAdmitted utxo_view tx height fee idx inputs)
          (run_inputs blake3 ed25519 tx height fee resolved)
  unfolding run_inputs
  run_inputs-AllAdmitted utxo_view tx height fee idx [] [] h = returns tt
  run_inputs-AllAdmitted utxo_view tx height fee idx [] (r ∷ rs) h = absurd h
  run_inputs-AllAdmitted utxo_view tx height fee idx (i ∷ is) [] h = absurd h
  run_inputs-AllAdmitted utxo_view tx height fee idx (i ∷ is) (r ∷ rs) h =
      let run = run_input blake3 ed25519 tx height fee r in
      Ensures-bind (Ensures-map_err script_execution_failed run (Ensures-self run)) λ valid e.
        Ensures-bind (Ensures-guard valid (contract_condition_failed r.input_idx)) λ _ t.
          let answers : run ≡ ok true = (rw t at e) in
          Ensures-weaken (run_inputs blake3 ed25519 tx height fee rs)
            (run_inputs-AllAdmitted utxo_view tx height fee (suc idx) is rs h.3)
            λ _ k. ((r.utxo, h.1, h.2, (rw (← h.0) answers)), k)

  -- What the six gates promise of a transaction and its fee.
  pub record IsAdmitted (tx : Transaction) (utxo_view : UtxoView) (reserved : Reservations)
      (tip mtp : ℕ) (fee : Quantum) : Type 0 where
    pub size : length (encode_transaction tx) ≤ max_tx_size_bytes
    pub spends : 1 ≤ length tx.inputs
    pub pays : 1 ≤ length tx.outputs
    pub no_coinbase : is_coinbase tx ≡ false
    pub unreserved : All (λ (i : TxInput). reserved i.previous_output ≡ none) tx.inputs
    pub unlocked : verify_transaction_locktime tx (tip + 1) mtp ≡ ok tt
    pub balance : total_value tx.outputs + fee ≡ view_funds utxo_view tx.inputs
    pub fee_rate : length (encode_transaction tx) * 10 ≤ fee
    pub inputs : AllAdmitted utxo_view tx (tip + 1) fee 0 tx.inputs

  validate-IsAdmitted :
      (tx : Transaction) (utxo_view : UtxoView) (reserved : Reservations) (tip mtp : ℕ)
      → Ensures
          (IsAdmitted tx utxo_view reserved tip mtp)
          (validate_for_mempool blake3 ed25519 tx utxo_view reserved tip mtp)
  unfolding validate_for_mempool
  validate-IsAdmitted tx utxo_view reserved tip mtp =
      let size = length (encode_transaction tx) in
      Ensures-bind (Ensures-guard (not (ltb max_tx_size_bytes size)) (oversized_transaction size))
        λ _ small.
          Ensures-bind
            (Ensures-guard (not (length tx.inputs == 0 || length tx.outputs == 0))
              empty_transaction)
            λ _ full.
              Ensures-bind (Ensures-guard (not (is_coinbase tx)) coinbase_not_allowed) λ _ other.
                Ensures-bind (check_reserved-none reserved tx.inputs) λ _ free.
                  Ensures-bind (next_height-exact tip) λ height next.
                    Ensures-bind
                      (passed locktime_reject (verify_transaction_locktime tx height mtp))
                      λ _ unlocked.
                        Ensures-bind (resolve_utxos-Funded utxo_view height 0 0 tx.inputs)
                          λ p funded. Ensures-bind (add_outputs-exact 0 tx.outputs) λ total_out out.
                            Ensures-bind
                              (Ensures-guard (not (ltb p.0 total_out)) value_conservation_violation)
                              λ _ enough.
                                Ensures-bind
                                  (Ensures-map_err (λ _. arithmetic_overflow)
                                    (checked_sub p.0 total_out) (checked_sub-exact p.0 total_out))
                                  λ fee e.
                                    Ensures-bind
                                      (run_inputs-AllAdmitted utxo_view tx height fee 0 tx.inputs
                                        p.1 funded.1)
                                      λ _ passes.
                                        Ensures-bind (required_fee-exact size) λ required needed.
                                          Ensures-bind
                                            (Ensures-any (
                                              map_err insufficient_fee
                                                (verify_transaction_fee tx p.0 total_out)))
                                            λ _ _.
                                              Ensures-bind
                                                (Ensures-guard (not (ltb fee required))
                                                  (fee_too_low fee required))
                                                λ _ rate.
                                                  let sum = funded.0 in
                                                  returns (record {
                                                    size = at_most size max_tx_size_bytes small;
                                                    spends = (nonempty _ _ full).0;
                                                    pays = (nonempty _ _ full).1;
                                                    no_coinbase = not-true _ other;
                                                    unreserved = free;
                                                    unlocked = rw next at unlocked;
                                                    balance =
                                                        (let covers =
                                                            at_most total_out p.0 enough in
                                                          omega (arith, covers, e, out, sum));
                                                    fee_rate =
                                                        (let covers = at_most required fee rate in
                                                          omega (arith, covers, needed));
                                                    inputs = rw next at passes;
                                                  })

  -- A transaction that the mempool's validation admits, with the fee that it returns: it has at most
  -- 100,000 bytes, inputs and outputs, and is no coinbase; none of its outpoints is reserved; its
  -- locktime is met at the next height; its outputs and the fee are worth what the ledger holds for
  -- its inputs; the fee is at least 10 for each byte; and each input spends an output of the ledger
  -- that is mature, whose relative lock is met, and whose contract answers true.
  pub validate_for_mempool-IsAdmitted :
      (tx : Transaction) (utxo_view : UtxoView) (reserved : Reservations) (tip mtp : ℕ)
      (fee : Quantum)
      → validate_for_mempool blake3 ed25519 tx utxo_view reserved tip mtp ≡ ok fee
      → IsAdmitted tx utxo_view reserved tip mtp fee
  validate_for_mempool-IsAdmitted tx utxo_view reserved tip mtp fee h =
      Ensures-value _ (validate-IsAdmitted tx utxo_view reserved tip mtp) h
