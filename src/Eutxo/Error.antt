-- ===== src/Eutxo/Error.antt =====
-- crates/aurion-eutxo/src/error.rs
use aurion.Prelude.{ℕ}
use aurion.Core.OutPoint.{OutPoint}

-- Each constructor takes the fields of the source in their order.
pub data EutxoError : Type 0 where
  immature_coinbase_spend : OutPoint → ℕ → ℕ → ℕ → EutxoError
  locktime_not_met : ℕ → ℕ → EutxoError
  relative_locktime_not_met : ℕ → ℕ → ℕ → EutxoError
  insufficient_fee : ℕ → ℕ → ℕ → EutxoError
  transaction_too_large : ℕ → ℕ → EutxoError
  arithmetic_overflow : EutxoError
  utxo_not_found : OutPoint → EutxoError
  duplicate_input : OutPoint → EutxoError
