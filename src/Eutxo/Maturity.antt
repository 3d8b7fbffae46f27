-- ===== src/Eutxo/Maturity.antt =====
-- crates/aurion-eutxo/src/maturity.rs
use aurion.Prelude.{ℕ, ◌+◌, ◌^◌, not, ltb, leb, if◌then◌else◌}
use aurion.Result.{Result, ok, err}
use aurion.Core.OutPoint.{OutPoint}
use aurion.Eutxo.Error.{EutxoError, immature_coinbase_spend, arithmetic_overflow}
use aurion.Eutxo.State.{ExtendedUtxo}

abbrev pub coinbase_maturity : ℕ
coinbase_maturity = 100

unfoldable pub verify_coinbase_maturity : OutPoint → ExtendedUtxo → ℕ → Result EutxoError (Unit {0})
verify_coinbase_maturity outpoint utxo current_height =
    let spendable_height = utxo.creation_height + coinbase_maturity in
    if not utxo.is_coinbase
    then ok tt
    else if leb (256 ^ 8) spendable_height
    then err arithmetic_overflow
    else if ltb current_height spendable_height
    then err (immature_coinbase_spend outpoint utxo.creation_height spendable_height current_height)
    else ok tt
