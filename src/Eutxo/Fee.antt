-- ===== src/Eutxo/Fee.antt =====
-- crates/aurion-eutxo/src/fee.rs
use aurion.Prelude.{ℕ, ◌-◌, ◌*◌, length, ltb, leb, if◌then◌else◌}
use aurion.Result.{Result, ok, err}
use aurion.Primitives.Quantum.{u128_mod}
use aurion.Core.Tx.{Transaction, encode_transaction}
use aurion.Eutxo.Error.{EutxoError, transaction_too_large, arithmetic_overflow, insufficient_fee}

abbrev pub max_tx_size_bytes : ℕ
max_tx_size_bytes = 100_000

abbrev pub min_fee_per_byte_aur : ℕ
min_fee_per_byte_aur = 10

unfoldable pub verify_transaction_fee : Transaction → ℕ → ℕ → Result EutxoError ℕ
verify_transaction_fee tx total_input_val total_output_val =
    let tx_bytes = length (encode_transaction tx) in
    let required_fee = tx_bytes * min_fee_per_byte_aur in
    let actual_fee = total_input_val - total_output_val in
    if ltb max_tx_size_bytes tx_bytes
    then err (transaction_too_large tx_bytes max_tx_size_bytes)
    else if leb u128_mod required_fee
    then err arithmetic_overflow
    else if ltb total_input_val total_output_val
    then err arithmetic_overflow
    else if ltb actual_fee required_fee
    then err (insufficient_fee actual_fee required_fee min_fee_per_byte_aur)
    else ok actual_fee
