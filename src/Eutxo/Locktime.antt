-- ===== src/Eutxo/Locktime.antt =====
-- crates/aurion-eutxo/src/locktime.rs
use aurion.Prelude.{
  ℕ, ◌-◌, ◌/◌, ◌%◌, ◌^◌, List, [], ◌∷◌, Bool, false, not, ◌||◌, ◌==◌, ltb, if◌then◌else◌,
}
use aurion.Result.{Result, ok, err}
use aurion.Core.Tx.{TxInput, Transaction}
use aurion.Eutxo.Error.{EutxoError, locktime_not_met, relative_locktime_not_met}
use aurion.Eutxo.State.{ExtendedUtxo}

abbrev pub locktime_threshold_unix : ℕ
locktime_threshold_unix = 500_000_000

abbrev pub final_sequence : ℕ
final_sequence = 0xFFFF_FFFF

-- `tx.inputs.iter().any(|i| i.sequence != 0xFFFF_FFFF)`
unfoldable pub has_active_lock : List TxInput → Bool
has_active_lock [] = false
has_active_lock (input ∷ inputs) = not (input.sequence == final_sequence) || has_active_lock inputs

unfoldable pub verify_transaction_locktime : Transaction → ℕ → ℕ → Result EutxoError (Unit {0})
verify_transaction_locktime tx block_height median_time_past =
    if not (has_active_lock tx.inputs) || tx.locktime == 0
    then ok tt
    else if ltb tx.locktime locktime_threshold_unix
    then (if ltb block_height tx.locktime
        then err (locktime_not_met tx.locktime block_height)
        else ok tt)
    else if ltb median_time_past tx.locktime
    then err (locktime_not_met tx.locktime median_time_past)
    else ok tt

-- `sequence & 0x8000_0000 != 0` is bit 31, and `sequence & 0x0000_FFFF` the low 16 bits.
unfoldable pub is_disabled : ℕ → Bool
is_disabled sequence = sequence / 2 ^ 31 % 2 == 1

unfoldable pub required_delay : ℕ → ℕ
required_delay sequence = sequence % 2 ^ 16

-- `saturating_sub` is the subtraction of ℕ.
unfoldable pub verify_relative_sequence : ℕ → ExtendedUtxo → ℕ → ℕ → Result EutxoError (Unit {0})
unfolding is_disabled required_delay
verify_relative_sequence input_sequence utxo current_height input_index =
    let passed_blocks = current_height - utxo.creation_height in
    if is_disabled input_sequence
    then ok tt
    else if ltb passed_blocks (required_delay input_sequence)
    then err (relative_locktime_not_met input_index (required_delay input_sequence) passed_blocks)
    else ok tt
