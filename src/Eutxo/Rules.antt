-- ===== src/Eutxo/Rules.antt =====
-- When the checks of locktime.rs, maturity.rs and fee.rs pass.
use aurion.Prelude.{
  ℕ, ◌+◌, ◌*◌, ◌^◌, ◌≤◌, ◌<◌, ◌≡◌, ◌↔◌, ◌⊎◌, inl, inr, false, length, Bool-cases, arith,
}
use aurion.Result.{ok}
use aurion.Core.OutPoint.{OutPoint}
use aurion.Core.Tx.{Transaction, encode_transaction}
use aurion.Eutxo.State.{ExtendedUtxo}
use aurion.Eutxo.Locktime.{verify_transaction_locktime}
use aurion.Eutxo.Maturity.{verify_coinbase_maturity}
use aurion.Eutxo.Fee.{verify_transaction_fee}

-- A transaction whose absolute locktime is met stays so: at no greater height and no later median
-- time is it refused again.
pub verify_transaction_locktime_mono :
    (tx : Transaction) (height height' mtp mtp' : ℕ)
    → height ≤ height'
    → mtp ≤ mtp'
    → verify_transaction_locktime tx height mtp ≡ ok tt
    → verify_transaction_locktime tx height' mtp' ≡ ok tt
unfolding verify_transaction_locktime
verify_transaction_locktime_mono tx height height' mtp mtp' h m e = ground arith

-- A spend passes the maturity rule exactly if the output is no coinbase output, or if at least 100
-- blocks have passed since its height, and that height plus 100 fits 64 bits.
pub verify_coinbase_maturity_iff :
    (outpoint : OutPoint) (utxo : ExtendedUtxo) (height : ℕ)
    → (verify_coinbase_maturity outpoint utxo height ≡ ok tt) ↔ (
        (utxo.is_coinbase ≡ false)
        ⊎ ((utxo.creation_height + 100 ≤ height) × (utxo.creation_height + 100 < 2 ^ 64)))
unfolding verify_coinbase_maturity
verify_coinbase_maturity_iff outpoint utxo height = (
  (λ h. elim (Bool-cases utxo.is_coinbase) [
    | inl t ↦ inr (ground arith, ground arith)
    | inr f ↦ inl f
  ]),
  (λ h. ground arith),
)

-- The fee check returns `fee` exactly if the encoding has at most 100,000 bytes, the outputs are
-- worth no more than the inputs, `fee` is the difference, and it pays 10 for each byte.
pub verify_transaction_fee_iff :
    (tx : Transaction) (total_in total_out fee : ℕ)
    → (verify_transaction_fee tx total_in total_out ≡ ok fee) ↔ (
        (length (encode_transaction tx) ≤ 100_000)
        × (total_out + fee ≡ total_in)
        × (length (encode_transaction tx) * 10 ≤ fee))
unfolding verify_transaction_fee
verify_transaction_fee_iff tx total_in total_out fee =
    ((λ h. (ground arith, ground arith, ground arith)), (λ h. ground arith))
