-- ===== src/Node/Ledger/Sound.antt =====
-- What the invariants of a block establish on the store holds of the ledger that the store stands for
-- (crates/aurion-node/src/invariants/mod.rs on crates/aurion-storage/src/engine.rs).
use aurion.Prelude.{
  ℕ, suc, ◌-◌, ◌≡◌, refl, sym, ◌∙◌, List, [], ◌∷◌, All, All-append, false, Option, some, Bool-cases,
  inl, inr,
}
use aurion.Result.{Result}
use aurion.Primitives.Hash.{Blake3}
use aurion.Primitives.Quantum.{Quantum}
use aurion.Core.OutPoint.{OutPoint, IsOutPoint}
use aurion.Core.Tx.{TxInput, TxOutput, Transaction, IsInput, IsTransaction, is_coinbase}
use aurion.Consensus.Verification.Accepted.{total_value}
use aurion.Script.Engine.{Ed25519}
use aurion.Storage.Redb.{Redb, RedbLaws}
use aurion.Storage.Engine.{StorageError, get_utxo}
use aurion.Storage.Reads.{Delivers, delivers, fails, get_utxo-Delivers}
use aurion.Storage.Refinement.{Ledger, Represents}
use aurion.Node.Authority.{unwrap_or_none}
use aurion.Node.Invariants.{UtxoLookup, outpoints}
use aurion.Node.Invariants.Spent.{consumed, consumed_by}
use aurion.Node.Invariants.Sound.{IsSound, AllPass, funds}

-- What a lookup finds is in the ledger.
abbrev pub Agrees : UtxoLookup → Ledger → Type 0
Agrees lookup ledger =
    (op : OutPoint) (output : TxOutput)
    → IsOutPoint op
    → lookup op ≡ some output
    → ledger op ≡ some output

found_in :
    {E : Type 0} (r : Result (StorageError E) (Option TxOutput)) (held : Option TxOutput)
    (output : TxOutput)
    → Delivers (λ found. found ≡ held) r
    → unwrap_or_none r ≡ some output
    → held ≡ some output
found_in _ held output (delivers same) h = sym same ∙ h
found_in _ held output fails h = cc

-- A read that fails counts as a missing output, and finds nothing that is not there.
pub get_utxo-Agrees :
    (redb : Redb) (laws : RedbLaws redb) (db : redb.Database) (ledger : Ledger)
    → Represents (laws.content db) ledger
    → Agrees (λ op. unwrap_or_none (get_utxo redb db op)) ledger
get_utxo-Agrees redb laws db ledger rep op output is h =
    found_in (get_utxo redb db op) (ledger op) output
      (get_utxo-Delivers redb laws db ledger op rep is) h

module _ (blake3 : Blake3) (ed25519 : Ed25519) (lookup ledger : UtxoLookup)
    (agrees : Agrees lookup ledger) where
  pass :
      (tx : Transaction) (height : ℕ) (fee : Quantum) (idx : ℕ) (inputs : List TxInput)
      → All IsInput inputs
      → AllPass blake3 ed25519 lookup tx height fee idx inputs
      → AllPass blake3 ed25519 ledger tx height fee idx inputs
  pass tx height fee idx [] is h = tt
  pass tx height fee idx (input ∷ inputs) is h =
      let (output, found, passes) = h.0 in
      (
        (output, agrees input.previous_output output is.0.previous_output found, passes),
        pass tx height fee (suc idx) inputs is.1 h.1,
      )

  same_funds :
      (tx : Transaction) (height : ℕ) (fee : Quantum) (idx : ℕ) (inputs : List TxInput)
      → All IsInput inputs
      → AllPass blake3 ed25519 lookup tx height fee idx inputs
      → funds lookup inputs ≡ funds ledger inputs
  unfolding funds
  same_funds tx height fee idx [] is h = refl
  same_funds tx height fee idx (input ∷ inputs) is h =
      let (output, found, passes) = h.0 in
      let there = agrees input.previous_output output is.0.previous_output found in
      let rest = same_funds tx height fee (suc idx) inputs is.1 h.1 in rw (found, there, rest) refl

  transferred :
      (height : ℕ) (tx : Transaction)
      → IsTransaction tx
      → IsSound blake3 ed25519 lookup height tx
      → IsSound blake3 ed25519 ledger height tx
  transferred height tx is sound =
      let same =
        same_funds tx height (funds lookup tx.inputs - total_value tx.outputs) 0 tx.inputs is.inputs
          sound.contracts in
      let moved =
        pass tx height (funds lookup tx.inputs - total_value tx.outputs) 0 tx.inputs is.inputs
          sound.contracts in
      record { conserved = (rw same at sound.conserved); contracts = (rw same at moved) }

  pub each_transferred :
      (height : ℕ) (txs : List Transaction)
      → All IsTransaction txs
      → All (λ tx. is_coinbase tx ≡ false → IsSound blake3 ed25519 lookup height tx) txs
      → All (λ tx. is_coinbase tx ≡ false → IsSound blake3 ed25519 ledger height tx) txs
  each_transferred height [] is h = tt
  each_transferred height (tx ∷ txs) is h =
      ((λ other. transferred height tx is.0 (h.0 other)), each_transferred height txs is.1 h.1)

-- The outpoints that valid transactions spend are valid.
inputs_valid : (inputs : List TxInput) → All IsInput inputs → All IsOutPoint (outpoints inputs)
unfolding outpoints
inputs_valid [] is = tt
inputs_valid (input ∷ inputs) is = (is.0.previous_output, inputs_valid inputs is.1)

pub consumed_valid :
    (txs : List Transaction) → All IsTransaction txs → All IsOutPoint (consumed txs)
unfolding consumed consumed_by
consumed_valid [] is = tt
consumed_valid (tx ∷ txs) is = elim (Bool-cases (is_coinbase tx)) [
  | inl coinbase ↦ rw coinbase (consumed_valid txs is.1)
  | inr other ↦ rw other (
      All-append IsOutPoint (outpoints tx.inputs) (consumed txs)
        (inputs_valid tx.inputs is.0.inputs) (consumed_valid txs is.1))
]
