-- ===== src/Storage/Refinement.antt =====
-- The store implements a ledger: a function from outpoints to the outputs that are unspent
-- (crates/aurion-storage/src/engine.rs).
use aurion.Prelude.{
  ℕ, ◌+◌, ◌%◌, ◌^◌, ◌<◌, ◌≡◌, refl, List, [], ◌∷◌, All, false, Bool-cases, inl, inr, arith, Option,
  none, some, if◌then◌else◌,
}
use aurion.Map.Laws.{beq_refl, beq_other, some-injective}
use aurion.Result.{Ensures, Ensures-weaken}
use aurion.Bytes.{Bytes}
use aurion.Map.{bytes_key}
use aurion.Primitives.Hash.{Hash256, Blake3, IsHash, digest-IsHash}
use aurion.Core.OutPoint.{OutPoint, IsOutPoint, outpoint_eq, encode_outpoint}
use aurion.Core.OutPoint.Key.{outpoint_key}
use aurion.Core.RoundTrip.{decode_outpoint-encode}
use aurion.Core.Tx.{TxOutput, Transaction, IsOutput, IsTransaction, encode_output, txid}
use aurion.Core.Block.{Block, IsBlockData}
use aurion.Storage.Redb.{Redb, RedbLaws, Slot, utxo_slot, slot_eq, Tables, write}
use aurion.Storage.Engine.{outpoint_of, commit_block}
use aurion.Storage.Tables.{
  erase_all, write_outputs, write_created, write_body, write_block, commit_block-tables,
}

abbrev pub Ledger : Type 0
Ledger = OutPoint → Option TxOutput

unfoldable pub assign : OutPoint → Option TxOutput → Ledger → Ledger
assign op value ledger other = if outpoint_eq other op then value else ledger other

unfoldable pub spend_all : List OutPoint → Ledger → Ledger
spend_all [] ledger = ledger
spend_all (op ∷ ops) ledger = spend_all ops (assign op none ledger)

unfoldable pub create_outputs : Hash256 → ℕ → List TxOutput → Ledger → Ledger
create_outputs id vout [] ledger = ledger
create_outputs id vout (output ∷ outputs) ledger =
    create_outputs id (vout + 1) outputs (assign (outpoint_of id vout) (some output) ledger)

unfoldable pub create_all : Blake3 → List Transaction → Ledger → Ledger
create_all blake3 [] ledger = ledger
create_all blake3 (tx ∷ txs) ledger =
    create_all blake3 txs (create_outputs (txid blake3 tx) 0 tx.outputs ledger)

-- The ledger after a block: what it spends is gone, what its transactions create is there.
unfoldable pub apply_block : Blake3 → Block → List OutPoint → Ledger → Ledger
apply_block blake3 block spent ledger =
    create_all blake3 block.transactions (spend_all spent ledger)

abbrev pub encoded : Option TxOutput → Option Bytes
encoded none = none
encoded (some output) = some (encode_output output)

-- The table of outputs has the encoding of what the ledger holds, and the ledger holds valid outputs.
pub record Represents (tables : Tables) (ledger : Ledger) : Type 0 where
  pub stored :
      (op : OutPoint)
      → IsOutPoint op
      → tables (utxo_slot (encode_outpoint op)) ≡ encoded (ledger op)
  pub valid : (op : OutPoint) (output : TxOutput) → ledger op ≡ some output → IsOutput output

encode_outpoint-injective :
    (a b : OutPoint) → IsOutPoint a → IsOutPoint b → encode_outpoint a ≡ encode_outpoint b → a ≡ b
encode_outpoint-injective a b is is' h =
    let back = decode_outpoint-encode a [] is in
    let back' = decode_outpoint-encode b [] is' in let same = (rw h at back) in cc

-- A write of an output, or of none, to the table and to the ledger.
assign-Represents :
    (op : OutPoint) (value : Option TxOutput) {tables : Tables} {ledger : Ledger}
    → IsOutPoint op
    → ((output : TxOutput) → value ≡ some output → IsOutput output)
    → Represents tables ledger
    → Represents
        (write (utxo_slot (encode_outpoint op)) (encoded value) tables)
        (assign op value ledger)
unfolding write assign slot_eq
assign-Represents op value {tables} {ledger} is good rep = record {
  stored = λ other is'. elim (Bool-cases (outpoint_eq other op)) [
    | inl same ↦
        let here = (outpoint_key.beq_iff other op).0 same in
        rw (same, here, beq_refl ⦃e = bytes_key⦄ (encode_outpoint op)) refl
    | inr apart ↦
        let differ =
          beq_other ⦃e = bytes_key⦄ (encode_outpoint other) (encode_outpoint op) (λ equal.
            let here = encode_outpoint-injective other op is' is equal in
            let yes' = (outpoint_key.beq_iff other op).1 here in cc) in
        rw (apart, differ) (rep.stored other is')
  ];
  valid = λ other output h. elim (Bool-cases (outpoint_eq other op)) [
    | inl same ↦ good output (rw same at h)
    | inr apart ↦ rep.valid other output (rw apart at h)
  ];
}

spend_all-Represents :
    (ops : List OutPoint) {tables : Tables} {ledger : Ledger}
    → All IsOutPoint ops
    → Represents tables ledger
    → Represents (erase_all ops tables) (spend_all ops ledger)
unfolding erase_all spend_all
spend_all-Represents [] is rep = rep
spend_all-Represents (op ∷ ops) is rep =
    spend_all-Represents ops is.1 (assign-Represents op none is.0 (λ output h. cc) rep)

create_outputs-Represents :
    (id : Hash256) (vout : ℕ) (outputs : List TxOutput) {tables : Tables} {ledger : Ledger}
    → IsHash id
    → All IsOutput outputs
    → Represents tables ledger
    → Represents (write_outputs id vout outputs tables) (create_outputs id vout outputs ledger)
unfolding write_outputs create_outputs
create_outputs-Represents id vout [] is good rep = rep
create_outputs-Represents id vout (output ∷ outputs) is good rep =
    let fits : vout % 2 ^ 32 < 256 ^ 4 = omega arith in
    create_outputs-Represents id (vout + 1) outputs is good.1 (
      assign-Represents (outpoint_of id vout) (some output) (is, fits)
        (λ other h. let this = some-injective h in rw (← this) good.0) rep)

module _ (blake3 : Blake3) where
  create_all-Represents :
      (txs : List Transaction) {tables : Tables} {ledger : Ledger}
      → All IsTransaction txs
      → Represents tables ledger
      → Represents (write_created blake3 txs tables) (create_all blake3 txs ledger)
  unfolding write_created create_all txid
  create_all-Represents [] is rep = rep
  create_all-Represents (tx ∷ txs) is rep = create_all-Represents txs is.1 (
      create_outputs-Represents (txid blake3 tx) 0 tx.outputs (digest-IsHash blake3 _) is.0.outputs
        rep)

  -- A write to another table than that of the outputs.
  elsewhere :
      (slot : Slot) (value : Option Bytes) {tables : Tables} {ledger : Ledger}
      → ((key : Bytes) → slot_eq (utxo_slot key) slot ≡ false)
      → Represents tables ledger
      → Represents (write slot value tables) ledger
  unfolding write
  elsewhere slot value other rep = record {
    stored = λ op is. rw (other (encode_outpoint op)) (rep.stored op is);
    valid = rep.valid;
  }

  pub write_block-Represents :
      (block : Block) (spent : List OutPoint) {tables : Tables} {ledger : Ledger}
      → IsBlockData block
      → All IsOutPoint spent
      → Represents tables ledger
      → Represents (write_block blake3 block spent tables) (apply_block blake3 block spent ledger)
  unfolding write_block write_body apply_block slot_eq
  write_block-Represents block spent is valid rep =
      elsewhere _ _ (λ key. refl)
        (elsewhere _ _ (λ key. refl)
          (create_all-Represents block.transactions is.transactions (
            spend_all-Represents spent valid
              (elsewhere _ _ (λ key. refl) (elsewhere _ _ (λ key. refl) rep)))))

  -- If the table of outputs stands for a ledger, then a commit of a valid block that succeeds leaves
  -- one that stands for the ledger after the block: without the outpoints given as spent, and with
  -- the outputs that the block's transactions create.
  pub commit_block-Represents :
      (redb : Redb) (laws : RedbLaws redb) (db : redb.Database) (block : Block)
      (spent : List OutPoint) (ledger : Ledger)
      → IsBlockData block
      → All IsOutPoint spent
      → Represents (laws.content db) ledger
      → Ensures
          (λ after. Represents (laws.content after) (apply_block blake3 block spent ledger))
          (commit_block redb blake3 db block spent)
  commit_block-Represents redb laws db block spent ledger is valid rep =
      Ensures-weaken _ (commit_block-tables redb laws blake3 db block spent)
        λ after e. rw e (write_block-Represents block spent is valid rep)
