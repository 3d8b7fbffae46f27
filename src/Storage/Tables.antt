-- ===== src/Storage/Tables.antt =====
-- What a commit writes, as a function of the tables (crates/aurion-storage/src/engine.rs).
use aurion.Prelude.{ℕ, ◌+◌, ◌≡◌, ap, ◌∙◌, List, [], ◌∷◌, none, some}
use aurion.Result.{
  Result, ok, map_err, Ensures, returns, Ensures-bind, Ensures-self, Ensures-map_err,
  Ensures-weaken,
}
use aurion.Bytes.{Bytes, to_be}
use aurion.Primitives.Hash.{Hash256, Blake3}
use aurion.Core.OutPoint.{OutPoint, encode_outpoint}
use aurion.Core.Tx.{TxOutput, Transaction, encode_output, txid}
use aurion.Core.Block.{Block, encode_block, block_hash}
use aurion.Storage.Redb.{
  Redb, RedbLaws, Table, Slot, block_slot, utxo_slot, height_slot, blocks_table, height_index,
  utxo_table, meta_table, Tables, write,
}
use aurion.Storage.Engine.{
  tip_height, tip_hash, output_slot, database, from_db, open_tables, remove_spent, insert_outputs,
  insert_created, stage_block, commit_block,
}

unfoldable pub erase_all : List OutPoint → Tables → Tables
erase_all [] tables = tables
erase_all (op ∷ ops) tables = erase_all ops (write (utxo_slot (encode_outpoint op)) none tables)

unfoldable pub write_outputs : Hash256 → ℕ → List TxOutput → Tables → Tables
write_outputs id vout [] tables = tables
write_outputs id vout (output ∷ outputs) tables =
    write_outputs id (vout + 1) outputs
      (write (output_slot id vout) (some (encode_output output)) tables)

unfoldable pub write_created : Blake3 → List Transaction → Tables → Tables
write_created blake3 [] tables = tables
write_created blake3 (tx ∷ txs) tables =
    write_created blake3 txs (write_outputs (txid blake3 tx) 0 tx.outputs tables)

-- the block, its height and the outputs, and then the tip
unfoldable pub write_body : Blake3 → Block → List OutPoint → Tables → Tables
write_body blake3 block spent tables = write_created blake3 block.transactions (
    erase_all spent (
      write (height_slot block.header.height) (some (block_hash blake3 block).as_bytes)
        (write (block_slot (block_hash blake3 block).as_bytes) (some (encode_block block)) tables)))

unfoldable pub write_block : Blake3 → Block → List OutPoint → Tables → Tables
write_block blake3 block spent tables =
    write tip_hash (some (block_hash blake3 block).as_bytes)
      (write tip_height (some (to_be 8 block.header.height)) (write_body blake3 block spent tables))

-- A result of redb that is passed on.
from_db-Ensures :
    {E A : Type 0} {P : A → Type 0} (r : Result E A)
    → ((a : A) → r ≡ ok a → P a)
    → Ensures P (map_err database r)
from_db-Ensures r law = Ensures-weaken _ (Ensures-map_err database r (Ensures-self r)) law

module _ (redb : Redb) (laws : RedbLaws redb) where
  abbrev Stages : Tables → redb.Writing → Type 0
  Stages tables txn = laws.staged txn ≡ tables

  inserted :
      (slot : Slot) (value : Bytes) {tables : Tables} (txn : redb.Writing)
      → Stages tables txn
      → Ensures
          (Stages (write slot (some value) tables))
          (from_db redb (redb.insert slot value txn))
  inserted slot value txn h =
      from_db-Ensures _
        λ after e. laws.insert-staged slot value txn after e ∙ ap (write slot (some value)) h

  removed :
      (slot : Slot) {tables : Tables} (txn : redb.Writing)
      → Stages tables txn
      → Ensures (Stages (write slot none tables)) (from_db redb (redb.remove slot txn))
  removed slot txn h =
      from_db-Ensures _ λ after e. laws.remove-staged slot txn after e ∙ ap (write slot none) h

  opened :
      (table : Table) {tables : Tables} (txn : redb.Writing)
      → Stages tables txn
      → Ensures (Stages tables) (from_db redb (redb.open_to_write table txn))
  opened table txn h = from_db-Ensures _ λ after e. laws.open_to_write-staged table txn after e ∙ h

  open_tables-Stages :
      {tables : Tables} (txn : redb.Writing)
      → Stages tables txn
      → Ensures (Stages tables) (open_tables redb txn)
  unfolding open_tables
  open_tables-Stages txn h = Ensures-bind (opened blocks_table txn h) λ a ha.
      Ensures-bind (opened height_index a ha)
        λ b hb. Ensures-bind (opened utxo_table b hb) λ c hc. opened meta_table c hc

  remove_spent-Stages :
      (ops : List OutPoint) {tables : Tables} (txn : redb.Writing)
      → Stages tables txn
      → Ensures (Stages (erase_all ops tables)) (remove_spent redb ops txn)
  unfolding remove_spent erase_all
  remove_spent-Stages [] txn h = returns h
  remove_spent-Stages (op ∷ ops) txn h =
      Ensures-bind (removed (utxo_slot (encode_outpoint op)) txn h)
        λ a ha. remove_spent-Stages ops a ha

  insert_outputs-Stages :
      (id : Hash256) (vout : ℕ) (outputs : List TxOutput) {tables : Tables} (txn : redb.Writing)
      → Stages tables txn
      → Ensures
          (Stages (write_outputs id vout outputs tables))
          (insert_outputs redb id vout outputs txn)
  unfolding insert_outputs write_outputs
  insert_outputs-Stages id vout [] txn h = returns h
  insert_outputs-Stages id vout (output ∷ outputs) txn h =
      Ensures-bind (inserted (output_slot id vout) (encode_output output) txn h)
        λ a ha. insert_outputs-Stages id (vout + 1) outputs a ha

  module _ (blake3 : Blake3) where
    insert_created-Stages :
        (txs : List Transaction) {tables : Tables} (txn : redb.Writing)
        → Stages tables txn
        → Ensures (Stages (write_created blake3 txs tables)) (insert_created redb blake3 txs txn)
    unfolding insert_created write_created
    insert_created-Stages [] txn h = returns h
    insert_created-Stages (tx ∷ txs) txn h =
        Ensures-bind (insert_outputs-Stages (txid blake3 tx) 0 tx.outputs txn h)
          λ a ha. insert_created-Stages txs a ha

    stage_block-Stages :
        (block : Block) (spent : List OutPoint) {tables : Tables} (txn : redb.Writing)
        → Stages tables txn
        → Ensures
            (Stages (write_block blake3 block spent tables))
            (stage_block redb blake3 block spent txn)
    unfolding stage_block write_block write_body
    stage_block-Stages block spent txn h =
        let hash_bytes = (block_hash blake3 block).as_bytes in
        Ensures-bind (inserted (block_slot hash_bytes) (encode_block block) txn h) λ a ha.
          Ensures-bind (inserted (height_slot block.header.height) hash_bytes a ha) λ b hb.
            Ensures-bind (remove_spent-Stages spent b hb) λ c hc.
              Ensures-bind (insert_created-Stages block.transactions c hc) λ d hd.
                Ensures-bind (inserted tip_height (to_be 8 block.header.height) d hd)
                  λ e he. inserted tip_hash hash_bytes e he

    -- A commit that succeeds leaves the tables that `write_block` says.
    pub commit_block-tables :
        (db : redb.Database) (block : Block) (spent : List OutPoint)
        → Ensures
            (λ after. laws.content after ≡ write_block blake3 block spent (laws.content db))
            (commit_block redb blake3 db block spent)
    unfolding commit_block
    commit_block-tables db block spent =
        Ensures-bind
          (from_db-Ensures (redb.begin_write db) (λ txn e. laws.begin_write-staged db txn e))
          λ a ha. Ensures-bind (open_tables-Stages a ha) λ b hb.
            Ensures-bind (stage_block-Stages block spent b hb) λ c hc.
              from_db-Ensures (redb.commit c) (λ after e. laws.commit-content c after e ∙ hc)
