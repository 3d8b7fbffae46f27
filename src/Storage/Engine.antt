-- ===== src/Storage/Engine.antt =====
-- crates/aurion-storage/src/engine.rs and error.rs. The handle of the database is passed in and handed
-- back; `copy_from_slice` into an array of another length panics, which is an error of its own here.
use aurion.Prelude.{ℕ, ◌+◌, ◌%◌, ◌^◌, ◌==◌, List, [], ◌∷◌, Option, none, some, length}
use aurion.Result.{Result, ok, guard, map_err, ◌>>=◌, ◌>>◌}
use aurion.Bytes.{Bytes, to_be, from_be, codes}
use aurion.Primitives.Codec.{CodecError, Decoder, decode_canonical}
use aurion.Primitives.Hash.{Hash256, Blake3, from_bytes}
use aurion.Core.OutPoint.{OutPoint, encode_outpoint}
use aurion.Core.Tx.{TxOutput, Transaction, encode_output, decode_output, txid}
use aurion.Core.Block.{Block, encode_block, decode_block, block_hash}
use aurion.Storage.Redb.{
  Redb, Table, blocks_table, height_index, utxo_table, meta_table, Slot, block_slot, utxo_slot,
  meta_slot, height_slot,
}

abbrev pub tip_height : Slot
tip_height = meta_slot (codes "tip_height")

abbrev pub tip_hash : Slot
tip_hash = meta_slot (codes "tip_hash")

-- the errors of redb are one type
pub data StorageError (DbError : Type 0) : Type 0 where
  database : DbError → StorageError DbError
  serialization : CodecError → StorageError DbError
  panicked : StorageError DbError

-- `let mut bytes = [0u8; n]; bytes.copy_from_slice(value)`
unfoldable pub copy_from_slice : {E : Type 0} → ℕ → Bytes → Result (StorageError E) Bytes
copy_from_slice n value = guard (length value == n) panicked >> ok value

-- `OutPoint::new(txid, vout as u32)`
abbrev pub outpoint_of : Hash256 → ℕ → OutPoint
outpoint_of id vout = record { txid = id; vout = vout % 2 ^ 32 }

abbrev pub output_slot : Hash256 → ℕ → Slot
output_slot id vout = utxo_slot (encode_outpoint (outpoint_of id vout))

module _ (redb : Redb) where
  abbrev pub Outcome : Type 0 → Type 0
  Outcome A = Result (StorageError redb.DbError) A

  -- `?` on a result of redb
  abbrev pub from_db : {A : Type 0} → Result redb.DbError A → Outcome A
  from_db = map_err database

  unfoldable pub open_tables : redb.Writing → Outcome redb.Writing
  open_tables txn = do
    txn ← from_db (redb.open_to_write blocks_table txn)
    txn ← from_db (redb.open_to_write height_index txn)
    txn ← from_db (redb.open_to_write utxo_table txn)
    from_db (redb.open_to_write meta_table txn)

  -- `StorageEngine::open`
  unfoldable pub open_engine : Bytes → Outcome redb.Database
  open_engine path = do
    db ← from_db (redb.create path)
    txn ← from_db (redb.begin_write db)
    txn ← open_tables txn
    from_db (redb.commit txn)

  unfoldable pub remove_spent : List OutPoint → redb.Writing → Outcome redb.Writing
  remove_spent [] txn = ok txn
  remove_spent (op ∷ ops) txn = do
    txn ← from_db (redb.remove (utxo_slot (encode_outpoint op)) txn)
    remove_spent ops txn

  unfoldable pub insert_outputs : Hash256 → ℕ → List TxOutput → redb.Writing → Outcome redb.Writing
  insert_outputs id vout [] txn = ok txn
  insert_outputs id vout (output ∷ outputs) txn = do
    txn ← from_db (redb.insert (output_slot id vout) (encode_output output) txn)
    insert_outputs id (vout + 1) outputs txn

  module _ (blake3 : Blake3) where
    unfoldable pub insert_created : List Transaction → redb.Writing → Outcome redb.Writing
    insert_created [] txn = ok txn
    insert_created (tx ∷ txs) txn = do
      txn ← insert_outputs (txid blake3 tx) 0 tx.outputs txn
      insert_created txs txn

    -- the writes of the one transaction that commits a block
    unfoldable pub stage_block : Block → List OutPoint → redb.Writing → Outcome redb.Writing
    stage_block block spent_inputs txn = do
      let hash_bytes = (block_hash blake3 block).as_bytes
      txn ← from_db (redb.insert (block_slot hash_bytes) (encode_block block) txn)
      txn ← from_db (redb.insert (height_slot block.header.height) hash_bytes txn)
      txn ← remove_spent spent_inputs txn
      txn ← insert_created block.transactions txn
      txn ← from_db (redb.insert tip_height (to_be 8 block.header.height) txn)
      from_db (redb.insert tip_hash hash_bytes txn)

    unfoldable pub commit_block : redb.Database → Block → List OutPoint → Outcome redb.Database
    commit_block db block spent_inputs = do
      txn ← from_db (redb.begin_write db)
      txn ← open_tables txn
      txn ← stage_block block spent_inputs txn
      from_db (redb.commit txn)

  -- `begin_read`, `open_table` and `get`
  unfoldable pub read_slot : Table → Slot → redb.Database → Outcome (Option Bytes)
  read_slot table slot db = do
    txn ← from_db (redb.begin_read db)
    txn ← from_db (redb.open_to_read table txn)
    from_db (redb.get slot txn)

  -- `match guard`
  unfoldable pub decode_found : {A : Type 0} → Decoder A → Option Bytes → Outcome (Option A)
  decode_found decode none = ok none
  decode_found decode (some value) = do
    a ← map_err serialization (decode_canonical decode value)
    ok (some a)

  unfoldable pub get_block : redb.Database → Hash256 → Outcome (Option Block)
  get_block db hash = do
    found ← read_slot blocks_table (block_slot hash.as_bytes) db
    decode_found decode_block found

  unfoldable pub get_block_by_height : redb.Database → ℕ → Outcome (Option Block)
  get_block_by_height db height = do
    found ← read_slot height_index (height_slot height) db
    elim found [
      | none ↦ ok none
      | some value ↦ copy_from_slice 32 value >>= λ bytes. get_block db (from_bytes bytes)
    ]

  unfoldable pub get_utxo : redb.Database → OutPoint → Outcome (Option TxOutput)
  get_utxo db outpoint = do
    found ← read_slot utxo_table (utxo_slot (encode_outpoint outpoint)) db
    decode_found decode_output found

  unfoldable pub tip_of : Option Bytes → Option Bytes → Outcome (Option (ℕ × Hash256))
  tip_of (some height) (some hash) = do
    h_bytes ← copy_from_slice 8 height
    hash_bytes ← copy_from_slice 32 hash
    ok (some (from_be h_bytes, from_bytes hash_bytes))
  tip_of _ _ = ok none

  unfoldable pub get_tip : redb.Database → Outcome (Option (ℕ × Hash256))
  get_tip db = do
    txn ← from_db (redb.begin_read db)
    txn ← from_db (redb.open_to_read meta_table txn)
    h_guard ← from_db (redb.get tip_height txn)
    hash_guard ← from_db (redb.get tip_hash txn)
    tip_of h_guard hash_guard
