-- ===== src/Storage/Reads.antt =====
-- What the store answers after a commit (crates/aurion-storage/src/engine.rs).
use aurion.Prelude.{
  ℕ, ◌+◌, ◌<◌, ◌^◌, ◌≡◌, refl, ap, ◌∙◌, List, [], ◌∷◌, All, false, length, none, some, ==_iff,
  Option-cases, inl, inr,
}
use aurion.Map.Laws.{beq_refl}
use aurion.Result.{Result, ok, err, map_err, ◌>>=◌, Ensures, Ensures-weaken}
use aurion.Bytes.{Bytes, to_be, bytes_eq}
use aurion.Bytes.Laws.{length-to_be, from_be-to_be}
use aurion.Map.{bytes_key, nat_key}
use aurion.Primitives.Codec.Laws.{decode_canonical-encode}
use aurion.Primitives.Hash.{Hash256, Blake3, IsHash, digest-IsHash}
use aurion.Core.OutPoint.{OutPoint, IsOutPoint, encode_outpoint}
use aurion.Core.RoundTrip.{decode_output-encode}
use aurion.Core.BlockRoundTrip.{decode_block-encode}
use aurion.Core.Tx.{TxOutput, Transaction, encode_output, decode_output, txid}
use aurion.Core.Block.{Block, IsBlockData, encode_block, decode_block, block_hash, header_hash}
use aurion.Storage.Redb.{
  Redb, RedbLaws, Table, blocks_table, height_index, utxo_table, meta_table, Slot, block_slot,
  utxo_slot, height_slot, slot_eq, Tables, write,
}
use aurion.Storage.Engine.{
  StorageError, database, tip_height, tip_hash, outpoint_of, from_db, copy_from_slice, read_slot,
  decode_found, get_block, get_block_by_height, get_utxo, tip_of, get_tip, commit_block,
}
use aurion.Storage.Tables.{
  erase_all, write_outputs, write_created, write_body, write_block, commit_block-tables,
}
use aurion.Storage.Refinement.{Ledger, Represents, apply_block, write_block-Represents}

-- A value with `P`, or an error of redb and no other.
pub data Delivers {E A : Type 0} (P : A → Type 0) : Result (StorageError E) A → Type 0 where
  delivers : {a : A} → P a → Delivers P (ok a)
  fails : {e : E} → Delivers P (err (database e))

Delivers-bind :
    {E A B : Type 0} {P : A → Type 0} {Q : B → Type 0} {r : Result (StorageError E) A}
    {f : A → Result (StorageError E) B}
    → Delivers P r
    → ((a : A) → P a → Delivers Q (f a))
    → Delivers Q (r >>= f)
Delivers-bind (delivers h) k = k _ h
Delivers-bind fails k = fails

from_db-Delivers :
    {E A : Type 0} {P : A → Type 0} (r : Result E A)
    → ((a : A) → r ≡ ok a → P a)
    → Delivers P (map_err database r)
from_db-Delivers (ok a) law = delivers (law a refl)
from_db-Delivers (err e) law = fails

copy_from_slice_whole :
    {E : Type 0} (n : ℕ) (value : Bytes)
    → length value ≡ n
    → copy_from_slice {E = E} n value ≡ ok value
unfolding copy_from_slice
copy_from_slice_whole n value h = let same = (==_iff (length value) n).1 h in rw same refl

module _ (redb : Redb) (laws : RedbLaws redb) where
  abbrev Sees : Tables → redb.Reading → Type 0
  Sees tables txn = laws.seen txn ≡ tables

  got :
      (slot : Slot) (tables : Tables) (txn : redb.Reading)
      → Sees tables txn
      → Delivers (λ found. found ≡ tables slot) (from_db redb (redb.get slot txn))
  got slot tables txn h =
      from_db-Delivers _ λ found e. laws.get-seen slot txn found e ∙ ap (λ (t : Tables). t slot) h

  read_slot-Delivers :
      (table : Table) (slot : Slot) (db : redb.Database)
      → Delivers (λ found. found ≡ laws.content db slot) (read_slot redb table slot db)
  unfolding read_slot
  read_slot-Delivers table slot db =
      Delivers-bind (from_db-Delivers (redb.begin_read db) (λ txn e. laws.begin_read-seen db txn e))
        λ txn h.
          Delivers-bind
            (from_db-Delivers _ (λ after e. laws.open_to_read-seen table txn after e ∙ h))
            λ after s. got slot (laws.content db) after s

  pub get_utxo-Delivers :
      (db : redb.Database) (ledger : Ledger) (op : OutPoint)
      → Represents (laws.content db) ledger
      → IsOutPoint op
      → Delivers (λ found. found ≡ ledger op) (get_utxo redb db op)
  unfolding get_utxo decode_found
  get_utxo-Delivers db ledger op rep is =
      Delivers-bind (read_slot-Delivers utxo_table (utxo_slot (encode_outpoint op)) db) λ found e.
        elim (Option-cases (ledger op)) [
          | inl absent ↦
              let none_stored = (rw absent at (rep.stored op is)) in
              rw (e, none_stored, absent) (delivers refl)
          | inr (output, held) ↦
              let some_stored = (rw held at (rep.stored op is)) in
              let whole =
                decode_canonical-encode encode_output decode_output output
                  (decode_output-encode output [] (rep.valid op output held)) in
              rw (e, some_stored, held, decode_found, whole) (delivers refl)
        ]

  get_block-Delivers :
      (db : redb.Database) (block : Block) (hash : Hash256)
      → IsBlockData block
      → laws.content db (block_slot hash.as_bytes) ≡ some (encode_block block)
      → Delivers (λ found. found ≡ some block) (get_block redb db hash)
  unfolding get_block decode_found
  get_block-Delivers db block hash is at =
      Delivers-bind (read_slot-Delivers blocks_table (block_slot hash.as_bytes) db) λ found e.
        let whole =
          decode_canonical-encode encode_block decode_block block
            (decode_block-encode block [] is) in
        rw (e, at, decode_found, whole) (delivers refl)

  get_block_by_height-Delivers :
      (db : redb.Database) (block : Block) (height : ℕ) (hash : Hash256)
      → IsBlockData block
      → IsHash hash
      → laws.content db (height_slot height) ≡ some hash.as_bytes
      → laws.content db (block_slot hash.as_bytes) ≡ some (encode_block block)
      → Delivers (λ found. found ≡ some block) (get_block_by_height redb db height)
  unfolding get_block_by_height
  get_block_by_height-Delivers db block height hash is size indexed at =
      Delivers-bind (read_slot-Delivers height_index (height_slot height) db) λ found e.
        rw (e, indexed, copy_from_slice_whole 32 hash.as_bytes size.0)
          (get_block-Delivers db block hash is at)

  pub get_tip-Delivers :
      (db : redb.Database) (height : ℕ) (hash : Hash256)
      → height < 256 ^ 8
      → IsHash hash
      → laws.content db tip_height ≡ some (to_be 8 height)
      → laws.content db tip_hash ≡ some hash.as_bytes
      → Delivers (λ found. found ≡ some (height, hash)) (get_tip redb db)
  unfolding get_tip tip_of
  get_tip-Delivers db height hash small size at_height at_hash =
      Delivers-bind (from_db-Delivers (redb.begin_read db) (λ txn e. laws.begin_read-seen db txn e))
        λ txn h.
          Delivers-bind
            (from_db-Delivers _ (λ after e. laws.open_to_read-seen meta_table txn after e ∙ h))
            λ after s. Delivers-bind (got tip_height (laws.content db) after s) λ a ea.
              Delivers-bind (got tip_hash (laws.content db) after s) λ b eb.
                rw
                  (
                    ea,
                    at_height,
                    eb,
                    at_hash,
                    tip_of,
                    copy_from_slice_whole 8 (to_be 8 height) (length-to_be 8 height),
                    copy_from_slice_whole 32 hash.as_bytes size.0,
                    from_be-to_be 8 height small,
                  )
                  (delivers refl)

  pub get_tip_none :
      (db : redb.Database)
      → laws.content db tip_height ≡ none
      → Delivers (λ found. found ≡ none) (get_tip redb db)
  unfolding get_tip tip_of
  get_tip_none db unset =
      Delivers-bind (from_db-Delivers (redb.begin_read db) (λ txn e. laws.begin_read-seen db txn e))
        λ txn h.
          Delivers-bind
            (from_db-Delivers _ (λ after e. laws.open_to_read-seen meta_table txn after e ∙ h))
            λ after s. Delivers-bind (got tip_height (laws.content db) after s) λ a ea.
              Delivers-bind (got tip_hash (laws.content db) after s)
                λ b eb. rw (ea, unset) (delivers refl)

-- A slot that is not one of the outputs.
IsOther : Slot → Type 0
IsOther slot = (key : Bytes) → slot_eq slot (utxo_slot key) ≡ false

erase_all-other :
    (ops : List OutPoint) (tables : Tables) (slot : Slot)
    → IsOther slot
    → erase_all ops tables slot ≡ tables slot
unfolding erase_all write IsOther
erase_all-other [] tables slot other = refl
erase_all-other (op ∷ ops) tables slot other =
    rw (erase_all-other ops _ slot other, other (encode_outpoint op)) refl

write_outputs-other :
    (id : Hash256) (vout : ℕ) (outputs : List TxOutput) (tables : Tables) (slot : Slot)
    → IsOther slot
    → write_outputs id vout outputs tables slot ≡ tables slot
unfolding write_outputs write IsOther
write_outputs-other id vout [] tables slot other = refl
write_outputs-other id vout (output ∷ outputs) tables slot other =
    rw
      (
        write_outputs-other id (vout + 1) outputs _ slot other,
        other (encode_outpoint (outpoint_of id vout)),
      )
      refl

module _ (blake3 : Blake3) where
  write_created-other :
      (txs : List Transaction) (tables : Tables) (slot : Slot)
      → IsOther slot
      → write_created blake3 txs tables slot ≡ tables slot
  unfolding write_created
  write_created-other [] tables slot other = refl
  write_created-other (tx ∷ txs) tables slot other =
      write_created-other txs _ slot other
      ∙ write_outputs-other (txid blake3 tx) 0 tx.outputs tables slot other

  -- The tables after a block: its tip, its height and itself, under its hash.
  pub record HasBlock (tables : Tables) (block : Block) : Type 0 where
    pub tip_at : tables tip_height ≡ some (to_be 8 block.header.height)
    pub tip_is : tables tip_hash ≡ some (block_hash blake3 block).as_bytes
    pub indexed : tables (height_slot block.header.height) ≡ some (block_hash blake3 block).as_bytes
    pub stored : tables (block_slot (block_hash blake3 block).as_bytes) ≡ some (encode_block block)

  pub write_block-HasBlock :
      (block : Block) (spent : List OutPoint) (tables : Tables)
      → HasBlock (write_block blake3 block spent tables) block
  unfolding write_block write_body write slot_eq IsOther bytes_eq
  write_block-HasBlock block spent tables =
      let hash_bytes = (block_hash blake3 block).as_bytes in
      let height = block.header.height in
      record {
        tip_at = refl;
        tip_is = refl;
        indexed =
            rw
              (
                write_created-other block.transactions _ (height_slot height) (λ key. refl),
                erase_all-other spent _ (height_slot height) (λ key. refl),
                beq_refl ⦃e = nat_key⦄ height,
              )
              refl;
        stored =
            rw
              (
                write_created-other block.transactions _ (block_slot hash_bytes) (λ key. refl),
                erase_all-other spent _ (block_slot hash_bytes) (λ key. refl),
                beq_refl ⦃e = bytes_key⦄ hash_bytes,
              )
              refl;
      }

  module _ (redb : Redb) where
    -- What a store answers: its tip is the block, which is found under its hash and its height, and the
    -- outputs are those of the ledger. A read may still fail in redb.
    pub record Answers (db : redb.Database) (block : Block) (ledger : Ledger) : Type 0 where
      pub tip :
          Delivers
            (λ found. found ≡ some (block.header.height, block_hash blake3 block))
            (get_tip redb db)
      pub by_hash :
          Delivers (λ found. found ≡ some block) (get_block redb db (block_hash blake3 block))
      pub by_height :
          Delivers (λ found. found ≡ some block) (get_block_by_height redb db block.header.height)
      pub unspent :
          (op : OutPoint)
          → IsOutPoint op
          → Delivers (λ found. found ≡ ledger op) (get_utxo redb db op)

    -- If the table of outputs stands for a ledger, then after a commit of a valid block that succeeds
    -- the store answers that block as its tip, under its hash and under its height, and for every
    -- outpoint what the ledger after the block holds; where it does not, redb has failed, since no
    -- value that is read back is refused and no slice has another length.
    pub commit_block-Answers :
        (laws : RedbLaws redb) (db : redb.Database) (block : Block) (spent : List OutPoint)
        (ledger : Ledger)
        → IsBlockData block
        → All IsOutPoint spent
        → Represents (laws.content db) ledger
        → Ensures
            (λ after. Answers after block (apply_block blake3 block spent ledger))
            (commit_block redb blake3 db block spent)
    unfolding block_hash header_hash
    commit_block-Answers laws db block spent ledger is valid rep =
        Ensures-weaken _ (commit_block-tables redb laws blake3 db block spent) λ after e.
          let has : HasBlock (laws.content after) block =
            rw e (write_block-HasBlock block spent (laws.content db)) in
          let rep' : Represents (laws.content after) (apply_block blake3 block spent ledger) =
            rw e (write_block-Represents blake3 block spent is valid rep) in
          let hash = block_hash blake3 block in
          let size : IsHash hash = digest-IsHash blake3 _ in
          record {
            tip =
                get_tip-Delivers redb laws after block.header.height hash is.header.height size
                  has.tip_at has.tip_is;
            by_hash = get_block-Delivers redb laws after block hash is has.stored;
            by_height =
                get_block_by_height-Delivers redb laws after block block.header.height hash is size
                  has.indexed has.stored;
            unspent = λ op at. get_utxo-Delivers redb laws after _ op rep' at;
          }
