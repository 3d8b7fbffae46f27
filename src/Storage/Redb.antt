-- ===== src/Storage/Redb.antt =====
-- The database redb is not under the repository: `Redb` has the operations that
-- crates/aurion-storage/src/engine.rs calls, and `RedbLaws` what its documentation says of them. The
-- four typed tables are one space of slots, a key together with the table that it stands in.
use aurion.Prelude.{ℕ, ◌≡◌, ◌==◌, Bool, false, Option, none, some, if◌then◌else◌}
use aurion.Result.{Result, ok}
use aurion.Bytes.{Bytes, bytes_eq}

-- `BLOCKS_TABLE`, `HEIGHT_INDEX`, `UTXO_TABLE` and `META_TABLE`
pub data Table : Type 0 where
  blocks_table height_index utxo_table meta_table : Table

pub data Slot : Type 0 where
  block_slot utxo_slot meta_slot : Bytes → Slot
  height_slot : ℕ → Slot

unfoldable pub slot_eq : Slot → Slot → Bool
slot_eq (block_slot a) (block_slot b) = bytes_eq a b
slot_eq (utxo_slot a) (utxo_slot b) = bytes_eq a b
slot_eq (meta_slot a) (meta_slot b) = bytes_eq a b
slot_eq (height_slot a) (height_slot b) = a == b
slot_eq _ _ = false

pub record Redb : Type 1 where
  pub Database : Type 0
  pub Reading : Type 0
  pub Writing : Type 0
  pub DbError : Type 0
  pub create : Bytes → Result DbError Database
  pub begin_read : Database → Result DbError Reading
  pub begin_write : Database → Result DbError Writing
  pub open_to_read : Table → Reading → Result DbError Reading
  pub open_to_write : Table → Writing → Result DbError Writing
  pub get : Slot → Reading → Result DbError (Option Bytes)
  pub insert : Slot → Bytes → Writing → Result DbError Writing
  pub remove : Slot → Writing → Result DbError Writing
  pub commit : Writing → Result DbError Database

-- What is stored: the tables as a function.
abbrev pub Tables : Type 0
Tables = Slot → Option Bytes

unfoldable pub write : Slot → Option Bytes → Tables → Tables
write slot value tables other = if slot_eq other slot then value else tables other

-- A transaction sees what is committed and its own writes, and a commit keeps them; any operation may
-- fail.
pub record RedbLaws (redb : Redb) : Type 0 where
  pub content : redb.Database → Tables
  pub seen : redb.Reading → Tables
  pub staged : redb.Writing → Tables
  pub begin_read-seen :
      (db : redb.Database) (txn : redb.Reading)
      → redb.begin_read db ≡ ok txn
      → seen txn ≡ content db
  pub open_to_read-seen :
      (table : Table) (txn after : redb.Reading)
      → redb.open_to_read table txn ≡ ok after
      → seen after ≡ seen txn
  pub get-seen :
      (slot : Slot) (txn : redb.Reading) (found : Option Bytes)
      → redb.get slot txn ≡ ok found
      → found ≡ seen txn slot
  pub begin_write-staged :
      (db : redb.Database) (txn : redb.Writing)
      → redb.begin_write db ≡ ok txn
      → staged txn ≡ content db
  pub open_to_write-staged :
      (table : Table) (txn after : redb.Writing)
      → redb.open_to_write table txn ≡ ok after
      → staged after ≡ staged txn
  pub insert-staged :
      (slot : Slot) (value : Bytes) (txn after : redb.Writing)
      → redb.insert slot value txn ≡ ok after
      → staged after ≡ write slot (some value) (staged txn)
  pub remove-staged :
      (slot : Slot) (txn after : redb.Writing)
      → redb.remove slot txn ≡ ok after
      → staged after ≡ write slot none (staged txn)
  pub commit-content :
      (txn : redb.Writing) (db : redb.Database) → redb.commit txn ≡ ok db → content db ≡ staged txn
