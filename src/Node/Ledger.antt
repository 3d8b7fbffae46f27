-- ===== src/Node/Ledger.antt =====
-- The authority over the store: `AuthorityEngine` of crates/aurion-node/src/authority/engine.rs with
-- the `StorageEngine` of crates/aurion-storage/src/engine.rs, and the chain of blocks behind it.
pub mod Chain
pub mod Sound
pub mod Follows
pub mod Supply
pub mod Genesis
pub mod Progress
use Prim.Native.String.{String}
use aurion.Primitives.Hash.{Blake3}
use aurion.Storage.Redb.{Redb}
use aurion.Storage.Engine.{StorageError, get_tip, get_utxo, commit_block}
use aurion.Node.Authority.{StorageApi}

-- `e.to_string()` of a storage error is a parameter.
abbrev pub storage_api : Blake3 → (redb : Redb) → (StorageError redb.DbError → String) → StorageApi
storage_api blake3 redb to_string = record {
  Store = redb.Database;
  StorageError = StorageError redb.DbError;
  to_string = to_string;
  get_tip = get_tip redb;
  get_utxo = get_utxo redb;
  commit_block = commit_block redb blake3;
}
