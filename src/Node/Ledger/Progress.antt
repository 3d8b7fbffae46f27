-- ===== src/Node/Ledger/Progress.antt =====
-- On a database that does not fail, a running node commits every block that passes its checks
-- (crates/aurion-node/src/authority/engine.rs on crates/aurion-storage/src/engine.rs).
use Prim.Native.String.{String}
use aurion.Prelude.{ℕ, ◌+◌, ◌≡◌, refl, true, List, [], ◌∷◌, Option}
use aurion.Result.{Result, ok, map_err, ◌>>=◌}
use aurion.Bytes.{Bytes}
use aurion.Primitives.Hash.{Hash256, Blake3}
use aurion.Core.OutPoint.{OutPoint}
use aurion.Core.Block.{Block}
use aurion.Core.Tx.{TxOutput, Transaction, txid}
use aurion.Script.Engine.{Ed25519}
use aurion.Storage.Redb.{Redb, RedbLaws, Table, Slot}
use aurion.Storage.Engine.{
  StorageError, database, open_tables, remove_spent, insert_outputs, insert_created, stage_block,
  commit_block, get_tip,
}
use aurion.Node.Authority.{
  is_operational, enforce_operational, check_block, connect_block, commit_checked,
  process_and_commit_block,
}
use aurion.Node.Ledger.{storage_api}
use aurion.Node.Ledger.Follows.{Engine}

pub data Succeeds {E A : Type 0} : Result E A → Type 0 where
  succeeds : {a : A} → Succeeds (ok a)

Succeeds-bind :
    {E A B : Type 0} {r : Result E A} {f : A → Result E B}
    → Succeeds r
    → ((a : A) → Succeeds (f a))
    → Succeeds (r >>= f)
Succeeds-bind succeeds k = k _

from_db-Succeeds : {E A : Type 0} {r : Result E A} → Succeeds r → Succeeds (map_err database r)
from_db-Succeeds succeeds = succeeds

value_of : {E A : Type 0} (r : Result E A) → Succeeds r → (a : A) × (r ≡ ok a)
value_of _ succeeds = (_, refl)

-- No write fails.
pub record Reliable (redb : Redb) : Type 0 where
  pub begin_write : (db : redb.Database) → Succeeds (redb.begin_write db)
  pub open_to_write : (table : Table) (txn : redb.Writing) → Succeeds (redb.open_to_write table txn)
  pub insert :
      (slot : Slot) (value : Bytes) (txn : redb.Writing) → Succeeds (redb.insert slot value txn)
  pub remove : (slot : Slot) (txn : redb.Writing) → Succeeds (redb.remove slot txn)
  pub commit : (txn : redb.Writing) → Succeeds (redb.commit txn)

module _ (redb : Redb) (reliable : Reliable redb) where
  remove_spent-Succeeds :
      (ops : List OutPoint) (txn : redb.Writing) → Succeeds (remove_spent redb ops txn)
  unfolding remove_spent
  remove_spent-Succeeds [] txn = succeeds
  remove_spent-Succeeds (op ∷ ops) txn =
      Succeeds-bind (from_db-Succeeds (reliable.remove _ txn)) λ a. remove_spent-Succeeds ops a

  insert_outputs-Succeeds :
      (id : Hash256) (vout : ℕ) (outputs : List TxOutput) (txn : redb.Writing)
      → Succeeds (insert_outputs redb id vout outputs txn)
  unfolding insert_outputs
  insert_outputs-Succeeds id vout [] txn = succeeds
  insert_outputs-Succeeds id vout (output ∷ outputs) txn =
      Succeeds-bind (from_db-Succeeds (reliable.insert _ _ txn))
        λ a. insert_outputs-Succeeds id (vout + 1) outputs a

  module _ (blake3 : Blake3) where
    insert_created-Succeeds :
        (txs : List Transaction) (txn : redb.Writing)
        → Succeeds (insert_created redb blake3 txs txn)
    unfolding insert_created
    insert_created-Succeeds [] txn = succeeds
    insert_created-Succeeds (tx ∷ txs) txn =
        Succeeds-bind (insert_outputs-Succeeds (txid blake3 tx) 0 tx.outputs txn)
          λ a. insert_created-Succeeds txs a

    commit_block-Succeeds :
        (db : redb.Database) (block : Block) (spent : List OutPoint)
        → Succeeds (commit_block redb blake3 db block spent)
    unfolding commit_block open_tables stage_block
    commit_block-Succeeds db block spent =
        Succeeds-bind (from_db-Succeeds (reliable.begin_write db)) λ a.
          Succeeds-bind
            (Succeeds-bind (from_db-Succeeds (reliable.open_to_write _ a)) λ t.
              Succeeds-bind (from_db-Succeeds (reliable.open_to_write _ t)) λ u.
                Succeeds-bind (from_db-Succeeds (reliable.open_to_write _ u))
                  λ v. from_db-Succeeds (reliable.open_to_write _ v))
            λ b.
              Succeeds-bind
                (Succeeds-bind (from_db-Succeeds (reliable.insert _ _ b)) λ t.
                  Succeeds-bind (from_db-Succeeds (reliable.insert _ _ t)) λ u.
                    Succeeds-bind (remove_spent-Succeeds spent u) λ v.
                      Succeeds-bind (insert_created-Succeeds block.transactions v) λ w.
                        Succeeds-bind (from_db-Succeeds (reliable.insert _ _ w))
                          λ x. from_db-Succeeds (reliable.insert _ _ x))
                λ c. from_db-Succeeds (reliable.commit c)

    -- On a database on which no write fails, and from which the tip can be read, a running node commits
    -- every block that passes its checks against that tip: it answers ok.
    pub process_and_commit_block-Succeeds :
        (ed25519 : Ed25519) (laws : RedbLaws redb) (to_string : StorageError redb.DbError → String)
        (block : Block) (engine : Engine blake3 ed25519 redb laws to_string)
        (tip : Option (ℕ × Hash256)) (spent : List OutPoint)
        → is_operational engine.state ≡ true
        → get_tip redb engine.storage ≡ ok tip
        → check_block blake3 ed25519 (storage_api blake3 redb to_string) tip block engine.storage
          ≡ ok spent
        → (process_and_commit_block blake3 ed25519
            (storage_api blake3 redb to_string)
            block
            engine).0
          ≡ ok tt
    unfolding process_and_commit_block enforce_operational connect_block commit_checked
    process_and_commit_block-Succeeds ed25519 laws to_string block engine tip spent runs found
          checked =
        let (after, done) =
          value_of (commit_block redb blake3 engine.storage block spent)
            (commit_block-Succeeds engine.storage block spent) in
        rw
          (
            process_and_commit_block, enforce_operational, runs, found, connect_block, checked,
            commit_checked, done,
          )
          refl
