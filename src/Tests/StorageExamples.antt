-- ===== src/Tests/StorageExamples.antt =====
-- A database in memory, which keeps its tables as a function, and a node on it.
use Prim.Native.String.{String}
use aurion.Prelude.{◌≡◌, ◌≤◌, ◌++◌, ◌⊎◌, refl, List, [], ◌∷◌, none, some, arith, false}
use aurion.Result.{ok, Ensures}
use aurion.Core.Block.{Block}
use aurion.Consensus.Subsidy.{max_total_supply_quanta}
use aurion.Consensus.Verification.Chain.{minted}
use aurion.Storage.Redb.{Redb, RedbLaws, Tables, write}
use aurion.Storage.Engine.{StorageError, commit_block}
use aurion.Storage.Refinement.{Represents, apply_block, commit_block-Represents}
use aurion.Storage.Reads.{Answers, commit_block-Answers}
use aurion.Consensus.Genesis.{create_genesis_block}
use aurion.Node.Authority.{
  is_operational, new_authority, initialize_genesis, process_and_commit_block,
}
use aurion.Node.Ledger.{storage_api}
use aurion.Node.Ledger.Chain.{empty_ledger}
use aurion.Node.Ledger.Follows.{
  Engine, Follows, Reachable, fresh, step, start, process, Reachable-Follows,
}
use aurion.Node.Ledger.Supply.{Reachable-supply}
use aurion.Node.Ledger.Genesis.{Reachable-Rooted}
use aurion.Tests.Fixtures.{
  constant_hash, first_byte_signs, sample_block, sample_block-IsBlockData, sevens-IsHash, funding,
}

abbrev pub memory : Redb
memory = record {
  Database = Tables;
  Reading = Tables;
  Writing = Tables;
  DbError = Unit;
  create = λ path. ok (λ slot. none);
  begin_read = λ db. ok db;
  begin_write = λ db. ok db;
  open_to_read = λ table txn. ok txn;
  open_to_write = λ table txn. ok txn;
  get = λ slot txn. ok (txn slot);
  insert = λ slot value txn. ok (write slot (some value) txn);
  remove = λ slot txn. ok (write slot none txn);
  commit = λ txn. ok txn;
}

abbrev pub memory_laws : RedbLaws memory
memory_laws = record {
  content = λ db. db;
  seen = λ txn. txn;
  staged = λ txn. txn;
  begin_read-seen = λ db txn e. cc;
  open_to_read-seen = λ table txn after e. cc;
  get-seen = λ slot txn found e. cc;
  begin_write-staged = λ db txn e. cc;
  open_to_write-staged = λ table txn after e. cc;
  insert-staged = λ slot value txn after e. cc;
  remove-staged = λ slot txn after e. cc;
  commit-content = λ txn db e. cc;
}

abbrev pub empty_tables : Tables
empty_tables slot = none

empty-Represents : Represents empty_tables empty_ledger
empty-Represents = record { stored = λ op is. refl; valid = λ op output h. cc }

commit_block-Represents_example :
    Ensures
      (λ after.
        Represents after (apply_block constant_hash sample_block (funding ∷ []) empty_ledger))
      (commit_block memory constant_hash empty_tables sample_block (funding ∷ []))
commit_block-Represents_example =
    commit_block-Represents constant_hash memory memory_laws empty_tables sample_block
      (funding ∷ []) empty_ledger sample_block-IsBlockData ((sevens-IsHash, omega arith), tt)
      empty-Represents

commit_block-Answers_example :
    Ensures
      (λ after.
        Answers constant_hash memory after sample_block
          (apply_block constant_hash sample_block (funding ∷ []) empty_ledger))
      (commit_block memory constant_hash empty_tables sample_block (funding ∷ []))
commit_block-Answers_example =
    commit_block-Answers constant_hash memory memory_laws empty_tables sample_block (funding ∷ [])
      empty_ledger sample_block-IsBlockData ((sevens-IsHash, omega arith), tt) empty-Represents

abbrev pub describe : StorageError Unit → String
describe e = "lost"

abbrev node : Engine constant_hash first_byte_signs memory memory_laws describe
node =
    new_authority constant_hash first_byte_signs (storage_api constant_hash memory describe)
      empty_tables

abbrev started : Engine constant_hash first_byte_signs memory memory_laws describe
started =
    (initialize_genesis constant_hash first_byte_signs (storage_api constant_hash memory describe)
      node).1

abbrev processed : Engine constant_hash first_byte_signs memory memory_laws describe
processed =
    (process_and_commit_block constant_hash first_byte_signs
      (storage_api constant_hash memory describe) sample_block started).1

processed-Reachable : Reachable constant_hash first_byte_signs memory memory_laws describe processed
processed-Reachable =
    step (step (fresh empty_tables refl) start) (process sample_block sample_block-IsBlockData)

Reachable-Follows_example :
    (chain : List Block) × Follows constant_hash first_byte_signs memory memory_laws describe
      processed.storage chain
Reachable-Follows_example =
    Reachable-Follows constant_hash first_byte_signs memory memory_laws describe processed-Reachable

Reachable-Rooted_example :
    (chain : List Block) × Follows constant_hash first_byte_signs memory memory_laws describe
      processed.storage chain
    × (((chain ≡ []) × (is_operational processed.state ≡ false))
        ⊎ ((later : List Block) × (chain ≡ later ++ (create_genesis_block constant_hash ∷ []))))
Reachable-Rooted_example =
    Reachable-Rooted constant_hash first_byte_signs memory memory_laws describe processed-Reachable

Reachable-supply_example :
    (chain : List Block) × Follows constant_hash first_byte_signs memory memory_laws describe
      processed.storage chain
    × (minted chain ≤ max_total_supply_quanta)
Reachable-supply_example =
    Reachable-supply constant_hash first_byte_signs memory memory_laws describe processed-Reachable
