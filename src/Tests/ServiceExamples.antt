-- ===== src/Tests/ServiceExamples.antt =====
-- A service over the database in memory, with the genesis block stored.
use aurion.Prelude.{◌≡◌, ◌⊎◌, refl, sym, false, none, [], ◌∷◌}
use aurion.Result.{ok, Ensures}
use aurion.Bytes.{Bytes, bytes_eq}
use aurion.Primitives.Hash.{hash_eq, digest}
use aurion.Primitives.Quantum.{saturating_add}
use aurion.Core.Merkle.{compute_merkle_root, reduce_layers}
use aurion.Core.Tx.{is_coinbase, txid}
use aurion.Consensus.Verification.{
  verify_block_structure, verify_from_coinbase, verify_pow, any_coinbase, total_coinbase_output,
  allowed_subsidy,
}
use aurion.Core.Block.{Block, block_hash, calculate_merkle_root}
use aurion.Consensus.Genesis.{create_genesis_block}
use aurion.Node.Authority.{
  AuthorityError, running, is_operational, check_block, next_position, process_and_commit_block,
}
use aurion.Node.Invariants.{verify_block_invariants, verify_transactions, verify_transaction}
use aurion.Node.Ledger.{storage_api}
use aurion.Node.Ledger.Progress.{succeeds, Reliable, process_and_commit_block-Succeeds}
use aurion.Node.Ledger.Chain.{genesis-IsLink, genesis-spends}
use aurion.Node.Ledger.Follows.{Engine, Follows, fresh-Follows, commit-Follows}
use aurion.Node.Mempool.Store.{new_mempool, default_max_mempool_bytes}
use aurion.Node.Mempool.Store.Operations.{new_mempool-IsPool}
use aurion.Rpc.Template.{accepted, rejected}
use aurion.Service.{AurionNodeService, service_submit_block, service_block_template}
use aurion.Service.Submit.{IsAccepted, service_submit_block-cases}
use aurion.Service.Template.{Extends, service_block_template-Extends}
use aurion.Storage.Engine.{
  get_tip, tip_of, commit_block, open_tables, stage_block, remove_spent, insert_created,
  insert_outputs,
}
use aurion.Storage.Redb.{Tables}
use aurion.Storage.Tables.{write_block, write_body, write_created, write_outputs, erase_all}
use aurion.Tests.Fixtures.{constant_hash, first_byte_signs, sample_block, sample_block-IsBlockData}
use aurion.Tests.StorageExamples.{memory, memory_laws, empty_tables, describe}

abbrev genesis : Block
genesis = create_genesis_block constant_hash

abbrev genesis_tables : Tables
genesis_tables = write_block constant_hash genesis [] empty_tables

genesis-committed : commit_block memory constant_hash empty_tables genesis [] ≡ ok genesis_tables
unfolding commit_block open_tables stage_block remove_spent insert_created insert_outputs
    write_block write_body write_created write_outputs erase_all create_genesis_block
genesis-committed = refl

genesis-Follows :
    Follows constant_hash first_byte_signs memory memory_laws describe genesis_tables (genesis ∷ [])
genesis-Follows =
    commit-Follows constant_hash first_byte_signs memory memory_laws describe empty_tables
      genesis_tables genesis [] []
      (fresh-Follows constant_hash first_byte_signs memory memory_laws describe empty_tables refl)
      (genesis-IsLink constant_hash first_byte_signs) (sym (genesis-spends constant_hash))
      genesis-committed

abbrev service : AurionNodeService constant_hash first_byte_signs memory describe
service = record {
  authority = record { state = running; storage = genesis_tables; cancel_signal = false };
  mempool = new_mempool default_max_mempool_bytes;
}

abbrev no_text : AuthorityError → Bytes
no_text e = []

service_submit_block-cases_example :
    (((service_submit_block constant_hash first_byte_signs memory describe no_text sample_block
          service).0
        ≡ accepted (block_hash constant_hash sample_block) 8)
      × IsAccepted constant_hash first_byte_signs memory memory_laws describe sample_block
          (genesis ∷ [])
          (service_submit_block constant_hash first_byte_signs memory describe no_text sample_block
            service).1)
    ⊎ ((e : AuthorityError) × ((service_submit_block constant_hash first_byte_signs memory describe
            no_text sample_block service).0
          ≡ rejected (no_text e))
        × ((service_submit_block constant_hash first_byte_signs memory describe no_text sample_block
              service).1.authority.storage
            ≡ genesis_tables)
        × ((service_submit_block constant_hash first_byte_signs memory describe no_text sample_block
              service).1.mempool
            ≡ service.mempool))
service_submit_block-cases_example =
    service_submit_block-cases constant_hash first_byte_signs memory memory_laws describe no_text
      sample_block service (genesis ∷ []) sample_block-IsBlockData
      (record { store = genesis-Follows; pool = new_mempool-IsPool default_max_mempool_bytes })

service_block_template-Extends_example :
    Ensures
      (Extends constant_hash first_byte_signs memory memory_laws describe service (genesis ∷ []))
      (service_block_template constant_hash first_byte_signs memory describe 1800000000 service)
service_block_template-Extends_example =
    service_block_template-Extends constant_hash first_byte_signs memory memory_laws describe
      1800000000 service genesis [] genesis-Follows

-- The genesis block as the first one that a running node is given.
memory-Reliable : Reliable memory
memory-Reliable = record {
  begin_write = λ db. succeeds;
  open_to_write = λ table txn. succeeds;
  insert = λ slot value txn. succeeds;
  remove = λ slot txn. succeeds;
  commit = λ txn. succeeds;
}

abbrev empty_node : Engine constant_hash first_byte_signs memory memory_laws describe
empty_node = record { state = running; storage = empty_tables; cancel_signal = false }

no-tip : get_tip memory empty_tables ≡ ok none
unfolding get_tip tip_of
no-tip = refl

genesis-checked :
    check_block constant_hash first_byte_signs
      (storage_api constant_hash memory describe)
      none
      genesis
      empty_tables
    ≡ ok []
unfolding check_block next_position create_genesis_block verify_block_structure verify_from_coinbase
    verify_pow hash_eq bytes_eq calculate_merkle_root compute_merkle_root reduce_layers is_coinbase
    any_coinbase total_coinbase_output saturating_add allowed_subsidy verify_block_invariants
    verify_transactions verify_transaction txid digest
genesis-checked = refl

process_and_commit_block-Succeeds_example :
    (process_and_commit_block constant_hash first_byte_signs
      (storage_api constant_hash memory describe)
      genesis
      empty_node).0
    ≡ ok tt
unfolding is_operational
process_and_commit_block-Succeeds_example =
    process_and_commit_block-Succeeds memory memory-Reliable constant_hash first_byte_signs
      memory_laws describe genesis empty_node none [] refl no-tip genesis-checked
