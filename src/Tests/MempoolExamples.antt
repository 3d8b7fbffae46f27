-- ===== src/Tests/MempoolExamples.antt =====
-- A pool with one transaction, and a block that confirms or conflicts with it.
use aurion.Prelude.{◌≡◌, refl, [], ◌∷◌, true, arith}
use aurion.Map.{get, hash_key}
use aurion.Primitives.Hash.{Hash256, from_bytes}
use aurion.Core.OutPoint.{OutPoint}
use aurion.Core.OutPoint.Key.{outpoint_key}
use aurion.Core.Block.{Block}
use aurion.Node.Invariants.{contains}
use aurion.Node.Mempool.Store.{
  MempoolEntry, Mempool, new_mempool, register, remove, saturating_total, process_committed_block,
}
use aurion.Node.Mempool.Store.Pool.{IsPool, Spends, register-IsPool}
use aurion.Node.Mempool.Store.Operations.{
  new_mempool-IsPool, start, step, drop_one, commit, Reachable-IsPool,
}
use aurion.Node.Mempool.Store.Committed.{named, AllOut, process_committed_block-clears}
use aurion.Tests.Fixtures.{constant_hash, first_byte_signs, sevens, sample_block, spend}

abbrev pending : MempoolEntry
pending = record {
  tx = spend;
  txid = from_bytes (7 ∷ []);
  size_bytes = 100;
  fee = 2000;
  added_timestamp = 5;
}

abbrev pool : Mempool
pool = register pending (new_mempool 1000)

pool-IsPool : IsPool pool
unfolding get saturating_total
pool-IsPool =
    register-IsPool pending (new_mempool 1000) (new_mempool-IsPool 1000) refl (λ op h. refl)
      (omega arith)

abbrev block : Block
block = record sample_block { transactions = spend ∷ [] }

process_committed_block-clears_example :
    AllOut constant_hash (process_committed_block constant_hash block pool) (spend ∷ [])
    × ((op : OutPoint) (id : Hash256)
        → contains op (named (spend ∷ [])) ≡ true
        → ¬ Spends (process_committed_block constant_hash block pool) id op)
process_committed_block-clears_example =
    process_committed_block-clears constant_hash block pool pool-IsPool

Reachable-IsPool_example :
    IsPool (
      process_committed_block constant_hash block (remove (from_bytes sevens) (new_mempool 1000)).1)
Reachable-IsPool_example =
    Reachable-IsPool constant_hash first_byte_signs 1000
      (step (step start (drop_one (from_bytes sevens))) (commit block))
