-- ===== src/Service/Submit.antt =====
-- What a submitted block does to a node (bin/aurion/src/rpc_handler.rs, `handle_submit_block`).
use Prim.Native.String.{String}
use aurion.Prelude.{◌≡◌, ◌⊎◌, inl, inr, refl, true, List, ◌∷◌}
use aurion.Bytes.{Bytes}
use aurion.Primitives.Hash.{Hash256, Blake3}
use aurion.Core.OutPoint.{OutPoint}
use aurion.Core.Block.{Block, IsBlockData, block_hash}
use aurion.Script.Engine.{Ed25519}
use aurion.Storage.Redb.{Redb, RedbLaws}
use aurion.Storage.Engine.{StorageError}
use aurion.Node.Authority.{AuthorityError}
use aurion.Node.Authority.Commits.{process_and_commit_block-cases}
use aurion.Node.Invariants.{contains}
use aurion.Node.Ledger.{storage_api}
use aurion.Node.Ledger.Follows.{Follows, commit-Follows, next-IsLink}
use aurion.Node.Mempool.Store.Committed.{named, AllOut, process_committed_block-clears}
use aurion.Node.Mempool.Store.Operations.{process_committed_block-IsPool}
use aurion.Node.Mempool.Store.Pool.{IsPool, Spends}
use aurion.Rpc.Template.{accepted, rejected}
use aurion.Service.{AurionNodeService, service_submit_block}

module _ (blake3 : Blake3) (ed25519 : Ed25519) (redb : Redb) (laws : RedbLaws redb)
    (to_string : StorageError redb.DbError → String) where
  abbrev Service : Type 0
  Service = AurionNodeService blake3 ed25519 redb to_string

  -- The store holds a chain, and the indexes of the pool agree.
  pub record IsConsistent (service : Service) (chain : List Block) : Type 0 where
    pub store : Follows blake3 ed25519 redb laws to_string service.authority.storage chain
    pub pool : IsPool service.mempool

  -- A block is accepted: it is the newest of the chain, and the pool has neither its transactions nor
  -- any that spends what it spends.
  pub record IsAccepted (block : Block) (chain : List Block) (after : Service) : Type 0 where
    pub consistent : IsConsistent after (block ∷ chain)
    pub out : AllOut blake3 after.mempool block.transactions
    pub no_conflict :
        (op : OutPoint) (id : Hash256)
        → contains op (named block.transactions) ≡ true
        → ¬ Spends after.mempool id op

  -- A valid block that is submitted to a node whose store holds a chain and whose pool's indexes agree
  -- is answered in one of two ways. It is accepted under its hash and its height: then the store holds
  -- the chain with this block as the newest, and the pool, whose indexes agree again, has neither the
  -- block's transactions nor one that spends an outpoint which the block names. Or it is rejected with
  -- the authority's error, and the store and the pool are as they were.
  pub service_submit_block-cases :
      (describe : AuthorityError → Bytes) (block : Block) (service : Service) (chain : List Block)
      → IsBlockData block
      → IsConsistent service chain
      → (((service_submit_block blake3 ed25519 redb to_string describe block service).0
            ≡ accepted (block_hash blake3 block) block.header.height)
          × IsAccepted block chain
              (service_submit_block blake3 ed25519 redb to_string describe block service).1)
        ⊎ ((e : AuthorityError) × ((service_submit_block blake3 ed25519 redb to_string describe
                block service).0
              ≡ rejected (describe e))
            × ((service_submit_block blake3 ed25519 redb to_string describe block
                  service).1.authority.storage
                ≡ service.authority.storage)
            × ((service_submit_block blake3 ed25519 redb to_string describe block service).1.mempool
                ≡ service.mempool))
  unfolding service_submit_block
  service_submit_block-cases describe block service chain fields is =
      let api = storage_api blake3 redb to_string in
      let engine = service.authority in
      elim (process_and_commit_block-cases blake3 ed25519 api block engine) [
        | inl (answer, commit) ↦
            let (link, same) =
              next-IsLink blake3 ed25519 redb laws to_string engine.storage chain commit.tip block
                commit.spent is.store fields commit.found commit.next in
            let store =
              commit-Follows blake3 ed25519 redb laws to_string engine.storage _ block chain
                commit.spent is.store link same commit.committed in
            let (out, no_conflict) =
              process_committed_block-clears blake3 block service.mempool is.pool in
            rw (service_submit_block, answer)
              (inl (
                refl,
                record {
                  consistent = record {
                    store = store;
                    pool = process_committed_block-IsPool blake3 block service.mempool is.pool;
                  };
                  out = out;
                  no_conflict = no_conflict;
                },
              ))
        | inr (e, answer, untouched) ↦
            rw (service_submit_block, answer) (inr (e, refl, untouched, refl))
      ]
