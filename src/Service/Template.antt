-- ===== src/Service/Template.antt =====
-- The template of a node extends the chain that its store holds (bin/aurion/src/rpc_handler.rs,
-- `handle_get_block_template`).
use Prim.Native.String.{String}
use aurion.Prelude.{
  ℕ, ◌+◌, ◌<◌, ◌^◌, ◌≡◌, ◌==◌, refl, ap, List, ◌∷◌, length, ltb, false, Bool-cases, inl, inr, arith,
}
use aurion.Result.{
  ok, guard, Ensures, returns, raises, Ensures-bind, Ensures-any, Ensures-self, Ensures-map_err,
}
use aurion.Primitives.Hash.{Hash256, Blake3}
use aurion.Core.Block.{Block, block_hash}
use aurion.Consensus.Subsidy.{calculate_block_subsidy, subsidy_of_era}
use aurion.Consensus.Verification.{allowed_subsidy}
use aurion.Consensus.Verification.Accepted.{verify_block_structure_iff}
use aurion.Script.Engine.{Ed25519}
use aurion.Storage.Redb.{Redb, RedbLaws}
use aurion.Storage.Engine.{StorageError, get_tip}
use aurion.Node.Ledger.Chain.{parent_hash}
use aurion.Node.Ledger.Follows.{Follows, get_tip-chain, Delivers-value}
use aurion.Node.Mempool.Store.{select_transactions_for_block}
use aurion.Rpc.Template.{BlockTemplate}
use aurion.Service.{
  AurionNodeService, template_subsidy, tip, next_work_target, sum_fees, median_time_past,
  next_timestamp, service_block_template, storage_read, height_overflow, max_block_payload_bytes,
}

-- The two schedules of the subsidy agree.
pub template_subsidy-eq : (height : ℕ) → template_subsidy height ≡ calculate_block_subsidy height
unfolding template_subsidy calculate_block_subsidy subsidy_of_era
template_subsidy-eq height = refl

module _ (blake3 : Blake3) (ed25519 : Ed25519) (redb : Redb) (laws : RedbLaws redb)
    (to_string : StorageError redb.DbError → String) where
  -- A template for the next block of a chain.
  pub record Extends (service : AurionNodeService blake3 ed25519 redb to_string)
      (chain : List Block) (t : BlockTemplate) : Type 0 where
    pub height : t.height ≡ length chain
    pub parent : t.previous_block_hash ≡ parent_hash blake3 chain
    pub subsidy : t.coinbase_subsidy ≡ allowed_subsidy t.height
    pub mtp : ℕ
    pub median :
        median_time_past blake3 ed25519 redb to_string service.authority.storage
          t.previous_block_hash
        ≡ ok mtp
    pub later : mtp < t.timestamp

  next_timestamp-later :
      (now mtp : ℕ) → Ensures (λ t. mtp < t) (next_timestamp blake3 ed25519 redb to_string now mtp)
  unfolding next_timestamp
  next_timestamp-later now mtp = elim (Bool-cases (ltb mtp now)) [
    | inl after ↦ rw after (returns (ground arith))
    | inr before ↦ elim (Bool-cases (ltb (mtp + 1) (2 ^ 64))) [
      | inl fits ↦ rw (before, fits) (returns (omega arith))
      | inr over ↦ rw (before, over) raises
    ]
  ]

  tip-chain :
      (storage : redb.Database) (block : Block) (parents : List Block)
      → Follows blake3 ed25519 redb laws to_string storage (block ∷ parents)
      → Ensures
          (λ p. p ≡ (block.header.height, block_hash blake3 block))
          (tip blake3 ed25519 redb to_string storage)
  unfolding tip
  tip-chain storage block parents f =
      Ensures-bind
        (Ensures-map_err storage_read (get_tip redb storage) (Ensures-self (get_tip redb storage)))
        λ found e.
          let at =
            Delivers-value (get_tip redb storage)
              (get_tip-chain blake3 ed25519 redb laws to_string storage (block ∷ parents) f) e in
          rw at (returns refl)

  -- The template that a node answers, if its store holds a chain of at least the genesis block, is for
  -- the block that the chain wants next: its height is the length of the chain, its parent the newest
  -- block, its subsidy what the structure check allows at that height, and its timestamp after the
  -- median time of the newest blocks.
  pub service_block_template-Extends :
      (now : ℕ) (service : AurionNodeService blake3 ed25519 redb to_string) (block : Block)
      (parents : List Block)
      → Follows blake3 ed25519 redb laws to_string service.authority.storage (block ∷ parents)
      → Ensures
          (Extends service (block ∷ parents))
          (service_block_template blake3 ed25519 redb to_string now service)
  unfolding service_block_template parent_hash allowed_subsidy
  service_block_template-Extends now service block parents f =
      let storage = service.authority.storage in
      let top = (verify_block_structure_iff blake3 block (length parents)).0 f.valid.0.structure in
      Ensures-bind (tip-chain storage block parents f) λ p at.
        let at_height : p.0 ≡ block.header.height = ap (λ (q : ℕ × Hash256). q.0) at in
        let at_hash : p.1 ≡ block_hash blake3 block = ap (λ (q : ℕ × Hash256). q.1) at in
        let top_height = top.at_height in
        let transactions = select_transactions_for_block service.mempool max_block_payload_bytes in
        let positive : (p.0 + 1 == 0) ≡ false = ground arith in
        let allowed : template_subsidy (p.0 + 1) ≡ allowed_subsidy (p.0 + 1) =
          rw (allowed_subsidy, positive) (template_subsidy-eq (p.0 + 1)) in
        Ensures-bind (Ensures-any (guard (ltb (p.0 + 1) (2 ^ 64)) height_overflow)) λ _ _.
          Ensures-bind (Ensures-any (next_work_target blake3 ed25519 redb to_string storage p.1))
            λ target _.
              Ensures-bind
                (Ensures-any (sum_fees blake3 ed25519 redb to_string storage 0 transactions))
                λ total_fee _.
                  Ensures-bind
                    (Ensures-self (median_time_past blake3 ed25519 redb to_string storage p.1))
                    λ mtp median. Ensures-bind (next_timestamp-later now mtp) λ timestamp after.
                      returns (record {
                        height = omega arith;
                        parent = at_hash;
                        subsidy = allowed;
                        mtp = mtp;
                        median = median;
                        later = after;
                      })
