-- ===== src/Node/Authority/Commits.antt =====
-- What the authority commits, and what a failed node does
-- (crates/aurion-node/src/authority/engine.rs).
use aurion.Prelude.{ℕ, ◌≡◌, ◌⊎◌, inl, inr, refl, List, true, Option, Bool-cases}
use aurion.Result.{
  Result, ok, err, result_cases, Ensures, Ensures-bind, Ensures-guard, Ensures-self,
  Ensures-map_err, Ensures-weaken, Ensures-value,
}
use aurion.Primitives.Hash.{Hash256, Blake3, hash_eq, hash_eq_iff}
use aurion.Core.OutPoint.{OutPoint}
use aurion.Core.Block.{Block}
use aurion.Consensus.Verification.{verify_block_structure}
use aurion.Script.Engine.{Ed25519}
use aurion.Node.Invariants.{verify_block_invariants}
use aurion.Node.Authority.{
  is_operational, AuthorityError, consensus, invariant, invalid_parent, StorageApi, unwrap_or_none,
  next_position, AuthorityEngine, enforce_operational, fail_stop, check_block, commit_checked,
  connect_block, process_and_commit_block,
}

module _ (blake3 : Blake3) (ed25519 : Ed25519) (api : StorageApi) where
  -- A block that fits the tip: its parent is the tip's hash, and at the next height its structure
  -- and its invariants hold.
  pub record IsNext (tip : Option (ℕ × Hash256)) (block : Block) (storage : api.Store)
      (spent : List OutPoint) : Type 0 where
    pub height : ℕ
    pub position : next_position tip ≡ ok (height, block.header.prev_block_hash)
    pub structure : verify_block_structure blake3 block height ≡ ok tt
    pub invariants :
        verify_block_invariants blake3 ed25519 block
          (λ op. unwrap_or_none (api.get_utxo storage op))
        ≡ ok spent

  check_block-IsNext :
      (tip : Option (ℕ × Hash256)) (block : Block) (storage : api.Store)
      → Ensures (IsNext tip block storage) (check_block blake3 ed25519 api tip block storage)
  unfolding check_block
  check_block-IsNext tip block storage = Ensures-bind (Ensures-self (next_position tip)) λ p at.
      Ensures-bind
        (Ensures-guard (hash_eq block.header.prev_block_hash p.1)
          (invalid_parent p.1 block.header.prev_block_hash))
        λ _ same.
          let parent = (hash_eq_iff block.header.prev_block_hash p.1).0 same in
          let structure = verify_block_structure blake3 block p.0 in
          Ensures-bind (Ensures-map_err consensus structure (Ensures-self structure)) λ u e.
            let invariants =
              verify_block_invariants blake3 ed25519 block
                (λ op. unwrap_or_none (api.get_utxo storage op)) in
            Ensures-weaken _ (Ensures-map_err invariant invariants (Ensures-self invariants))
              λ spent h. record {
                height = p.0;
                position = rw parent at;
                structure = e;
                invariants = h;
              }

  -- A commit: the node was running, the block fits the tip, and the storage has committed it with the
  -- outpoints it spends.
  pub record IsCommit (block : Block) (before after : AuthorityEngine blake3 ed25519 api)
      : Type 0 where
    pub was_running : is_operational before.state ≡ true
    pub tip : Option (ℕ × Hash256)
    pub found : api.get_tip before.storage ≡ ok tip
    pub spent : List OutPoint
    pub next : IsNext tip block before.storage spent
    pub committed : api.commit_block before.storage block spent ≡ ok after.storage
    pub state : after.state ≡ before.state

  -- The two ends of an operation: a commit with an answer, or an error with the storage untouched.
  abbrev pub CommitsOrNot :
      Block
      → AuthorityEngine blake3 ed25519 api
      → Result AuthorityError (Unit {0}) × AuthorityEngine blake3 ed25519 api
      → Type 0
  CommitsOrNot block before out =
      ((out.0 ≡ ok tt) × IsCommit block before out.1)
      ⊎ ((e : AuthorityError) × (out.0 ≡ err e) × (out.1.storage ≡ before.storage))

  -- Processing a block ends in one of two ways: it answers ok, and then the node was running, the
  -- block's parent is the tip, its structure and invariants hold at the next height, and the storage
  -- has committed it; or it answers an error and leaves the storage as it was.
  pub process_and_commit_block-cases :
      (block : Block) (engine : AuthorityEngine blake3 ed25519 api)
      → CommitsOrNot block engine (process_and_commit_block blake3 ed25519 api block engine)
  unfolding process_and_commit_block enforce_operational connect_block commit_checked fail_stop
  process_and_commit_block-cases block engine = elim (Bool-cases (is_operational engine.state)) [
    | inr halted ↦ rw (process_and_commit_block, enforce_operational, halted) (inr (_, refl, refl))
    | inl runs ↦ elim (result_cases (api.get_tip engine.storage)) [
      | inr (e, lost) ↦
          rw (process_and_commit_block, enforce_operational, runs, lost) (inr (_, refl, refl))
      | inl (tip, found) ↦
          elim (result_cases (check_block blake3 ed25519 api tip block engine.storage)) [
            | inr (e, refused) ↦
                rw
                  (
                    process_and_commit_block, enforce_operational, runs, found, connect_block,
                    refused,
                  )
                  (inr (_, refl, refl))
            | inl (spent, checked) ↦
                let next = Ensures-value _ (check_block-IsNext tip block engine.storage) checked in
                elim (result_cases (api.commit_block engine.storage block spent)) [
                  | inr (e, lost) ↦
                      rw
                        (
                          process_and_commit_block, enforce_operational, runs, found, connect_block,
                          checked, commit_checked, lost,
                        )
                        (inr (_, refl, refl))
                  | inl (storage, done) ↦
                      rw
                        (
                          process_and_commit_block, enforce_operational, runs, found, connect_block,
                          checked, commit_checked, done,
                        )
                        (inl (
                          refl,
                          record {
                            was_running = runs;
                            tip = tip;
                            found = found;
                            spent = spent;
                            next = next;
                            committed = done;
                            state = refl;
                          },
                        ))
                ]
          ]
    ]
  ]
