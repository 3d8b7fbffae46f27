-- ===== src/Node/Authority/FailStop.antt =====
-- The steps of a node after its start, and what a failed node does
-- (crates/aurion-node/src/authority/engine.rs, lifecycle/state.rs).
use aurion.Prelude.{◌≡◌, refl, ◌∙◌, true, false}
use aurion.Result.{err}
use aurion.Primitives.Hash.{Blake3}
use aurion.Core.Block.{Block}
use aurion.Script.Engine.{Ed25519}
use aurion.Node.Authority.{
  NodeFault, NodeState, starting, recovering, running, stopped, failed, is_operational, is_failed,
  node_halted, StorageApi, AuthorityEngine, enforce_operational, fail_stop,
  process_and_commit_block,
}

failed_halted : (s : NodeState) → is_failed s ≡ true → is_operational s ≡ false
unfolding is_failed is_operational
failed_halted (failed fault) h = refl
failed_halted starting h = refl
failed_halted recovering h = refl
failed_halted stopped h = refl
failed_halted running h = cc

module _ (blake3 : Blake3) (ed25519 : Ed25519) (api : StorageApi) where
  -- One step of a node that has started: it processes a block, or stops on a fault.
  pub data Step
      : AuthorityEngine blake3 ed25519 api → AuthorityEngine blake3 ed25519 api → Type 0 where
    process :
        (block : Block) (engine : AuthorityEngine blake3 ed25519 api)
        → Step engine (process_and_commit_block blake3 ed25519 api block engine).1
    stop :
        (fault : NodeFault) (engine : AuthorityEngine blake3 ed25519 api)
        → Step engine (fail_stop blake3 ed25519 api fault engine)

  pub data Steps
      : AuthorityEngine blake3 ed25519 api → AuthorityEngine blake3 ed25519 api → Type 0 where
    here : {engine : AuthorityEngine blake3 ed25519 api} → Steps engine engine
    next :
        {before middle after : AuthorityEngine blake3 ed25519 api}
        → Step before middle
        → Steps middle after
        → Steps before after

  -- A node that is not running refuses every block, and nothing of it changes.
  pub process_halted :
      (block : Block) (engine : AuthorityEngine blake3 ed25519 api)
      → is_operational engine.state ≡ false
      → process_and_commit_block blake3 ed25519 api block engine ≡ (err node_halted, engine)
  unfolding process_and_commit_block enforce_operational
  process_halted block engine h = rw (process_and_commit_block, enforce_operational, h) refl

  abbrev KeepsFailed :
      AuthorityEngine blake3 ed25519 api → AuthorityEngine blake3 ed25519 api → Type 0
  KeepsFailed before after = (is_failed after.state ≡ true) × (after.storage ≡ before.storage)

  Step-KeepsFailed :
      {before after : AuthorityEngine blake3 ed25519 api}
      → Step before after
      → is_failed before.state ≡ true
      → KeepsFailed before after
  unfolding fail_stop is_failed
  Step-KeepsFailed (process block engine) h =
      rw (process_halted block engine (failed_halted engine.state h)) (h, refl)
  Step-KeepsFailed (stop fault engine) h = (refl, refl)

  -- However many blocks a failed node is given and faults it meets, it stays failed and its storage
  -- stays as it was, as long as `initialize_genesis` is not called.
  pub failed_stays :
      {before after : AuthorityEngine blake3 ed25519 api}
      → Steps before after
      → is_failed before.state ≡ true
      → (is_failed after.state ≡ true) × (after.storage ≡ before.storage)
  failed_stays here h = (h, refl)
  failed_stays (next s rest) h =
      let first = Step-KeepsFailed s h in
      let later = failed_stays rest first.0 in (later.0, later.1 ∙ first.1)
