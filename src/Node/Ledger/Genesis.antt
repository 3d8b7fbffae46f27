-- ===== src/Node/Ledger/Genesis.antt =====
-- The first block of the chain that a node stores (crates/aurion-node/src/authority/engine.rs on
-- crates/aurion-storage/src/engine.rs).
use Prim.Native.String.{String}
use aurion.Prelude.{
  ◌≡◌, refl, sym, ◌∙◌, ap, List, [], ◌∷◌, ◌++◌, none, ◌⊎◌, inl, inr, Option-cases, Bool, false,
}
use aurion.Result.{result_cases}
use aurion.Primitives.Hash.{Blake3}
use aurion.Core.Block.{Block, IsBlockData}
use aurion.Consensus.Genesis.{create_genesis_block}
use aurion.Script.Engine.{Ed25519}
use aurion.Storage.Redb.{Redb, RedbLaws}
use aurion.Storage.Engine.{StorageError, get_tip, commit_block}
use aurion.Node.Authority.{
  is_operational, fail_stop, set_running, initialize_genesis, process_and_commit_block,
}
use aurion.Node.Authority.Commits.{process_and_commit_block-cases}
use aurion.Node.Authority.FailStop.{process_halted}
use aurion.Node.Ledger.{storage_api}
use aurion.Node.Ledger.Chain.{genesis-IsLink, genesis-spends}
use aurion.Node.Ledger.Follows.{
  Engine, Follows, tip_of_chain, get_tip-chain, commit-Follows, next-IsLink, Delivers-value, Step,
  start, process, stop, Reachable, fresh, step, fresh-Follows,
}

module _ (blake3 : Blake3) (ed25519 : Ed25519) (redb : Redb) (laws : RedbLaws redb)
    (to_string : StorageError redb.DbError → String) where
  -- The chain is not empty, and its first block is the genesis block.
  abbrev pub Rooted : List Block → Type 0
  Rooted chain = (later : List Block) × (chain ≡ later ++ (create_genesis_block blake3 ∷ []))

  -- The chain of a node is rooted, or empty while the node is not running.
  abbrev pub StartsRight : Bool → List Block → Type 0
  StartsRight operational chain = ((chain ≡ []) × (operational ≡ false)) ⊎ Rooted chain

  abbrev pub Keeps : Engine blake3 ed25519 redb laws to_string → Type 0
  Keeps engine =
      (chain : List Block) × Follows blake3 ed25519 redb laws to_string engine.storage chain
      × StartsRight (is_operational engine.state) chain

  cons-Rooted : (block : Block) (chain : List Block) → Rooted chain → Rooted (block ∷ chain)
  cons-Rooted block chain (later, same) = (block ∷ later, ap (λ c. block ∷ c) same)

  -- A node that stops running keeps its chain.
  halted_right :
      (operational : Bool) (chain : List Block)
      → StartsRight operational chain
      → StartsRight false chain
  halted_right operational chain (inl (empty, halted)) = inl (empty, refl)
  halted_right operational chain (inr rooted) = inr rooted

  tip-Rooted :
      (operational : Bool) (chain : List Block)
      → ¬ (none ≡ tip_of_chain blake3 ed25519 redb laws to_string chain)
      → StartsRight operational chain
      → Rooted chain
  tip-Rooted operational chain found (inl (empty, halted)) = absurd (found (rw empty refl))
  tip-Rooted operational chain found (inr rooted) = rooted

  no_tip :
      (chain : List Block)
      → none ≡ tip_of_chain blake3 ed25519 redb laws to_string chain
      → chain ≡ []
  no_tip [] h = refl
  no_tip (block ∷ parents) h = cc

  start-Keeps :
      (engine : Engine blake3 ed25519 redb laws to_string)
      → Keeps engine
      → Keeps (initialize_genesis blake3 ed25519 (storage_api blake3 redb to_string) engine).1
  unfolding initialize_genesis set_running is_operational
  start-Keeps engine (chain, f, right) = elim (result_cases (get_tip redb engine.storage)) [
    | inr (e, lost) ↦
        rw (initialize_genesis, lost)
          (chain, f, halted_right (is_operational engine.state) chain right)
    | inl (tip, found) ↦
        let at_tip =
          Delivers-value (get_tip redb engine.storage)
            (get_tip-chain blake3 ed25519 redb laws to_string engine.storage chain f) found in
        elim (Option-cases tip) [
          | inr (position, set) ↦
              rw (initialize_genesis, found, set, set_running)
                (chain, f, inr (tip-Rooted (is_operational engine.state) chain (λ h. cc) right))
          | inl unset ↦
              let genesis = create_genesis_block blake3 in
              let empty = no_tip chain (sym unset ∙ at_tip) in
              elim (result_cases (commit_block redb blake3 engine.storage genesis [])) [
                | inr (e, lost) ↦
                    rw (initialize_genesis, found, unset, lost)
                      (chain, f, halted_right (is_operational engine.state) chain right)
                | inl (after, done) ↦
                    rw (initialize_genesis, found, unset, done, set_running)
                      (
                        genesis ∷ [],
                        commit-Follows blake3 ed25519 redb laws to_string engine.storage after
                            genesis [] [] (rw empty at f) (genesis-IsLink blake3 ed25519)
                            (sym (genesis-spends blake3)) done,
                        inr ([], refl),
                      )
              ]
        ]
  ]

  process-Keeps :
      (block : Block) (engine : Engine blake3 ed25519 redb laws to_string)
      → IsBlockData block
      → Keeps engine
      → Keeps
          (process_and_commit_block blake3 ed25519
            (storage_api blake3 redb to_string)
            block
            engine).1
  process-Keeps block engine fields (chain, f, inl (empty, halted)) =
      let api = storage_api blake3 redb to_string in
      rw (process_halted blake3 ed25519 api block engine halted) (chain, f, inl (empty, halted))
  process-Keeps block engine fields (chain, f, inr rooted) =
      let api = storage_api blake3 redb to_string in
      elim (process_and_commit_block-cases blake3 ed25519 api block engine) [
        | inl (answer, commit) ↦
            let (link, same) =
              next-IsLink blake3 ed25519 redb laws to_string engine.storage chain commit.tip block
                commit.spent f fields commit.found commit.next in
            (
              block ∷ chain,
              commit-Follows blake3 ed25519 redb laws to_string engine.storage _ block chain
                  commit.spent f link same commit.committed,
              inr (cons-Rooted block chain rooted),
            )
        | inr (e, answer, untouched) ↦ (chain, rw untouched f, inr rooted)
      ]

  Step-Keeps :
      {before after : Engine blake3 ed25519 redb laws to_string}
      → Step blake3 ed25519 redb laws to_string before after
      → Keeps before
      → Keeps after
  unfolding fail_stop is_operational
  Step-Keeps {before} start keeps = start-Keeps before keeps
  Step-Keeps {before} (process block fields) keeps = process-Keeps block before fields keeps
  Step-Keeps {before} (stop fault) (chain, f, right) =
      (chain, f, halted_right (is_operational before.state) chain right)

  -- The node that is reached from a start on an empty store, by starts, valid blocks and faults in any
  -- order, with redb failing at any operation, follows a chain whose oldest block is the one of
  -- `create_genesis_block`, or it is not running and follows the empty chain.
  pub Reachable-Rooted :
      {engine : Engine blake3 ed25519 redb laws to_string}
      → Reachable blake3 ed25519 redb laws to_string engine
      → (chain : List Block) × Follows blake3 ed25519 redb laws to_string engine.storage chain
        × (((chain ≡ []) × (is_operational engine.state ≡ false))
            ⊎ ((later : List Block) × (chain ≡ later ++ (create_genesis_block blake3 ∷ []))))
  unfolding is_operational
  Reachable-Rooted (fresh db empty) =
      ([], fresh-Follows blake3 ed25519 redb laws to_string db empty, inl (refl, refl))
  Reachable-Rooted (step r s) = Step-Keeps s (Reachable-Rooted r)
