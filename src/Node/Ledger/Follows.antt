-- ===== src/Node/Ledger/Follows.antt =====
-- A node that starts on an empty store keeps a chain: what it has stored is the ledger of a chain of
-- valid blocks (crates/aurion-node/src/authority/engine.rs on crates/aurion-storage/src/engine.rs).
use Prim.Native.String.{String}
use aurion.Prelude.{
  ℕ, ◌+◌, ◌≡◌, ◌^◌, refl, sym, ◌∙◌, List, [], ◌∷◌, length, Option, none, some, inl, inr, Bool-cases,
  Option-cases, ltb, arith,
}
use aurion.Result.{Result, ok, result_cases, Ensures-value}
use aurion.Primitives.Hash.{Hash256, Blake3, digest-IsHash}
use aurion.Core.OutPoint.{OutPoint}
use aurion.Core.Block.{Block, IsBlockData, block_hash, header_hash}
use aurion.Consensus.Genesis.{create_genesis_block}
use aurion.Consensus.Verification.Accepted.{verify_block_structure_iff}
use aurion.Script.Engine.{Ed25519}
use aurion.Storage.Redb.{Redb, RedbLaws, Tables}
use aurion.Storage.Engine.{StorageError, tip_height, get_tip, get_utxo, commit_block}
use aurion.Storage.Tables.{commit_block-tables}
use aurion.Storage.Refinement.{Represents, write_block-Represents}
use aurion.Storage.Reads.{
  Delivers, delivers, HasBlock, write_block-HasBlock, get_tip-Delivers, get_tip_none,
}
use aurion.Node.Invariants.{UtxoLookup}
use aurion.Node.Invariants.Spent.{consumed, verify_block_invariants-spent}
use aurion.Node.Invariants.Sound.{verify_block_invariants-IsSound}
use aurion.Node.Authority.{
  NodeFault, AuthorityEngine, new_authority, next_position, fail_stop, set_running,
  initialize_genesis, process_and_commit_block, unwrap_or_none,
}
use aurion.Node.Authority.Commits.{IsNext, process_and_commit_block-cases}
use aurion.Node.Ledger.{storage_api}
use aurion.Node.Ledger.Chain.{replay, parent_hash, IsLink, IsChain, genesis-IsLink, genesis-spends}
use aurion.Node.Ledger.Sound.{get_utxo-Agrees, each_transferred, consumed_valid}

Delivers-ok : {E A : Type 0} {P : A → Type 0} {a : A} → Delivers {E = E} P (ok a) → P a
Delivers-ok (delivers h) = h

pub Delivers-value :
    {E A : Type 0} {P : A → Type 0} {a : A} (r : Result (StorageError E) A)
    → Delivers P r
    → r ≡ ok a
    → P a
Delivers-value r h e = Delivers-ok (rw e at h)

ok_pair :
    {E A B : Type 0} {a c : A} {b d : B}
    → ◌≡◌ {A = Result E (A × B)} (ok (a, b)) (ok (c, d))
    → (a ≡ c) × (b ≡ d)
ok_pair h = (cc, cc)

module _ (blake3 : Blake3) (ed25519 : Ed25519) (redb : Redb) (laws : RedbLaws redb)
    (to_string : StorageError redb.DbError → String) where
  abbrev pub Engine : Type 0
  Engine = AuthorityEngine blake3 ed25519 (storage_api blake3 redb to_string)

  -- The tip that is stored is the newest block of a chain.
  abbrev TipIs : Tables → List Block → Type 0
  TipIs tables [] = tables tip_height ≡ none
  TipIs tables (block ∷ parents) = HasBlock blake3 tables block

  abbrev pub tip_of_chain : List Block → Option (ℕ × Hash256)
  tip_of_chain [] = none
  tip_of_chain (block ∷ parents) = some (block.header.height, block_hash blake3 block)

  -- The store holds the ledger of a chain of valid blocks, and its newest block as the tip.
  pub record Follows (db : redb.Database) (chain : List Block) : Type 0 where
    pub valid : IsChain blake3 ed25519 chain
    pub ledger : Represents (laws.content db) (replay blake3 chain)
    pub tip : TipIs (laws.content db) chain

  pub get_tip-chain :
      (db : redb.Database) (chain : List Block)
      → Follows db chain
      → Delivers (λ found. found ≡ tip_of_chain chain) (get_tip redb db)
  unfolding block_hash header_hash
  get_tip-chain db [] f = get_tip_none redb laws db f.tip
  get_tip-chain db (block ∷ parents) f =
      get_tip-Delivers redb laws db block.header.height (block_hash blake3 block)
        f.valid.0.fields.header.height (digest-IsHash blake3 _) f.tip.tip_at f.tip.tip_is

  -- A commit of a block that links to the chain.
  pub commit-Follows :
      (db after : redb.Database) (block : Block) (parents : List Block) (spent : List OutPoint)
      → Follows db parents
      → IsLink blake3 ed25519 block parents
      → spent ≡ consumed block.transactions
      → commit_block redb blake3 db block spent ≡ ok after
      → Follows after (block ∷ parents)
  unfolding replay
  commit-Follows db after block parents spent f link same done =
      let tables = Ensures-value _ (commit_block-tables redb laws blake3 db block spent) done in
      let valid = consumed_valid block.transactions link.fields.transactions in
      record {
        valid = (link, f.valid);
        ledger =
            rw (tables, same)
              (write_block-Represents blake3 block (consumed block.transactions) link.fields valid
                f.ledger);
        tip = rw tables (write_block-HasBlock blake3 block spent (laws.content db));
      }

  position-chain :
      (chain : List Block) (height : ℕ) (parent : Hash256)
      → IsChain blake3 ed25519 chain
      → next_position (tip_of_chain chain) ≡ ok (height, parent)
      → (height ≡ length chain) × (parent ≡ parent_hash blake3 chain)
  unfolding next_position parent_hash
  position-chain [] height parent is h = let (at, up) = ok_pair h in (sym at, sym up)
  position-chain (block ∷ parents) height parent is h =
      let top = (verify_block_structure_iff blake3 block (length parents)).0 is.0.structure in
      let same = top.at_height in
      elim (Bool-cases (ltb (block.header.height + 1) (256 ^ 8))) [
        | inl small ↦ let (at, up) = ok_pair (rw small at h) in (omega arith, sym up)
        | inr large ↦ let none_next = (rw large at h) in cc
      ]

  -- A block that the authority accepts links to the chain that it follows.
  pub next-IsLink :
      (db : redb.Database) (chain : List Block) (tip : Option (ℕ × Hash256)) (block : Block)
      (spent : List OutPoint)
      → Follows db chain
      → IsBlockData block
      → get_tip redb db ≡ ok tip
      → IsNext blake3 ed25519 (storage_api blake3 redb to_string) tip block db spent
      → IsLink blake3 ed25519 block chain × (spent ≡ consumed block.transactions)
  next-IsLink db chain tip block spent f fields found next =
      let at_tip = Delivers-value (get_tip redb db) (get_tip-chain db chain f) found in
      let (at, up) =
        position-chain chain next.height block.header.prev_block_hash f.valid
          (rw at_tip at next.position) in
      let lookup : UtxoLookup = λ op. unwrap_or_none (get_utxo redb db op) in
      let (same, once) =
        verify_block_invariants-spent blake3 ed25519 block lookup spent next.invariants in
      let sound =
        verify_block_invariants-IsSound blake3 ed25519 block lookup spent next.invariants in
      let agrees = get_utxo-Agrees redb laws db (replay blake3 chain) f.ledger in
      (
        record {
          fields = fields;
          structure = rw at at next.structure;
          parent = up;
          once = λ op. rw same at (once op);
          sound =
              each_transferred blake3 ed25519 lookup (replay blake3 chain) agrees
                block.header.height block.transactions fields.transactions sound;
        },
        same,
      )

  process-Follows :
      (block : Block) (engine : Engine) (chain : List Block)
      → IsBlockData block
      → Follows engine.storage chain
      → (after : List Block) × Follows
          (process_and_commit_block blake3 ed25519
            (storage_api blake3 redb to_string)
            block
            engine).1.storage
          after
  process-Follows block engine chain fields f =
      elim (process_and_commit_block-cases blake3 ed25519 (storage_api blake3 redb to_string) block
        engine) [
          | inl (answer, commit) ↦
              let (link, same) =
                next-IsLink engine.storage chain commit.tip block commit.spent f fields commit.found
                  commit.next in
              (
                block ∷ chain,
                commit-Follows engine.storage _ block chain commit.spent f link same
                    commit.committed,
              )
          | inr (e, answer, untouched) ↦ (chain, rw untouched f)
        ]

  -- What happens to a node: its start, a valid block, a fault.
  pub data Step (engine : Engine) : Engine → Type 0 where
    start :
        Step engine (initialize_genesis blake3 ed25519 (storage_api blake3 redb to_string) engine).1
    process :
        (block : Block)
        → IsBlockData block
        → Step engine
            (process_and_commit_block blake3 ed25519
              (storage_api blake3 redb to_string)
              block
              engine).1
    stop :
        (fault : NodeFault)
        → Step engine (fail_stop blake3 ed25519 (storage_api blake3 redb to_string) fault engine)

  -- The nodes that are reached on a store that was empty.
  pub data Reachable : Engine → Type 0 where
    fresh :
        (db : redb.Database)
        → laws.content db ≡ (λ slot. none)
        → Reachable (new_authority blake3 ed25519 (storage_api blake3 redb to_string) db)
    step : {before after : Engine} → Reachable before → Step before after → Reachable after

  pub fresh-Follows : (db : redb.Database) → laws.content db ≡ (λ slot. none) → Follows db []
  unfolding replay
  fresh-Follows db empty = record {
    valid = tt;
    ledger = rw empty (record { stored = λ op is. refl; valid = λ op output h. cc });
    tip = rw empty refl;
  }

  no_tip : (chain : List Block) → tip_of_chain chain ≡ none → chain ≡ []
  no_tip [] h = refl
  no_tip (block ∷ parents) h = cc

  start-Follows :
      (engine : Engine) (chain : List Block)
      → Follows engine.storage chain
      → (after : List Block) × Follows
          (initialize_genesis blake3 ed25519 (storage_api blake3 redb to_string) engine).1.storage
          after
  unfolding initialize_genesis set_running
  start-Follows engine chain f =
      let api = storage_api blake3 redb to_string in
      elim (result_cases (get_tip redb engine.storage)) [
        | inr (e, lost) ↦ (chain, rw (initialize_genesis, lost) f)
        | inl (tip, found) ↦
            let at_tip =
              Delivers-value (get_tip redb engine.storage) (get_tip-chain engine.storage chain f)
                found in
            elim (Option-cases tip) [
              | inr (position, set) ↦ (chain, rw (initialize_genesis, found, set, set_running) f)
              | inl unset ↦
                  let genesis = create_genesis_block blake3 in
                  let empty = no_tip chain (sym at_tip ∙ unset) in
                  elim (result_cases (commit_block redb blake3 engine.storage genesis [])) [
                    | inr (e, lost) ↦ (chain, rw (initialize_genesis, found, unset, lost) f)
                    | inl (after, done) ↦ (
                      genesis ∷ [],
                      rw (initialize_genesis, found, unset, done, set_running)
                          (commit-Follows engine.storage after genesis [] [] (rw empty at f)
                            (genesis-IsLink blake3 ed25519) (sym (genesis-spends blake3)) done),
                    )
                  ]
            ]
      ]

  -- The node that is reached from a start on an empty store, by starts, valid blocks and faults in any
  -- order, with redb failing at any operation, follows a chain: what is stored is the ledger of that
  -- chain, the tip is its newest block, and each block of the chain has the right structure for its
  -- height and the block before it as its parent, spends no outpoint twice, and has only transactions
  -- that, on the ledger of the blocks before it, pay out no more than they spend and whose contracts
  -- answer true.
  pub Reachable-Follows :
      {engine : Engine} → Reachable engine → (chain : List Block) × Follows engine.storage chain
  unfolding fail_stop
  Reachable-Follows (fresh db empty) = ([], fresh-Follows db empty)
  Reachable-Follows (step {before} r start) =
      let (chain, f) = Reachable-Follows r in start-Follows before chain f
  Reachable-Follows (step {before} r (process block fields)) =
      let (chain, f) = Reachable-Follows r in process-Follows block before chain fields f
  Reachable-Follows (step r (stop fault)) = Reachable-Follows r
