-- ===== src/Node/Authority.antt =====
-- crates/aurion-node/src/authority/engine.rs and lifecycle: the state machine of the node. An
-- operation is a function of the engine, so operations run one at a time; the source takes its locks one
-- after the other and holds none from the read of the tip to the commit. Logging is left out.
pub mod Commits
pub mod FailStop
use Prim.Native.String.{String}
use aurion.Prelude.{
  ℕ, ◌+◌, ◌^◌, List, [], Bool, true, false, ltb, Option, none, some, if◌then◌else◌,
}
use aurion.Result.{Result, ok, err, guard, map_err, ◌>>=◌, ◌>>◌}
use aurion.Primitives.Hash.{Hash256, Blake3, zero_hash, hash_eq}
use aurion.Core.OutPoint.{OutPoint}
use aurion.Core.Tx.{TxOutput}
use aurion.Core.Block.{Block}
use aurion.Consensus.Error.{ConsensusError}
use aurion.Consensus.Genesis.{create_genesis_block}
use aurion.Consensus.Verification.{verify_block_structure}
use aurion.Script.Engine.{Ed25519}
use aurion.Node.Invariants.{InvariantError, verify_block_invariants}

pub data NodeFault : Type 0 where
  storage_commit_failure invariant_violation consensus_violation : String → NodeFault
  state_corruption hardware_violation : String → NodeFault

pub data NodeState : Type 0 where
  starting recovering running stopped : NodeState
  failed : NodeFault → NodeState

unfoldable pub is_operational : NodeState → Bool
is_operational running = true
is_operational _ = false

unfoldable pub is_failed : NodeState → Bool
is_failed (failed fault) = true
is_failed _ = false

pub data AuthorityError : Type 0 where
  node_halted : AuthorityError
  consensus : ConsensusError → AuthorityError
  invariant : InvariantError → AuthorityError
  storage_fault : String → AuthorityError
  invalid_parent : Hash256 → Hash256 → AuthorityError

-- What the authority calls of `StorageEngine`: a commit that fails changes nothing.
pub record StorageApi : Type 1 where
  pub Store : Type 0
  pub StorageError : Type 0
  pub to_string : StorageError → String
  pub get_tip : Store → Result StorageError (Option (ℕ × Hash256))
  pub get_utxo : Store → OutPoint → Result StorageError (Option TxOutput)
  pub commit_block : Store → Block → List OutPoint → Result StorageError Store

-- `get_utxo(op).unwrap_or(None)`
abbrev pub unwrap_or_none : {E A : Type 0} → Result E (Option A) → Option A
unwrap_or_none (ok o) = o
unwrap_or_none (err e) = none

-- the height and the parent that the next block must have
unfoldable pub next_position : Option (ℕ × Hash256) → Result AuthorityError (ℕ × Hash256)
next_position none = ok (0, zero_hash)
next_position (some (h, parent_hash)) =
    if ltb (h + 1) (256 ^ 8) then ok (h + 1, parent_hash) else err node_halted

module _ (blake3 : Blake3) (ed25519 : Ed25519) (api : StorageApi) where
  pub record AuthorityEngine : Type 0 where
    pub state : NodeState
    pub storage : api.Store
    pub cancel_signal : Bool

  -- `AuthorityEngine::new`
  abbrev pub new_authority : api.Store → AuthorityEngine
  new_authority storage = record { state = starting; storage = storage; cancel_signal = false }

  unfoldable pub enforce_operational : AuthorityEngine → Result AuthorityError (Unit {0})
  enforce_operational engine = guard (is_operational engine.state) node_halted

  unfoldable pub fail_stop : NodeFault → AuthorityEngine → AuthorityEngine
  fail_stop fault engine = record engine { state = failed fault; cancel_signal = true }

  abbrev pub Outcome : Type 0
  Outcome = Result AuthorityError (Unit {0}) × AuthorityEngine

  unfoldable pub set_running : AuthorityEngine → Outcome
  set_running engine = (ok tt, record engine { state = running })

  unfoldable pub initialize_genesis : AuthorityEngine → Outcome
  initialize_genesis before =
      let engine : AuthorityEngine = record before { state = recovering } in
      elim (api.get_tip engine.storage) [
        | err e ↦ (err (storage_fault (api.to_string e)), engine)
        | ok (some tip) ↦ set_running engine
        | ok none ↦ elim (api.commit_block engine.storage (create_genesis_block blake3) []) [
          | err e ↦ (err (storage_fault (api.to_string e)), engine)
          | ok storage ↦ set_running (record engine { storage = storage })
        ]
      ]

  -- parent, structure and invariants, against the tip
  unfoldable pub check_block :
      Option (ℕ × Hash256) → Block → api.Store → Result AuthorityError (List OutPoint)
  check_block tip block storage = do
    (expected_height, expected_parent) ← next_position tip
    guard (hash_eq block.header.prev_block_hash expected_parent)
        (invalid_parent expected_parent block.header.prev_block_hash)
    map_err consensus (verify_block_structure blake3 block expected_height)
    map_err invariant (
        verify_block_invariants blake3 ed25519 block
          (λ op. unwrap_or_none (api.get_utxo storage op)))

  unfoldable pub commit_checked : Block → AuthorityEngine → List OutPoint → Outcome
  commit_checked block engine spent_inputs =
      elim (api.commit_block engine.storage block spent_inputs) [
        | ok storage ↦ (ok tt, record engine { storage = storage })
        | err e ↦ (
          err (storage_fault (api.to_string e)),
          fail_stop (storage_commit_failure (api.to_string e)) engine,
        )
      ]

  unfoldable pub connect_block : Block → AuthorityEngine → Option (ℕ × Hash256) → Outcome
  connect_block block engine tip = elim (check_block tip block engine.storage) [
    | err e ↦ (err e, engine)
    | ok spent_inputs ↦ commit_checked block engine spent_inputs
  ]

  unfoldable pub process_and_commit_block : Block → AuthorityEngine → Outcome
  process_and_commit_block block engine = elim (enforce_operational engine) [
    | err e ↦ (err e, engine)
    | ok _ ↦ elim (api.get_tip engine.storage) [
      | err e ↦ (
        err (storage_fault (api.to_string e)),
        fail_stop (state_corruption (api.to_string e)) engine,
      )
      | ok tip ↦ connect_block block engine tip
    ]
  ]
