-- ===== src/Service.antt =====
-- bin/aurion/src/rpc_handler.rs: the service of a node, its store with the authority and its pool of
-- transactions, as the handler of requests. The clock's reading, `now`, is an argument; broadcasting to
-- peers and logging are left out. An operation runs to its end before the next one starts; the source
-- takes the lock of the pool only after the commit.
pub mod Submit
pub mod Template
use Prim.Native.String.{String}
use aurion.Prelude.{
  ℕ, zero, suc, ◌+◌, ◌-◌, ◌*◌, ◌/◌, ◌^◌, List, [], ◌∷◌, Bool, false, ◌==◌, leb, ltb, length, Option,
  none, some, if◌then◌else◌,
}
use aurion.Result.{Result, ok, err, guard, ok_or, map_err, ◌>>=◌, ◌>>◌}
use aurion.Bytes.{Bytes}
use aurion.Primitives.Hash.{Hash256, Blake3, from_bytes, zero_hash}
use aurion.Primitives.Quantum.{Quantum, checked_add, checked_sub}
use aurion.Core.OutPoint.{OutPoint}
use aurion.Core.Tx.{TxInput, TxOutput, Transaction}
use aurion.Core.Block.{Block, block_hash}
use aurion.Eutxo.State.{UtxoView, from_output}
use aurion.Consensus.Error.{ConsensusError}
use aurion.Consensus.Difficulty.{max_target_bits, compact_to_target}
use aurion.Consensus.Genesis.{genesis_timestamp}
use aurion.Script.Engine.{Ed25519}
use aurion.Storage.Redb.{Redb}
use aurion.Storage.Engine.{StorageError, get_tip, get_block, get_block_by_height, get_utxo}
use aurion.Node.Authority.{AuthorityError, AuthorityEngine, process_and_commit_block}
use aurion.Node.Ledger.{storage_api}
use aurion.Node.Mempool.Validation.{MempoolReject}
use aurion.Node.Mempool.Store.{
  Mempool, insert, process_committed_block, select_transactions_for_block, pool_len,
}
use aurion.Rpc.Template.{BlockTemplate, SubmitResult, accepted, rejected}
use aurion.Rpc.Protocol.{TipStatus}
use aurion.Rpc.Server.{NodeRpcHandler}

abbrev pub max_block_payload_bytes : ℕ
max_block_payload_bytes = 2 * 1024 * 1024

abbrev pub mtp_window_blocks : ℕ
mtp_window_blocks = 11

-- `calculate_block_subsidy` of this file; 99 * 10 ^ 8 is far below 2 ^ 128
unfoldable pub template_subsidy : ℕ → Quantum
template_subsidy height =
    if leb 64 (height / 200_000) then 0 else 99 * 100_000_000 / 2 ^ (height / 200_000)

-- `sort_unstable` on numbers, where equal ones cannot be told apart
unfoldable pub insert_sorted : ℕ → List ℕ → List ℕ
insert_sorted n [] = n ∷ []
insert_sorted n (m ∷ ms) =
    let later = insert_sorted n ms in if leb n m then n ∷ m ∷ ms else m ∷ later

unfoldable pub sorted : List ℕ → List ℕ
sorted [] = []
sorted (n ∷ ns) = insert_sorted n (sorted ns)

unfoldable pub at_index : ℕ → List ℕ → Option ℕ
at_index n [] = none
at_index zero (x ∷ xs) = some x
at_index (suc n) (x ∷ xs) = at_index n xs

-- The errors that the source formats as texts.
pub data ServiceError (DbError : Type 0) : Type 0 where
  storage_read : StorageError DbError → ServiceError DbError
  height_overflow input_overflow output_overflow fee_underflow fee_overflow : ServiceError DbError
  timestamp_overflow index_panic : ServiceError DbError
  missing_input : OutPoint → ServiceError DbError
  bad_target : ConsensusError → ServiceError DbError
  refused : MempoolReject → ServiceError DbError

module _ (blake3 : Blake3) (ed25519 : Ed25519) (redb : Redb)
    (to_string : StorageError redb.DbError → String) where
  abbrev pub Authority : Type 0
  Authority = AuthorityEngine blake3 ed25519 (storage_api blake3 redb to_string)

  -- `AurionNodeService`; the store is the one of the authority
  pub record AurionNodeService : Type 0 where
    pub authority : Authority
    pub mempool : Mempool

  abbrev pub Reply : Type 0 → Type 0
  Reply A = Result (ServiceError redb.DbError) A

  unfoldable pub tip : redb.Database → Reply (ℕ × Hash256)
  tip storage = do
    found ← map_err storage_read (get_tip redb storage)
    elim found [ some position ↦ ok position | none ↦ ok (0, zero_hash) ]

  -- the loop from the tip down, for as many samples as are still wanted
  unfoldable pub timestamps : redb.Database → ℕ → ℕ → Reply (List ℕ)
  timestamps storage zero height = ok []
  timestamps storage (suc wanted) height = do
    found ← map_err storage_read (get_block_by_height redb storage height)
    elim found [
      | none ↦ ok []
      | some block ↦ if height == 0 then ok (block.header.timestamp ∷ []) else (do
        earlier ← timestamps storage wanted (height - 1)
        ok (block.header.timestamp ∷ earlier))
    ]

  -- `samples[samples.len() / 2]` of the sorted samples
  unfoldable pub median : List ℕ → Reply ℕ
  median [] = ok genesis_timestamp
  median (t ∷ ts) = ok_or (at_index (length (t ∷ ts) / 2) (sorted (t ∷ ts))) index_panic

  unfoldable pub median_time_past : redb.Database → Hash256 → Reply ℕ
  median_time_past storage tip_hash = do
    found ← map_err storage_read (get_block redb storage tip_hash)
    samples ← elim found [
      | none ↦ ok []
      | some block ↦ timestamps storage mtp_window_blocks block.header.height
    ]
    median samples

  -- an invalid `bits` falls back to the maximal target
  unfoldable pub target_of : ℕ → Reply Hash256
  target_of bits = elim (compact_to_target bits) [
    | ok target ↦ ok (from_bytes target)
    | err _ ↦
        map_err bad_target (compact_to_target max_target_bits >>= λ target. ok (from_bytes target))
  ]

  unfoldable pub next_work_target : redb.Database → Hash256 → Reply Hash256
  next_work_target storage tip_hash = do
    found ← map_err storage_read (get_block redb storage tip_hash)
    target_of (elim found [ some block ↦ block.header.bits | none ↦ max_target_bits ])

  -- Every output counts as one of a transaction that is no coinbase, at height 0.
  unfoldable pub utxo_view : redb.Database → UtxoView
  utxo_view storage op = elim (get_utxo redb storage op) [
    | ok (some output) ↦ some (from_output output 0 false)
    | ok none ↦ none
    | err _ ↦ none
  ]

  unfoldable pub sum_inputs : redb.Database → Quantum → List TxInput → Reply Quantum
  sum_inputs storage total [] = ok total
  sum_inputs storage total (input ∷ inputs) = do
    utxo ← ok_or (utxo_view storage input.previous_output) (missing_input input.previous_output)
    total' ← map_err (λ _. input_overflow) (checked_add total utxo.value)
    sum_inputs storage total' inputs

  unfoldable pub sum_output_values : Quantum → List TxOutput → Reply Quantum
  sum_output_values total [] = ok total
  sum_output_values total (output ∷ outputs) = do
    total' ← map_err (λ _. output_overflow) (checked_add total output.value)
    sum_output_values total' outputs

  unfoldable pub calculate_tx_fee : redb.Database → Transaction → Reply Quantum
  calculate_tx_fee storage tx = do
    total_input ← sum_inputs storage 0 tx.inputs
    total_output ← sum_output_values 0 tx.outputs
    map_err (λ _. fee_underflow) (checked_sub total_input total_output)

  -- the loop over the selected transactions: a fee that cannot be computed is left out
  unfoldable pub sum_fees : redb.Database → Quantum → List Transaction → Reply Quantum
  sum_fees storage total [] = ok total
  sum_fees storage total (tx ∷ txs) = elim (calculate_tx_fee storage tx) [
    | err _ ↦ sum_fees storage total txs
    | ok fee ↦ map_err (λ _. fee_overflow) (checked_add total fee) >>= λ total'.
        sum_fees storage total' txs
  ]

  unfoldable pub next_timestamp : ℕ → ℕ → Reply ℕ
  next_timestamp now mtp =
      if ltb mtp now
      then ok now
      else if ltb (mtp + 1) (2 ^ 64)
      then ok (mtp + 1)
      else err timestamp_overflow

  unfoldable pub service_block_template : ℕ → AurionNodeService → Reply BlockTemplate
  service_block_template now service = do
    let storage = service.authority.storage
    (tip_height, tip_hash) ← tip storage
    guard (ltb (tip_height + 1) (2 ^ 64)) height_overflow
    target ← next_work_target storage tip_hash
    let transactions = select_transactions_for_block service.mempool max_block_payload_bytes
    total_fee ← sum_fees storage 0 transactions
    mtp ← median_time_past storage tip_hash
    timestamp ← next_timestamp now mtp
    ok (record {
      height = tip_height + 1;
      previous_block_hash = tip_hash;
      target = target;
      timestamp = timestamp;
      coinbase_subsidy = template_subsidy (tip_height + 1);
      total_fee = total_fee;
      transactions = transactions;
    })

  -- `format!("{consensus_err:?}")` is the parameter `describe`
  unfoldable pub service_submit_block :
      (AuthorityError → Bytes) → Block → AurionNodeService → SubmitResult × AurionNodeService
  service_submit_block describe block service =
      let (answer, authority) =
        process_and_commit_block blake3 ed25519 (storage_api blake3 redb to_string) block
          service.authority in
      elim answer [
        | ok _ ↦ (
          accepted (block_hash blake3 block) block.header.height,
          record {
            authority = authority;
            mempool = process_committed_block blake3 block service.mempool;
          },
        )
        | err e ↦ (rejected (describe e), record service { authority = authority })
      ]

  unfoldable pub service_send_raw_tx :
      ℕ → Transaction → AurionNodeService → Reply (Hash256 × AurionNodeService)
  service_send_raw_tx now tx service = do
    let storage = service.authority.storage
    (tip_height, tip_hash) ← tip storage
    mtp ← median_time_past storage tip_hash
    (txid, mempool) ←
        map_err refused
          (insert blake3 ed25519 service.mempool tx (utxo_view storage) tip_height mtp now)
    ok (txid, record service { mempool = mempool })

  unfoldable pub service_tip_status : AurionNodeService → Reply TipStatus
  service_tip_status service = do
    (height, best_block_hash) ← tip service.authority.storage
    ok (record {
      height = height;
      best_block_hash = best_block_hash;
      mempool_size = pool_len service.mempool;
    })

  -- the service as the handler of requests at one reading of the clock; `report` formats an error
  unfoldable pub node_handler :
      (AuthorityError → Bytes) → (ServiceError redb.DbError → Bytes) → ℕ → NodeRpcHandler
  node_handler describe report now = record {
    State = AurionNodeService;
    handle_get_block_template =
        λ payout_address service. (map_err report (service_block_template now service), service);
    handle_submit_block = λ block service.
        let (result, after) = service_submit_block describe block service in (ok result, after);
    handle_send_raw_tx = λ tx service. elim (service_send_raw_tx now tx service) [
      | ok (id, after) ↦ (ok id, after)
      | err e ↦ (err (report e), service)
    ];
    handle_get_tip_status = λ service. (map_err report (service_tip_status service), service);
  }
