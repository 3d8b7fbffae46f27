-- ===== src/Node/Mempool/Store.antt =====
-- crates/aurion-node/src/mempool/mod.rs and entry.rs: the pool of pending transactions. The
-- `BTreeSet` of fee rates is its elements in ascending order; the lock around the pool is
-- taken by the callers, for the whole of an operation.
pub mod Rates
pub mod Pool
pub mod Operations
pub mod Committed
use mathlib.Core.List.{reverse}
use aurion.Prelude.{
  ℕ, ◌+◌, ◌-◌, ◌*◌, ◌^◌, List, [], ◌∷◌, ◌++◌, Bool, true, false, ltb, Option, none, some, length,
  if◌then◌else◌, Option-cases,
}
use aurion.Result.{Result, ok, err, ◌>>=◌}
use aurion.Map.{Map, get, put, delete, contains_key, hash_key}
use aurion.Core.OutPoint.Key.{outpoint_key}
use aurion.Primitives.Hash.{Hash256, Blake3}
use aurion.Primitives.Quantum.{Quantum}
use aurion.Core.OutPoint.{OutPoint}
use aurion.Core.Tx.{Transaction, TxInput, encode_transaction, txid}
use aurion.Core.Block.{Block}
use aurion.Eutxo.State.{UtxoView}
use aurion.Script.Engine.{Ed25519}
use aurion.Node.Invariants.{outpoints}
use aurion.Node.Mempool.FeeRate.{FeeRateIndex, Ordering, less, equal, greater, cmp, beats}
use aurion.Node.Mempool.Validation.{
  MempoolReject, mempool_full, arithmetic_overflow, validate_for_mempool,
}

abbrev pub default_max_mempool_bytes : ℕ
default_max_mempool_bytes = 50 * 1024 * 1024

pub record MempoolEntry : Type 0 where
  pub tx : Transaction
  pub txid : Hash256
  pub size_bytes : ℕ
  pub fee : Quantum
  pub added_timestamp : ℕ

-- `FeeRateIndex::new(entry.fee, entry.size_bytes, entry.txid)`
abbrev pub index_of : MempoolEntry → FeeRateIndex
index_of entry = record { fee = entry.fee; size_bytes = entry.size_bytes; txid = entry.txid }

-- `BTreeSet::insert` and `remove`, by `Ord::cmp`
unfoldable pub rate_insert : FeeRateIndex → List FeeRateIndex → List FeeRateIndex
rate_insert i [] = i ∷ []
rate_insert i (j ∷ js) = elim (cmp i j) [
  | less ↦ i ∷ j ∷ js
  | equal ↦ j ∷ js
  | greater ↦ j ∷ rate_insert i js
]

unfoldable pub rate_remove : FeeRateIndex → List FeeRateIndex → List FeeRateIndex
rate_remove i [] = []
rate_remove i (j ∷ js) = elim (cmp i j) [
  | equal ↦ js
  | less ↦ j ∷ rate_remove i js
  | greater ↦ j ∷ rate_remove i js
]

-- `MempoolInner`
pub record Mempool : Type 0 where
  pub by_txid : Map Hash256 MempoolEntry
  pub by_fee_rate : List FeeRateIndex
  pub spent_outpoints : Map OutPoint Hash256
  pub total_bytes : ℕ
  pub max_bytes : ℕ

abbrev pub new_mempool : ℕ → Mempool
new_mempool max_bytes = record {
  by_txid = [];
  by_fee_rate = [];
  spent_outpoints = [];
  total_bytes = 0;
  max_bytes = max_bytes;
}

-- the loops over the inputs that release and that reserve outpoints
unfoldable pub release : List TxInput → Map OutPoint Hash256 → Map OutPoint Hash256
release [] m = m
release (input ∷ inputs) m = release inputs (delete input.previous_output m)

unfoldable pub reserve : Hash256 → List TxInput → Map OutPoint Hash256 → Map OutPoint Hash256
reserve id [] m = m
reserve id (input ∷ inputs) m = reserve id inputs (put input.previous_output id m)

-- What `remove` does with the entry it has found.
unfoldable pub take_out : Hash256 → MempoolEntry → Mempool → Mempool
take_out id entry pool = record pool {
  by_txid = delete id pool.by_txid;
  by_fee_rate = rate_remove (index_of entry) pool.by_fee_rate;
  spent_outpoints = release entry.tx.inputs pool.spent_outpoints;
  total_bytes = pool.total_bytes - entry.size_bytes;
}

unfoldable pub remove : Hash256 → Mempool → Option MempoolEntry × Mempool
remove id pool = elim (get id pool.by_txid) [
  | none ↦ (none, pool)
  | some entry ↦ (some entry, take_out id entry pool)
]

-- the eviction of the lowest fee rate
unfoldable pub evict : FeeRateIndex → Mempool → Mempool
evict victim pool =
    let indexed : Mempool = record pool { by_fee_rate = rate_remove victim pool.by_fee_rate } in
    elim (get victim.txid pool.by_txid) [
      | none ↦ indexed
      | some victim_entry ↦ record indexed {
        by_txid = delete victim.txid pool.by_txid;
        spent_outpoints = release victim_entry.tx.inputs pool.spent_outpoints;
        total_bytes = pool.total_bytes - victim_entry.size_bytes;
      }
    ]

-- capacity management: `by_fee_rate` starts with the lowest
unfoldable pub make_room : FeeRateIndex → ℕ → Mempool → Result MempoolReject Mempool
make_room incoming new_total pool =
    if ltb pool.max_bytes new_total
    then elim pool.by_fee_rate [
      | [] ↦ err mempool_full
      | victim ∷ rest ↦ if beats incoming victim then ok (evict victim pool) else err mempool_full
    ]
    else ok pool

-- `checked_add` and `saturating_add` of usize
unfoldable pub checked_total : ℕ → ℕ → Result MempoolReject ℕ
checked_total a b = if ltb (a + b) (2 ^ 64) then ok (a + b) else err arithmetic_overflow

unfoldable pub saturating_total : ℕ → ℕ → ℕ
saturating_total a b = if ltb (a + b) (2 ^ 64) then a + b else 2 ^ 64 - 1

unfoldable pub register : MempoolEntry → Mempool → Mempool
register entry pool = record pool {
  by_txid = put entry.txid entry pool.by_txid;
  by_fee_rate = rate_insert (index_of entry) pool.by_fee_rate;
  spent_outpoints = reserve entry.txid entry.tx.inputs pool.spent_outpoints;
  total_bytes = saturating_total pool.total_bytes entry.size_bytes;
}

-- `Mempool::len`
unfoldable pub pool_len : Mempool → ℕ
pool_len pool = length pool.by_txid

-- the greedy loop, from the highest fee rate down
unfoldable pub select_from : Map Hash256 MempoolEntry → ℕ → ℕ → List FeeRateIndex → List Transaction
select_from by_txid max_block_bytes accumulated [] = []
select_from by_txid max_block_bytes accumulated (rate ∷ rates) =
    let skip = select_from by_txid max_block_bytes accumulated rates in
    elim (get rate.txid by_txid) [
      | none ↦ skip
      | some entry ↦
          let new_size = accumulated + entry.size_bytes in
          let pack = entry.tx ∷ select_from by_txid max_block_bytes new_size rates in
          if ltb new_size (2 ^ 64)
          then (if ltb max_block_bytes new_size then skip else pack)
          else []
    ]

unfoldable pub select_transactions_for_block : Mempool → ℕ → List Transaction
select_transactions_for_block pool max_block_bytes =
    select_from pool.by_txid max_block_bytes 0 (reverse pool.by_fee_rate)

module _ (blake3 : Blake3) where
  -- `MempoolEntry::new`
  unfoldable pub new_entry : Transaction → Quantum → ℕ → MempoolEntry
  new_entry tx fee added_timestamp = record {
    tx = tx;
    txid = txid blake3 tx;
    size_bytes = length (encode_transaction tx);
    fee = fee;
    added_timestamp = added_timestamp;
  }

  -- the loop over the transactions of a committed block: the pool, and the outpoints consumed
  unfoldable pub confirm : List Transaction → Mempool → Mempool × List OutPoint
  confirm [] pool = (pool, [])
  confirm (tx ∷ txs) pool =
      let confirmed = (remove (txid blake3 tx) pool).1 in
      let later = confirm txs confirmed in (later.0, outpoints tx.inputs ++ later.1)

  -- `filter_map` over the reservations
  unfoldable pub conflicts : Map OutPoint Hash256 → List OutPoint → List Hash256
  conflicts reserved [] = []
  conflicts reserved (op ∷ ops) =
      let later = conflicts reserved ops in
      elim (get op reserved) [ none ↦ later | some id ↦ id ∷ later ]

  unfoldable pub remove_all : List Hash256 → Mempool → Mempool
  remove_all [] pool = pool
  remove_all (id ∷ ids) pool = remove_all ids (remove id pool).1

  unfoldable pub process_committed_block : Block → Mempool → Mempool
  process_committed_block block pool =
      let (confirmed, block_spent) = confirm block.transactions pool in
      remove_all (conflicts confirmed.spent_outpoints block_spent) confirmed

  -- A transaction that is refused leaves the pool as it was.
  unfoldable pub insert :
      Ed25519
      → Mempool
      → Transaction
      → UtxoView
      → ℕ
      → ℕ
      → ℕ
      → Result MempoolReject (Hash256 × Mempool)
  insert ed25519 pool tx utxo_view tip_height mtp now = do
    tx_fee ←
        validate_for_mempool blake3 ed25519 tx utxo_view (λ op. get op pool.spent_outpoints)
          tip_height mtp
    let entry = new_entry tx tx_fee now
    new_total ← checked_total pool.total_bytes entry.size_bytes
    roomy ← make_room (index_of entry) new_total pool
    ok (entry.txid, register entry roomy)
