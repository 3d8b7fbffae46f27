-- ===== src/Node/Mempool/Store/Operations.antt =====
-- Every operation of the pool keeps its invariant (crates/aurion-node/src/mempool/mod.rs).
use aurion.Prelude.{
  ℕ, ◌+◌, ◌^◌, ◌<◌, ◌≤◌, ◌≡◌, ◌⊎◌, inl, inr, refl, sym, List, [], ◌∷◌, All, true, Bool-cases,
  Option-cases, ltb, length, none, some, arith, if◌then◌else◌,
}
use aurion.Result.{ok, err, Ensures, returns, raises, Ensures-bind, Ensures-value, Ensures-self}
use aurion.Map.{get, hash_key}
use aurion.Map.Laws.{total}
use aurion.Primitives.Hash.{Hash256, Blake3}
use aurion.Core.OutPoint.{OutPoint, outpoint_eq}
use aurion.Core.OutPoint.Key.{outpoint_key, outpoint_eq_refl}
use aurion.Core.Tx.{Transaction, TxInput, txid}
use aurion.Core.Block.{Block}
use aurion.Eutxo.State.{UtxoView}
use aurion.Script.Engine.{Ed25519}
use aurion.Node.Invariants.{contains, outpoints}
use aurion.Node.Mempool.FeeRate.{FeeRateIndex, beats}
use aurion.Node.Mempool.Validation.{mempool_full, validate_for_mempool, Reservations}
use aurion.Node.Mempool.Validation.Admitted.{validate_for_mempool-IsAdmitted}
use aurion.Node.Mempool.Store.{
  MempoolEntry, Mempool, index_of, new_mempool, take_out, remove, evict, make_room, checked_total,
  new_entry, confirm, remove_all, process_committed_block, insert,
}
use aurion.Node.Mempool.Store.Rates.{In}
use aurion.Node.Mempool.Store.Pool.{
  IsPool, take_out-IsPool, take_out-absent, take_out-free, register-IsPool,
}

pub new_mempool-IsPool : (max_bytes : ℕ) → IsPool (new_mempool max_bytes)
unfolding get total
new_mempool-IsPool max_bytes = record {
  entries = tt;
  bytes = refl;
  keyed = λ id entry h. cc;
  reserved = λ op id h. cc;
  owned = λ op id h. let at = h.1 in cc;
  rated = λ id entry h. cc;
  rates = λ i h. absurd h;
  rate_set = tt;
}

pub remove-IsPool : (id : Hash256) (pool : Mempool) → IsPool pool → IsPool (remove id pool).1
unfolding remove
remove-IsPool id pool is = elim (Option-cases (get id pool.by_txid)) [
  | inl absent ↦ rw (remove, absent) is
  | inr (entry, found) ↦ rw (remove, found) (take_out-IsPool id entry pool is found)
]

-- What is evicted is the entry of the victim, taken out whole.
evict-take_out :
    (victim : FeeRateIndex) (pool : Mempool)
    → IsPool pool
    → In victim pool.by_fee_rate
    → (entry : MempoolEntry) × (get victim.txid pool.by_txid ≡ some entry)
      × (evict victim pool ≡ take_out victim.txid entry pool)
unfolding evict take_out
evict-take_out victim pool is listed =
    let (entry, found, index) = is.rates victim listed in
    (entry, found, rw (evict, found, index) refl)

-- Room is made by leaving the pool as it is, or by taking one entry out.
abbrev pub Roomy : Mempool → Mempool → Type 0
Roomy pool roomy =
    (roomy ≡ pool)
    ⊎ ((id : Hash256) × (entry : MempoolEntry) × (get id pool.by_txid ≡ some entry)
        × (roomy ≡ take_out id entry pool))

make_room-Roomy :
    (incoming : FeeRateIndex) (new_total : ℕ) (pool : Mempool)
    → IsPool pool
    → Ensures (Roomy pool) (make_room incoming new_total pool)
unfolding make_room
make_room-Roomy incoming new_total pool is = elim (Bool-cases (ltb pool.max_bytes new_total)) [
  | inr room ↦ rw (make_room, room) (returns (inl refl))
  | inl full ↦ rw (make_room, full) (lowest pool.by_fee_rate refl)
]
  where
    lowest :
        (rates : List FeeRateIndex)
        → pool.by_fee_rate ≡ rates
        → Ensures (Roomy pool) (elim rates [
          | [] ↦ err mempool_full
          | victim ∷ rest ↦
              if beats incoming victim then ok (evict victim pool) else err mempool_full
        ])
    lowest [] e = raises
    lowest (victim ∷ rest) e = elim (Bool-cases (beats incoming victim)) [
      | inr low ↦ rw low raises
      | inl high ↦
          let listed : In victim pool.by_fee_rate = rw e (inl refl) in
          let (entry, found, out) = evict-take_out victim pool is listed in
          rw high (returns (inr (victim.txid, entry, found, out)))
    ]

unreserved :
    (reserved : Reservations) (inputs : List TxInput) (op : OutPoint)
    → All (λ (i : TxInput). reserved i.previous_output ≡ none) inputs
    → contains op (outpoints inputs) ≡ true
    → reserved op ≡ none
unfolding contains outpoints
unreserved reserved [] op all h = cc
unreserved reserved (i ∷ is) op all h = elim (Bool-cases (outpoint_eq op i.previous_output)) [
  | inl same ↦ rw ((outpoint_key.beq_iff op i.previous_output).0 same) all.0
  | inr other ↦ unreserved reserved is op all.1 (rw other at h)
]

first_input :
    (inputs : List TxInput)
    → 1 ≤ length inputs
    → (op : OutPoint) × (contains op (outpoints inputs) ≡ true)
unfolding contains outpoints
first_input [] h = absurd (omega arith)
first_input (i ∷ is) h = (i.previous_output, rw (outpoint_eq_refl i.previous_output) refl)

-- What a registration asks of the pool.
record IsRegistrable (entry : MempoolEntry) (pool : Mempool) : Type 0 where
  is : IsPool pool
  new : get entry.txid pool.by_txid ≡ none
  free :
      (op : OutPoint)
      → contains op (outpoints entry.tx.inputs) ≡ true
      → get op pool.spent_outpoints ≡ none
  fits : pool.total_bytes + entry.size_bytes < 2 ^ 64

Roomy-IsRegistrable :
    (entry : MempoolEntry) (pool roomy : Mempool)
    → Roomy pool roomy
    → IsRegistrable entry pool
    → IsRegistrable entry roomy
Roomy-IsRegistrable entry pool roomy (inl same) r = rw same r
Roomy-IsRegistrable entry pool roomy (inr (id, out, found, same)) r = rw same (record {
  is = take_out-IsPool id out pool r.is found;
  new = take_out-absent id out pool r.is found entry.txid r.new;
  free = λ op h. take_out-free id out pool r.is found op (r.free op h);
  fits = smaller;
})
  where
    smaller : (take_out id out pool).total_bytes + entry.size_bytes < 2 ^ 64
    smaller = let fit = r.fits in unfold take_out in omega arith

checked_total-fits : (a b : ℕ) → Ensures (λ _. a + b < 2 ^ 64) (checked_total a b)
unfolding checked_total
checked_total-fits a b = elim (Bool-cases (ltb (a + b) (2 ^ 64))) [
  | inl fits ↦ rw fits (returns (ground arith))
  | inr over ↦ rw over raises
]

module _ (blake3 : Blake3) where
  -- No other transaction of the pool has the id of `tx`.
  abbrev pub HasOwnId : Mempool → Transaction → Type 0
  HasOwnId pool tx =
      (entry : MempoolEntry) → get (txid blake3 tx) pool.by_txid ≡ some entry → entry.tx ≡ tx

  -- A transaction none of whose outpoints is reserved is not in the pool.
  not_pooled :
      (pool : Mempool) (tx : Transaction)
      → IsPool pool
      → HasOwnId pool tx
      → 1 ≤ length tx.inputs
      → All (λ (i : TxInput). get i.previous_output pool.spent_outpoints ≡ none) tx.inputs
      → get (txid blake3 tx) pool.by_txid ≡ none
  not_pooled pool tx is own spends free = elim (Option-cases (get (txid blake3 tx) pool.by_txid)) [
    | inl absent ↦ absent
    | inr (entry, found) ↦
        let (op, listed) = first_input tx.inputs spends in
        let same = own entry found in
        let held = is.owned op (txid blake3 tx) (entry, found, rw (sym same) at listed) in
        let not_held = unreserved (λ op. get op pool.spent_outpoints) tx.inputs op free listed in cc
  ]

  abbrev Inserted : Hash256 × Mempool → Type 0
  Inserted p = IsPool p.1

  insert-Inserted :
      (ed25519 : Ed25519) (pool : Mempool) (tx : Transaction) (view : UtxoView) (tip mtp now : ℕ)
      → IsPool pool
      → HasOwnId pool tx
      → Ensures Inserted (insert blake3 ed25519 pool tx view tip mtp now)
  unfolding insert new_entry
  insert-Inserted ed25519 pool tx view tip mtp now is own =
      let reserved : Reservations = (λ op. get op pool.spent_outpoints) in
      let validated = validate_for_mempool blake3 ed25519 tx view reserved tip mtp in
      Ensures-bind (Ensures-self validated) λ fee admitted.
        let gates =
          validate_for_mempool-IsAdmitted blake3 ed25519 tx view reserved tip mtp fee admitted in
        let entry = new_entry blake3 tx fee now in
        Ensures-bind (checked_total-fits pool.total_bytes entry.size_bytes) λ new_total fits.
          let ready : IsRegistrable entry pool = record {
            is = is;
            new = not_pooled pool tx is own gates.spends gates.unreserved;
            free = λ op h. unreserved reserved tx.inputs op gates.unreserved h;
            fits = fits;
          } in
          Ensures-bind (make_room-Roomy (index_of entry) new_total pool is) λ roomy made.
            let r = Roomy-IsRegistrable entry pool roomy made ready in
            returns (register-IsPool entry roomy r.is r.new r.free r.fits)

  pub insert-IsPool :
      (ed25519 : Ed25519) (pool : Mempool) (tx : Transaction) (view : UtxoView) (tip mtp now : ℕ)
      (inserted : Hash256 × Mempool)
      → IsPool pool
      → HasOwnId pool tx
      → insert blake3 ed25519 pool tx view tip mtp now ≡ ok inserted
      → IsPool inserted.1
  insert-IsPool ed25519 pool tx view tip mtp now inserted is own h =
      Ensures-value _ (insert-Inserted ed25519 pool tx view tip mtp now is own) h

  pub confirm-IsPool :
      (txs : List Transaction) (pool : Mempool) → IsPool pool → IsPool (confirm blake3 txs pool).0
  unfolding confirm
  confirm-IsPool [] pool is = is
  confirm-IsPool (tx ∷ txs) pool is =
      confirm-IsPool txs (remove (txid blake3 tx) pool).1 (remove-IsPool (txid blake3 tx) pool is)

  pub remove_all-IsPool :
      (ids : List Hash256) (pool : Mempool) → IsPool pool → IsPool (remove_all blake3 ids pool)
  unfolding remove_all
  remove_all-IsPool [] pool is = is
  remove_all-IsPool (id ∷ ids) pool is =
      remove_all-IsPool ids (remove id pool).1 (remove-IsPool id pool is)

  pub process_committed_block-IsPool :
      (block : Block) (pool : Mempool)
      → IsPool pool
      → IsPool (process_committed_block blake3 block pool)
  unfolding process_committed_block
  process_committed_block-IsPool block pool is =
      remove_all-IsPool _ _ (confirm-IsPool block.transactions pool is)

  -- A step of the pool: a transaction is admitted, one is removed, or a block is committed. A
  -- transaction that is refused changes nothing.
  pub data Step (ed25519 : Ed25519) (pool : Mempool) : Mempool → Type 0 where
    admit :
        (tx : Transaction) (view : UtxoView) (tip mtp now : ℕ) (inserted : Hash256 × Mempool)
        → HasOwnId pool tx
        → insert blake3 ed25519 pool tx view tip mtp now ≡ ok inserted
        → Step ed25519 pool inserted.1
    drop_one : (id : Hash256) → Step ed25519 pool (remove id pool).1
    commit : (block : Block) → Step ed25519 pool (process_committed_block blake3 block pool)

  pub data Reachable (ed25519 : Ed25519) (max_bytes : ℕ) : Mempool → Type 0 where
    start : Reachable ed25519 max_bytes (new_mempool max_bytes)
    step :
        {pool after : Mempool}
        → Reachable ed25519 max_bytes pool
        → Step ed25519 pool after
        → Reachable ed25519 max_bytes after

  Step-IsPool :
      (ed25519 : Ed25519) {pool after : Mempool}
      → Step ed25519 pool after
      → IsPool pool
      → IsPool after
  Step-IsPool ed25519 {pool} (admit tx view tip mtp now inserted own h) is =
      insert-IsPool ed25519 pool tx view tip mtp now inserted is own h
  Step-IsPool ed25519 {pool} (drop_one id) is = remove-IsPool id pool is
  Step-IsPool ed25519 {pool} (commit block) is = process_committed_block-IsPool block pool is

  -- In every pool that is reached from an empty one by admitting transactions, removing them and
  -- committing blocks, the indexes agree, if no transaction is admitted under the id of another one
  -- in the pool: an outpoint is reserved by exactly the transaction of the pool that spends it, the
  -- fee rates are those of the entries, and the count of bytes is the sum of their sizes.
  pub Reachable-IsPool :
      (ed25519 : Ed25519) (max_bytes : ℕ) {pool : Mempool}
      → Reachable ed25519 max_bytes pool
      → IsPool pool
  Reachable-IsPool ed25519 max_bytes start = new_mempool-IsPool max_bytes
  Reachable-IsPool ed25519 max_bytes (step r s) =
      Step-IsPool ed25519 s (Reachable-IsPool ed25519 max_bytes r)
