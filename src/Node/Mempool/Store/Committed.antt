-- ===== src/Node/Mempool/Store/Committed.antt =====
-- A committed block leaves the pool without its transactions and without conflicts
-- (crates/aurion-node/src/mempool/mod.rs, `process_committed_block`).
use aurion.Prelude.{
  ◌≡◌, ◌⊎◌, inl, inr, refl, ap, ◌∙◌, List, [], ◌∷◌, ◌++◌, true, Bool-cases, Option-cases, Option,
  none, some,
}
use aurion.Map.{Map, get, hash_key}
use aurion.Map.Laws.{get-delete, get-delete-some}
use aurion.Primitives.Hash.{Hash256, Blake3}
use aurion.Core.OutPoint.{OutPoint, outpoint_eq}
use aurion.Core.OutPoint.Key.{outpoint_key}
use aurion.Core.Tx.{Transaction, txid}
use aurion.Core.Block.{Block}
use aurion.Node.Invariants.{contains, outpoints}
use aurion.Node.Mempool.Store.{
  MempoolEntry, Mempool, take_out, remove, confirm, conflicts, remove_all, process_committed_block,
}
use aurion.Node.Mempool.Store.Pool.{IsPool, Spends, get-release, released}
use aurion.Node.Mempool.Store.Operations.{remove-IsPool, confirm-IsPool, remove_all-IsPool}

-- All that `after` holds and reserves, `before` does.
record Shrinks (before after : Mempool) : Type 0 where
  held :
      (op : OutPoint) (id : Hash256)
      → get op after.spent_outpoints ≡ some id
      → get op before.spent_outpoints ≡ some id
  pooled :
      (id : Hash256) (entry : MempoolEntry)
      → get id after.by_txid ≡ some entry
      → get id before.by_txid ≡ some entry

Shrinks-refl : (pool : Mempool) → Shrinks pool pool
Shrinks-refl pool = record { held = λ op id h. h; pooled = λ id entry h. h }

Shrinks-trans : {a b c : Mempool} → Shrinks a b → Shrinks b c → Shrinks a c
Shrinks-trans p q = record {
  held = λ op id h. p.held op id (q.held op id h);
  pooled = λ id entry h. p.pooled id entry (q.pooled id entry h);
}

remove-Shrinks : (id : Hash256) (pool : Mempool) → Shrinks pool (remove id pool).1
unfolding remove take_out
remove-Shrinks id pool = elim (Option-cases (get id pool.by_txid)) [
  | inl absent ↦ rw (remove, absent) (Shrinks-refl pool)
  | inr (entry, found) ↦
      rw (remove, found)
        (record {
          held = λ op j h. (released op entry.tx.inputs pool.spent_outpoints h).1;
          pooled = λ j f h. (get-delete-some j id pool.by_txid h).1;
        })
]

none_of : {A : Type 0} (o : Option A) → ((a : A) → ¬ (o ≡ some a)) → o ≡ none
none_of none h = refl
none_of (some a) h = absurd (h a refl)

stays_free :
    {before after : Mempool} (op : OutPoint)
    → Shrinks before after
    → get op before.spent_outpoints ≡ none
    → get op after.spent_outpoints ≡ none
stays_free {after} op s free =
    none_of (get op after.spent_outpoints) (λ id h. let was = s.held op id h in cc)

stays_out :
    {before after : Mempool} (id : Hash256)
    → Shrinks before after
    → get id before.by_txid ≡ none
    → get id after.by_txid ≡ none
stays_out {after} id s out =
    none_of (get id after.by_txid) (λ entry h. let was = s.pooled id entry h in cc)

-- The removal of a transaction releases all that it reserved.
remove-frees :
    (id : Hash256) (op : OutPoint) (pool : Mempool)
    → IsPool pool
    → get op pool.spent_outpoints ≡ some id
    → get op (remove id pool).1.spent_outpoints ≡ none
unfolding remove take_out
remove-frees id op pool is held =
    let (entry, found, spends) = is.reserved op id held in
    let gone = get-release op entry.tx.inputs pool.spent_outpoints in
    rw (remove, found) (rw spends at gone)

remove-gone : (id : Hash256) (pool : Mempool) → get id (remove id pool).1.by_txid ≡ none
unfolding remove take_out
remove-gone id pool = elim (Option-cases (get id pool.by_txid)) [
  | inl absent ↦ rw (remove, absent) absent
  | inr (entry, found) ↦ rw (remove, found) (get-delete id pool.by_txid)
]

abbrev Listed : Hash256 → List Hash256 → Type 0
Listed id [] = ⊥
Listed id (j ∷ js) = (id ≡ j) ⊎ Listed id js

-- The outpoints that the transactions of a block name.
unfoldable pub named : List Transaction → List OutPoint
named [] = []
named (tx ∷ txs) = outpoints tx.inputs ++ named txs

module _ (blake3 : Blake3) where
  confirm-named :
      (txs : List Transaction) (pool : Mempool) → (confirm blake3 txs pool).1 ≡ named txs
  unfolding confirm named
  confirm-named [] pool = refl
  confirm-named (tx ∷ txs) pool = rw (confirm-named txs (remove (txid blake3 tx) pool).1) refl

  remove_all-Shrinks :
      (ids : List Hash256) (pool : Mempool) → Shrinks pool (remove_all blake3 ids pool)
  unfolding remove_all
  remove_all-Shrinks [] pool = Shrinks-refl pool
  remove_all-Shrinks (id ∷ ids) pool =
      Shrinks-trans (remove-Shrinks id pool) (remove_all-Shrinks ids (remove id pool).1)

  confirm-Shrinks :
      (txs : List Transaction) (pool : Mempool) → Shrinks pool (confirm blake3 txs pool).0
  unfolding confirm
  confirm-Shrinks [] pool = Shrinks-refl pool
  confirm-Shrinks (tx ∷ txs) pool =
      Shrinks-trans (remove-Shrinks (txid blake3 tx) pool)
        (confirm-Shrinks txs (remove (txid blake3 tx) pool).1)

  abbrev pub AllOut : Mempool → List Transaction → Type 0
  AllOut pool [] = Unit
  AllOut pool (tx ∷ txs) = (get (txid blake3 tx) pool.by_txid ≡ none) × AllOut pool txs

  stay_out :
      {before after : Mempool} (txs : List Transaction)
      → Shrinks before after
      → AllOut before txs
      → AllOut after txs
  stay_out [] s h = tt
  stay_out (tx ∷ txs) s h = (stays_out (txid blake3 tx) s h.0, stay_out txs s h.1)

  confirm-AllOut :
      (txs : List Transaction) (pool : Mempool) → AllOut (confirm blake3 txs pool).0 txs
  unfolding confirm
  confirm-AllOut [] pool = tt
  confirm-AllOut (tx ∷ txs) pool =
      let removed = (remove (txid blake3 tx) pool).1 in
      (
        stays_out (txid blake3 tx) (confirm-Shrinks txs removed)
            (remove-gone (txid blake3 tx) pool),
        confirm-AllOut txs removed,
      )

  conflicts-Listed :
      (reserved : Map OutPoint Hash256) (ops : List OutPoint) (op : OutPoint) (id : Hash256)
      → contains op ops ≡ true
      → get op reserved ≡ some id
      → Listed id (conflicts blake3 reserved ops)
  unfolding conflicts contains
  conflicts-Listed reserved [] op id h held = cc
  conflicts-Listed reserved (p ∷ ps) op id h held = elim (Bool-cases (outpoint_eq op p)) [
    | inl same ↦
        let here : get p reserved ≡ some id = rw ((outpoint_key.beq_iff op p).0 same) at held in
        rw (conflicts, here) (inl refl)
    | inr other ↦
        let later = conflicts-Listed reserved ps op id (rw other at h) held in
        elim (Option-cases (get p reserved)) [
          | inl free ↦ rw (conflicts, free) later
          | inr (j, taken) ↦ rw (conflicts, taken) (inr later)
        ]
  ]

  remove_all-frees :
      (ids : List Hash256) (pool : Mempool) (op : OutPoint)
      → IsPool pool
      → ((id : Hash256) → get op pool.spent_outpoints ≡ some id → Listed id ids)
      → get op (remove_all blake3 ids pool).spent_outpoints ≡ none
  unfolding remove_all
  remove_all-frees [] pool op is listed = none_of (get op pool.spent_outpoints) listed
  remove_all-frees (j ∷ js) pool op is listed =
      let removed = (remove j pool).1 in
      let shrinks = remove-Shrinks j pool in
      remove_all-frees js removed op (remove-IsPool j pool is) (λ id h.
        elim (listed id (shrinks.held op id h)) [
          | inl here ↦
              let held : get op pool.spent_outpoints ≡ some j =
                shrinks.held op id h ∙ ap some here in
              let freed = remove-frees j op pool is held in cc
          | inr there ↦ there
        ])

  -- After a block is committed to a pool whose indexes agree, the pool holds none of the block's
  -- transactions, by id, and no transaction that spends an outpoint that the block names.
  pub process_committed_block-clears :
      (block : Block) (pool : Mempool)
      → IsPool pool
      → AllOut (process_committed_block blake3 block pool) block.transactions
        × ((op : OutPoint) (id : Hash256)
            → contains op (named block.transactions) ≡ true
            → ¬ Spends (process_committed_block blake3 block pool) id op)
  unfolding process_committed_block
  process_committed_block-clears block pool is =
      let txs = block.transactions in
      let confirmed = confirm blake3 txs pool in
      let ids = conflicts blake3 confirmed.0.spent_outpoints confirmed.1 in
      let is' = confirm-IsPool blake3 txs pool is in
      (
        stay_out txs (remove_all-Shrinks ids confirmed.0) (confirm-AllOut txs pool),
        (λ op id inside spends.
            let inside' : contains op confirmed.1 ≡ true = rw (confirm-named txs pool) inside in
            let free = remove_all-frees ids confirmed.0 op is' (λ j held.
              conflicts-Listed confirmed.0.spent_outpoints confirmed.1 op j inside' held) in
            let final = remove_all-IsPool blake3 ids confirmed.0 is' in
            let held = final.owned op id spends in cc),
      )
