-- ===== src/Node/Mempool/Store/Pool.antt =====
-- The invariant of the pool, and the two changes that keep it: an entry is taken out, and a new one
-- is registered (crates/aurion-node/src/mempool/mod.rs).
use aurion.Prelude.{
  ◌+◌, ◌^◌, ◌<◌, ◌≡◌, ◌⊎◌, inl, inr, refl, sym, ap, ◌∙◌, List, [], ◌∷◌, Bool, true, false,
  Bool-cases, Option, none, some, arith, if◌then◌else◌,
}
use aurion.Map.{Map, get, put, delete, hash_key}
use aurion.Map.Laws.{
  get-delete, get-delete_other, get-put, get-put_other, IsMap, total, delete-IsMap, put-IsMap,
  total-delete, delete_absent, beq_other, get-delete-some, some-injective,
}
use aurion.Primitives.Hash.{Hash256, hash_eq}
use aurion.Core.OutPoint.{OutPoint, outpoint_eq}
use aurion.Core.OutPoint.Key.{outpoint_key}
use aurion.Core.Tx.{TxInput}
use aurion.Node.Invariants.{contains, outpoints}
use aurion.Node.Mempool.FeeRate.{FeeRateIndex}
use aurion.Node.Mempool.Store.{
  MempoolEntry, Mempool, index_of, release, reserve, take_out, register, saturating_total,
}
use aurion.Node.Mempool.Store.Rates.{
  In, IsRateSet, rate_insert-In, In-rate_insert_old, In-rate_insert_new, rate_insert-IsRateSet,
  rate_remove-In, In-rate_remove, rate_remove-IsRateSet, rate_remove_gone,
}

pub get-release :
    (op : OutPoint) (inputs : List TxInput) (m : Map OutPoint Hash256)
    → get op (release inputs m) ≡ (if contains op (outpoints inputs) then none else get op m)
unfolding release contains outpoints
get-release op [] m = refl
get-release op (i ∷ is) m = elim (Bool-cases (outpoint_eq op i.previous_output)) [
  | inl same ↦
      let here = (outpoint_key.beq_iff op i.previous_output).0 same in
      let gone : get op (delete i.previous_output m) ≡ none =
        rw here (get-delete i.previous_output m) in
      rw (get-release op is (delete i.previous_output m), same, gone)
        (either (contains op (outpoints is)))
  | inr other ↦
      let kept = get-delete_other op i.previous_output m other in
      rw (get-release op is (delete i.previous_output m), other, kept) refl
]
  where
    either : (b : Bool) → ◌≡◌ {A = Option Hash256} (if b then none else none) none
    either true = refl
    either false = refl

pub get-reserve :
    (op : OutPoint) (id : Hash256) (inputs : List TxInput) (m : Map OutPoint Hash256)
    → get op (reserve id inputs m) ≡ (if contains op (outpoints inputs) then some id else get op m)
unfolding reserve contains outpoints
get-reserve op id [] m = refl
get-reserve op id (i ∷ is) m = elim (Bool-cases (outpoint_eq op i.previous_output)) [
  | inl same ↦
      let here = (outpoint_key.beq_iff op i.previous_output).0 same in
      let set : get op (put i.previous_output id m) ≡ some id =
        rw here (get-put i.previous_output id m) in
      rw (get-reserve op id is (put i.previous_output id m), same, set)
        (either (contains op (outpoints is)))
  | inr other ↦
      let kept = get-put_other op i.previous_output id m other in
      rw (get-reserve op id is (put i.previous_output id m), other, kept) refl
]
  where
    either : (b : Bool) → (if b then some id else some id) ≡ some id
    either true = refl
    either false = refl

-- The entry of `id` spends `op`.
abbrev pub Spends : Mempool → Hash256 → OutPoint → Type 0
Spends pool id op =
    (entry : MempoolEntry) × (get id pool.by_txid ≡ some entry)
    × (contains op (outpoints entry.tx.inputs) ≡ true)

-- The indexes agree: an outpoint is reserved by a transaction exactly if the pool holds that
-- transaction and it spends the outpoint; the fee rates are those of the entries; and the count of
-- bytes is the sum of their sizes.
pub record IsPool (pool : Mempool) : Type 0 where
  pub entries : IsMap pool.by_txid
  pub bytes : pool.total_bytes ≡ total (λ (e : MempoolEntry). e.size_bytes) pool.by_txid
  pub keyed :
      (id : Hash256) (entry : MempoolEntry) → get id pool.by_txid ≡ some entry → entry.txid ≡ id
  pub reserved :
      (op : OutPoint) (id : Hash256) → get op pool.spent_outpoints ≡ some id → Spends pool id op
  pub owned :
      (op : OutPoint) (id : Hash256) → Spends pool id op → get op pool.spent_outpoints ≡ some id
  pub rated :
      (id : Hash256) (entry : MempoolEntry)
      → get id pool.by_txid ≡ some entry
      → In (index_of entry) pool.by_fee_rate
  pub rates :
      (i : FeeRateIndex)
      → In i pool.by_fee_rate
      → (entry : MempoolEntry) × (get i.txid pool.by_txid ≡ some entry) × (index_of entry ≡ i)
  pub rate_set : IsRateSet pool.by_fee_rate

-- What is reserved after a release, and what was reserved.
pub released :
    (op : OutPoint) (inputs : List TxInput) (m : Map OutPoint Hash256) {id : Hash256}
    → get op (release inputs m) ≡ some id
    → (contains op (outpoints inputs) ≡ false) × (get op m ≡ some id)
released op inputs m h = elim (Bool-cases (contains op (outpoints inputs))) [
  | inl spent ↦ let gone = get-release op inputs m in let gone' = (rw spent at gone) in cc
  | inr free ↦
      let kept = get-release op inputs m in let kept' = (rw free at kept) in (free, sym kept' ∙ h)
]

module _ (id : Hash256) (entry : MempoolEntry) (pool : Mempool) (is : IsPool pool)
    (found : get id pool.by_txid ≡ some entry) where
  -- An outpoint of another entry is not one of this entry's.
  apart :
      (op : OutPoint) (j : Hash256)
      → ¬ (j ≡ id)
      → get op pool.spent_outpoints ≡ some j
      → contains op (outpoints entry.tx.inputs) ≡ false
  apart op j other held = elim (Bool-cases (contains op (outpoints entry.tx.inputs))) [
    | inl spent ↦
        let mine = is.owned op id (entry, found, spent) in
        absurd (other (some-injective (sym held ∙ mine)))
    | inr free ↦ free
  ]

  pub take_out-IsPool : IsPool (take_out id entry pool)
  unfolding take_out
  take_out-IsPool = record {
    entries = delete-IsMap id pool.by_txid is.entries;
    bytes =
        (let sum =
            total-delete (λ (e : MempoolEntry). e.size_bytes) id entry pool.by_txid is.entries
              found in
          let all = is.bytes in omega (arith, sum, all));
    keyed = λ j f h. is.keyed j f (get-delete-some j id pool.by_txid h).1;
    reserved = λ op j h.
        let (free, held) = released op entry.tx.inputs pool.spent_outpoints h in
        let (f, at, spends) = is.reserved op j held in
        let other : ¬ (j ≡ id) = (λ same.
          let here : some f ≡ some entry = sym at ∙ ap (λ k. get k pool.by_txid) same ∙ found in
          let same_entry = some-injective here in let spent = (rw same_entry at spends) in cc) in
        (f, get-delete_other j id pool.by_txid (beq_other j id other) ∙ at, spends);
    owned = λ op j h.
        let (other, at) = get-delete-some j id pool.by_txid h.1 in
        let held = is.owned op j (h.0, at, h.2) in
        let free = apart op j other held in
        let kept = get-release op entry.tx.inputs pool.spent_outpoints in (rw free at kept) ∙ held;
    rated = λ j f h.
        let (other, at) = get-delete-some j id pool.by_txid h in
        In-rate_remove (index_of entry) (index_of f) pool.by_fee_rate (is.rated j f at)
          (λ same. other (sym (is.keyed j f at) ∙ same ∙ is.keyed id entry found));
    rates = λ i h.
        let (f, at, index) = is.rates i (rate_remove-In (index_of entry) i pool.by_fee_rate h) in
        let other =
          rate_remove_gone (index_of entry) i pool.by_fee_rate is.rate_set (is.rated id entry found)
            h in
        let away = beq_other i.txid id (λ same. other (same ∙ sym (is.keyed id entry found))) in
        (f, get-delete_other i.txid id pool.by_txid away ∙ at, index);
    rate_set = rate_remove-IsRateSet (index_of entry) pool.by_fee_rate is.rate_set;
  }

  -- What is not in the pool, and what is not reserved, stays so when an entry is taken out.
  pub take_out-absent :
      (j : Hash256) → get j pool.by_txid ≡ none → get j (take_out id entry pool).by_txid ≡ none
  unfolding take_out
  take_out-absent j h = elim (Bool-cases (hash_eq j id)) [
    | inl same ↦ let here = (hash_key.beq_iff j id).0 same in rw here (get-delete id pool.by_txid)
    | inr other ↦ get-delete_other j id pool.by_txid other ∙ h
  ]

  pub take_out-free :
      (op : OutPoint)
      → get op pool.spent_outpoints ≡ none
      → get op (take_out id entry pool).spent_outpoints ≡ none
  unfolding take_out
  take_out-free op h = elim (Bool-cases (contains op (outpoints entry.tx.inputs))) [
    | inl spent ↦
        let gone = get-release op entry.tx.inputs pool.spent_outpoints in (rw spent at gone)
    | inr free ↦
        let kept = get-release op entry.tx.inputs pool.spent_outpoints in (rw free at kept) ∙ h
  ]

module _ (entry : MempoolEntry) (pool : Mempool) (is : IsPool pool)
    (new : get entry.txid pool.by_txid ≡ none)
    (free : (op : OutPoint)
      → contains op (outpoints entry.tx.inputs) ≡ true
      → get op pool.spent_outpoints ≡ none)
    (fits : pool.total_bytes + entry.size_bytes < 2 ^ 64) where
  -- An entry that is in the pool has another id.
  old : (j : Hash256) (f : MempoolEntry) → get j pool.by_txid ≡ some f → ¬ (j ≡ entry.txid)
  old j f at same = let here = (rw same at at) in cc

  fresh : (i : FeeRateIndex) → In i pool.by_fee_rate → ¬ (i.txid ≡ entry.txid)
  fresh i h = let (f, at, index) = is.rates i h in old i.txid f at

  -- What the pool holds under an id after the registration.
  get-registered :
      (j : Hash256) (f : MempoolEntry)
      → get j (put entry.txid entry pool.by_txid) ≡ some f
      → ((j ≡ entry.txid) × (f ≡ entry)) ⊎ ((¬ (j ≡ entry.txid)) × (get j pool.by_txid ≡ some f))
  get-registered j f h = elim (Bool-cases (hash_eq j entry.txid)) [
    | inl same ↦
        let here = (hash_key.beq_iff j entry.txid).0 same in
        let set = get-put entry.txid entry pool.by_txid in
        let h' : get entry.txid (put entry.txid entry pool.by_txid) ≡ some f = rw here at h in
        inl (here, some-injective (sym h' ∙ set))
    | inr other ↦ inr (
      (λ same. let beq = (hash_key.beq_iff j entry.txid).1 same in cc),
      sym (get-put_other j entry.txid entry pool.by_txid other) ∙ h,
    )
  ]

  kept :
      (j : Hash256) (f : MempoolEntry)
      → get j pool.by_txid ≡ some f
      → get j (put entry.txid entry pool.by_txid) ≡ some f
  kept j f at =
      get-put_other j entry.txid entry pool.by_txid (beq_other j entry.txid (old j f at)) ∙ at

  -- What is reserved after the registration.
  get-reserved :
      (op : OutPoint) (j : Hash256)
      → get op (reserve entry.txid entry.tx.inputs pool.spent_outpoints) ≡ some j
      → ((contains op (outpoints entry.tx.inputs) ≡ true) × (j ≡ entry.txid))
        ⊎ ((contains op (outpoints entry.tx.inputs) ≡ false)
            × (get op pool.spent_outpoints ≡ some j))
  get-reserved op j h = elim (Bool-cases (contains op (outpoints entry.tx.inputs))) [
    | inl mine ↦
        let set = (rw mine at (get-reserve op entry.txid entry.tx.inputs pool.spent_outpoints)) in
        inl (mine, some-injective (sym h ∙ set))
    | inr others ↦
        let same =
          (rw others at (get-reserve op entry.txid entry.tx.inputs pool.spent_outpoints)) in
        inr (others, sym same ∙ h)
  ]

  pub register-IsPool : IsPool (register entry pool)
  unfolding register saturating_total total put
  register-IsPool = record {
    entries = put-IsMap entry.txid entry pool.by_txid is.entries;
    bytes =
        (let all = is.bytes in
          let same = delete_absent entry.txid pool.by_txid new in rw same (ground arith));
    keyed = λ j f h. elim (get-registered j f h) [
      | inl (here, this) ↦ rw (this, here) refl
      | inr (other, at) ↦ is.keyed j f at
    ];
    reserved = λ op j h. elim (get-reserved op j h) [
      | inl (mine, here) ↦ (entry, (rw here (get-put entry.txid entry pool.by_txid)), mine)
      | inr (others, held) ↦ let (f, at, spends) = is.reserved op j held in (f, kept j f at, spends)
    ];
    owned = λ op j h. elim (get-registered j h.0 h.1) [
      | inl (here, this) ↦
          let mine = (rw this at h.2) in
          let set = (rw mine at (get-reserve op entry.txid entry.tx.inputs pool.spent_outpoints)) in
          set ∙ ap some (sym here)
      | inr (other, at) ↦
          let held = is.owned op j (h.0, at, h.2) in
          elim (Bool-cases (contains op (outpoints entry.tx.inputs))) [
            | inl mine ↦ let none_held = free op mine in cc
            | inr others ↦
                let same =
                  (rw others at (get-reserve op entry.txid entry.tx.inputs pool.spent_outpoints)) in
                same ∙ held
          ]
    ];
    rated = λ j f h. elim (get-registered j f h) [
      | inl (here, this) ↦ rw this (In-rate_insert_new (index_of entry) pool.by_fee_rate fresh)
      | inr (other, at) ↦
          In-rate_insert_old (index_of entry) (index_of f) pool.by_fee_rate (is.rated j f at)
    ];
    rates = λ i h. elim (rate_insert-In (index_of entry) i pool.by_fee_rate h) [
      | inl this ↦ (entry, (rw this (get-put entry.txid entry pool.by_txid)), sym this)
      | inr old_one ↦ let (f, at, index) = is.rates i old_one in (f, kept i.txid f at, index)
    ];
    rate_set = rate_insert-IsRateSet (index_of entry) pool.by_fee_rate fresh is.rate_set;
  }
