-- ===== src/Node/Mempool/Store/Rates.antt =====
-- The set of fee rates: what is in it after an insertion and a removal
-- (crates/aurion-node/src/mempool/mod.rs, by the order of fee_rate.rs).
use aurion.Prelude.{◌≡◌, ◌⊎◌, inl, inr, refl, sym, ap, ◌∙◌, List, [], ◌∷◌, false, Bool-cases, arith}
use aurion.Bytes.{Bytes, bytes_eq, bytes_lt}
use aurion.Bytes.Laws.{bytes_eq_iff, bytes_eq_refl}
use aurion.Primitives.Hash.{from_bytes}
use aurion.Node.Mempool.FeeRate.{
  FeeRateIndex, Ordering, less, equal, greater, cmp, cmp_pair, cmp_bytes, wide_mul_u128,
}
use aurion.Node.Mempool.Store.{rate_insert, rate_remove}

cmp_bytes-equal : (a b : Bytes) → cmp_bytes a b ≡ equal → a ≡ b
unfolding cmp_bytes
cmp_bytes-equal a b h = elim (Bool-cases (bytes_lt a b)) [
  | inl lt ↦ let no_order = (rw lt at h) in cc
  | inr ge ↦ elim (Bool-cases (bytes_eq a b)) [
    | inl same ↦ (bytes_eq_iff a b).0 same
    | inr other ↦ let no_order = (rw (ge, other) at h) in cc
  ]
]

bytes_lt_irrefl : (a : Bytes) → bytes_lt a a ≡ false
unfolding bytes_lt
bytes_lt_irrefl [] = refl
bytes_lt_irrefl (x ∷ xs) = ground (arith, bytes_lt_irrefl xs)

-- Only transactions of one id compare as equal.
pub cmp-equal : (i j : FeeRateIndex) → cmp i j ≡ equal → i.txid ≡ j.txid
unfolding cmp
cmp-equal i j h =
    go (cmp_pair (wide_mul_u128 i.fee j.size_bytes) (wide_mul_u128 j.fee i.size_bytes)) h
  where
    go :
        (o : Ordering)
        → (elim o [
          | equal ↦ cmp_bytes i.txid.as_bytes j.txid.as_bytes
          | less ↦ less
          | greater ↦ greater
        ])
          ≡ equal
        → i.txid ≡ j.txid
    go less e = cc
    go greater e = cc
    go equal e = ap from_bytes (cmp_bytes-equal i.txid.as_bytes j.txid.as_bytes e)

pub cmp_refl : (i : FeeRateIndex) → cmp i i ≡ equal
unfolding cmp cmp_pair cmp_bytes
cmp_refl i =
    let p = wide_mul_u128 i.fee i.size_bytes in
    let pair : cmp_pair p p ≡ equal = ground arith in
    rw (cmp, pair, bytes_lt_irrefl i.txid.as_bytes, bytes_eq_refl i.txid.as_bytes) refl

abbrev pub In : FeeRateIndex → List FeeRateIndex → Type 0
In i [] = ⊥
In i (j ∷ js) = (i ≡ j) ⊎ In i js

-- No id stands twice.
abbrev pub IsRateSet : List FeeRateIndex → Type 0
IsRateSet [] = Unit
IsRateSet (j ∷ js) = ((k : FeeRateIndex) → In k js → ¬ (k.txid ≡ j.txid)) × IsRateSet js

cmp-cases : (o : Ordering) → (o ≡ less) ⊎ ((o ≡ equal) ⊎ (o ≡ greater))
cmp-cases less = inl refl
cmp-cases equal = inr (inl refl)
cmp-cases greater = inr (inr refl)

module _ (i j : FeeRateIndex) (js : List FeeRateIndex) where
  insert-less : cmp i j ≡ less → rate_insert i (j ∷ js) ≡ i ∷ j ∷ js
  unfolding rate_insert
  insert-less h = rw (rate_insert, h) refl

  insert-equal : cmp i j ≡ equal → rate_insert i (j ∷ js) ≡ j ∷ js
  unfolding rate_insert
  insert-equal h = rw (rate_insert, h) refl

  insert-greater : cmp i j ≡ greater → rate_insert i (j ∷ js) ≡ j ∷ rate_insert i js
  unfolding rate_insert
  insert-greater h = rw (rate_insert, h) refl

  remove-equal : cmp i j ≡ equal → rate_remove i (j ∷ js) ≡ js
  unfolding rate_remove
  remove-equal h = rw (rate_remove, h) refl

  remove_other :
      (cmp i j ≡ less) ⊎ (cmp i j ≡ greater) → rate_remove i (j ∷ js) ≡ j ∷ rate_remove i js
  unfolding rate_remove
  remove_other (inl h) = rw (rate_remove, h) refl
  remove_other (inr h) = rw (rate_remove, h) refl

pub rate_insert-In :
    (i k : FeeRateIndex) (s : List FeeRateIndex) → In k (rate_insert i s) → (k ≡ i) ⊎ In k s
unfolding rate_insert
rate_insert-In i k [] h = h
rate_insert-In i k (j ∷ js) h = elim (cmp-cases (cmp i j)) [
  | inl lt ↦ rw (insert-less i j js lt) at h
  | inr (inl eq) ↦ inr (rw (insert-equal i j js eq) at h)
  | inr (inr gt) ↦ elim (rw (insert-greater i j js gt) at h) [
    | inl here ↦ inr (inl here)
    | inr there ↦ elim (rate_insert-In i k js there) [ inl new ↦ inl new | inr old ↦ inr (inr old) ]
  ]
]

pub In-rate_insert_old :
    (i k : FeeRateIndex) (s : List FeeRateIndex) → In k s → In k (rate_insert i s)
unfolding rate_insert
In-rate_insert_old i k [] h = absurd h
In-rate_insert_old i k (j ∷ js) h = elim (cmp-cases (cmp i j)) [
  | inl lt ↦ rw (insert-less i j js lt) (inr h)
  | inr (inl eq) ↦ rw (insert-equal i j js eq) h
  | inr (inr gt) ↦
      rw (insert-greater i j js gt)
        (elim h [ inl here ↦ inl here | inr there ↦ inr (In-rate_insert_old i k js there) ])
]

pub In-rate_insert_new :
    (i : FeeRateIndex) (s : List FeeRateIndex)
    → ((k : FeeRateIndex) → In k s → ¬ (k.txid ≡ i.txid))
    → In i (rate_insert i s)
unfolding rate_insert
In-rate_insert_new i [] fresh = inl refl
In-rate_insert_new i (j ∷ js) fresh = elim (cmp-cases (cmp i j)) [
  | inl lt ↦ rw (insert-less i j js lt) (inl refl)
  | inr (inl eq) ↦ absurd (fresh j (inl refl) (sym (cmp-equal i j eq)))
  | inr (inr gt) ↦
      rw (insert-greater i j js gt) (inr (In-rate_insert_new i js (λ k h. fresh k (inr h))))
]

pub rate_insert-IsRateSet :
    (i : FeeRateIndex) (s : List FeeRateIndex)
    → ((k : FeeRateIndex) → In k s → ¬ (k.txid ≡ i.txid))
    → IsRateSet s
    → IsRateSet (rate_insert i s)
unfolding rate_insert
rate_insert-IsRateSet i [] fresh set = ((λ k h. absurd h), tt)
rate_insert-IsRateSet i (j ∷ js) fresh set = elim (cmp-cases (cmp i j)) [
  | inl lt ↦ rw (insert-less i j js lt) (fresh, set)
  | inr (inl eq) ↦ rw (insert-equal i j js eq) set
  | inr (inr gt) ↦ rw (insert-greater i j js gt) (
    (λ k h. elim (rate_insert-In i k js h) [
      | inl new ↦ λ same. fresh j (inl refl) (sym (rw new at same))
      | inr old ↦ set.0 k old
    ]),
    rate_insert-IsRateSet i js (λ k h. fresh k (inr h)) set.1,
  )
]

not_itself : (i j : FeeRateIndex) → i ≡ j → ¬ ((cmp i j ≡ less) ⊎ (cmp i j ≡ greater))
not_itself i j same (inl lt) = let eq = cmp_refl i in let lt' = (rw (← same) at lt) in cc
not_itself i j same (inr gt) = let eq = cmp_refl i in let gt' = (rw (← same) at gt) in cc

cmp_decided : (i j : FeeRateIndex) → (cmp i j ≡ equal) ⊎ ((cmp i j ≡ less) ⊎ (cmp i j ≡ greater))
cmp_decided i j = elim (cmp-cases (cmp i j)) [
  | inl lt ↦ inr (inl lt)
  | inr (inl eq) ↦ inl eq
  | inr (inr gt) ↦ inr (inr gt)
]

pub rate_remove-In : (i k : FeeRateIndex) (s : List FeeRateIndex) → In k (rate_remove i s) → In k s
unfolding rate_remove
rate_remove-In i k [] h = h
rate_remove-In i k (j ∷ js) h = elim (cmp_decided i j) [
  | inl eq ↦ inr (rw (remove-equal i j js eq) at h)
  | inr ne ↦ elim (rw (remove_other i j js ne) at h) [
    | inl here ↦ inl here
    | inr there ↦ inr (rate_remove-In i k js there)
  ]
]

pub In-rate_remove :
    (i k : FeeRateIndex) (s : List FeeRateIndex)
    → In k s
    → ¬ (k.txid ≡ i.txid)
    → In k (rate_remove i s)
unfolding rate_remove
In-rate_remove i k [] h other = h
In-rate_remove i k (j ∷ js) h other = elim (cmp_decided i j) [
  | inl eq ↦ rw (remove-equal i j js eq) (elim h [
    | inl here ↦ absurd (other (ap (λ (x : FeeRateIndex). x.txid) here ∙ sym (cmp-equal i j eq)))
    | inr there ↦ there
  ])
  | inr ne ↦
      rw (remove_other i j js ne)
        (elim h [ inl here ↦ inl here | inr there ↦ inr (In-rate_remove i k js there other) ])
]

pub rate_remove-IsRateSet :
    (i : FeeRateIndex) (s : List FeeRateIndex) → IsRateSet s → IsRateSet (rate_remove i s)
unfolding rate_remove
rate_remove-IsRateSet i [] set = set
rate_remove-IsRateSet i (j ∷ js) set = elim (cmp_decided i j) [
  | inl eq ↦ rw (remove-equal i j js eq) set.1
  | inr ne ↦
      rw (remove_other i j js ne)
        ((λ k h. set.0 k (rate_remove-In i k js h)), rate_remove-IsRateSet i js set.1)
]

-- What is removed is gone, under any index of its id.
pub rate_remove_gone :
    (i k : FeeRateIndex) (s : List FeeRateIndex)
    → IsRateSet s
    → In i s
    → In k (rate_remove i s)
    → ¬ (k.txid ≡ i.txid)
unfolding rate_remove
rate_remove_gone i k [] set found h = absurd found
rate_remove_gone i k (j ∷ js) set found h = elim (cmp_decided i j) [
  | inl eq ↦
      let left : In k js = rw (remove-equal i j js eq) at h in
      λ same. set.0 k left (same ∙ cmp-equal i j eq)
  | inr ne ↦
      let later : In i js = elim found [
        | inl here ↦ absurd (not_itself i j here ne)
        | inr there ↦ there
      ] in
      elim (rw (remove_other i j js ne) at h) [
        | inl here ↦ λ same. set.0 i later (sym same ∙ ap (λ (x : FeeRateIndex). x.txid) here)
        | inr there ↦ rate_remove_gone i k js set.1 later there
      ]
]
