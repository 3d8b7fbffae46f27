-- ===== src/Map/Laws.antt =====
-- What is read from a map after an update, and the sum of a measure over its values.
use aurion.Prelude.{
  ℕ, ◌+◌, ◌≡◌, refl, sym, ◌∙◌, [], ◌∷◌, true, false, none, some, Bool-cases, inl, inr, arith,
}
use aurion.Map.{Eq, Map, get, delete, put}

pub some-injective : {A : Type 0} {a b : A} → some a ≡ some b → a ≡ b
some-injective h = cc

pub beq_refl : {K : Type 0} ⦃e : Eq K⦄ (k : K) → e.beq k k ≡ true
beq_refl ⦃e⦄ k = (e.beq_iff k k).1 refl

pub beq_other : {K : Type 0} ⦃e : Eq K⦄ (j k : K) → ¬ (j ≡ k) → e.beq j k ≡ false
beq_other ⦃e⦄ j k h = elim (Bool-cases (e.beq j k)) [
  | inl same ↦ absurd (h ((e.beq_iff j k).0 same))
  | inr other ↦ other
]

module _ {K V : Type 0} ⦃e : Eq K⦄ where
  pub get-delete : (k : K) (m : Map K V) → get k (delete k m) ≡ none
  unfolding get delete
  get-delete k [] = refl
  get-delete k (entry ∷ m) = elim (Bool-cases (e.beq k entry.0)) [
    | inl same ↦ rw same (get-delete k m)
    | inr other ↦ rw (other, get, other) (get-delete k m)
  ]

  pub get-delete_other : (j k : K) (m : Map K V) → e.beq j k ≡ false → get j (delete k m) ≡ get j m
  unfolding get delete
  get-delete_other j k [] h = refl
  get-delete_other j k (entry ∷ m) h = elim (Bool-cases (e.beq k entry.0)) [
    | inl same ↦
        let here = (e.beq_iff k entry.0).0 same in
        let there : e.beq j entry.0 ≡ false = rw (← here) h in
        rw (same, there) (get-delete_other j k m h)
    | inr other ↦ elim (Bool-cases (e.beq j entry.0)) [
      | inl found ↦ rw (other, found) refl
      | inr missed ↦ rw (other, missed) (get-delete_other j k m h)
    ]
  ]

  pub get-put : (k : K) (v : V) (m : Map K V) → get k (put k v m) ≡ some v
  unfolding get put
  get-put k v m = rw (beq_refl k) refl

  pub get-put_other :
      (j k : K) (v : V) (m : Map K V) → e.beq j k ≡ false → get j (put k v m) ≡ get j m
  unfolding get put
  get-put_other j k v m h = rw h (get-delete_other j k m h)

  -- What is left after a deletion was there before, under another key.
  pub get-delete-some :
      (j k : K) (m : Map K V) {v : V}
      → get j (delete k m) ≡ some v
      → (¬ (j ≡ k)) × (get j m ≡ some v)
  get-delete-some j k m h = elim (Bool-cases (e.beq j k)) [
    | inl same ↦
        let gone = get-delete k m in
        let here = (e.beq_iff j k).0 same in let lost = (rw here at h) in cc
    | inr other ↦ (
      (λ same. let yes_same = (e.beq_iff j k).1 same in cc),
      sym (get-delete_other j k m other) ∙ h,
    )
  ]

  -- No key stands twice.
  abbrev pub IsMap : Map K V → Type 0
  IsMap [] = Unit
  IsMap (entry ∷ m) = (get entry.0 m ≡ none) × IsMap m

  -- The sum of a measure over the values.
  unfoldable pub total : (V → ℕ) → Map K V → ℕ
  total f [] = 0
  total f (entry ∷ m) = f entry.1 + total f m

  none_delete : (j k : K) (m : Map K V) → get j m ≡ none → get j (delete k m) ≡ none
  none_delete j k m h = elim (Bool-cases (e.beq j k)) [
    | inl same ↦ rw ((e.beq_iff j k).0 same) (get-delete k m)
    | inr other ↦ get-delete_other j k m other ∙ h
  ]

  pub delete-IsMap : (k : K) (m : Map K V) → IsMap m → IsMap (delete k m)
  unfolding delete
  delete-IsMap k [] h = tt
  delete-IsMap k (entry ∷ m) h = elim (Bool-cases (e.beq k entry.0)) [
    | inl same ↦ rw same (delete-IsMap k m h.1)
    | inr other ↦ rw other (none_delete entry.0 k m h.0, delete-IsMap k m h.1)
  ]

  pub put-IsMap : (k : K) (v : V) (m : Map K V) → IsMap m → IsMap (put k v m)
  unfolding put
  put-IsMap k v m h = (get-delete k m, delete-IsMap k m h)

  pub delete_absent : (k : K) (m : Map K V) → get k m ≡ none → delete k m ≡ m
  unfolding get delete
  delete_absent k [] h = refl
  delete_absent k (entry ∷ m) h = elim (Bool-cases (e.beq k entry.0)) [
    | inl same ↦ let found = (rw same at h) in cc
    | inr other ↦ let rest = (rw other at h) in rw (other, delete_absent k m rest) refl
  ]

  pub total-delete :
      (f : V → ℕ) (k : K) (v : V) (m : Map K V)
      → IsMap m
      → get k m ≡ some v
      → total f (delete k m) + f v ≡ total f m
  unfolding get delete total
  total-delete f k v [] h found = cc
  total-delete f k v (entry ∷ m) h found = elim (Bool-cases (e.beq k entry.0)) [
    | inl same ↦
        let here : some entry.1 ≡ some v = (rw same at found) in
        let value : entry.1 ≡ v = cc in
        let absent : get k m ≡ none = rw ((e.beq_iff k entry.0).0 same) h.0 in
        rw (same, delete_absent k m absent, value) (omega arith)
    | inr other ↦
        let rest = (rw other at found) in
        rw (other, total) (let ih = total-delete f k v m h.1 rest in omega arith)
  ]
