-- ===== src/Map.antt =====
-- Finite maps as lists of entries: what `HashMap` does on one key. The source
-- reads them by key only, so their order does not matter.
pub mod Laws
use aurion.Prelude.{
  ℕ, List, [], ◌∷◌, Bool, true, false, Option, none, some, ◌≡◌, ◌↔◌, ◌==◌, ==_iff, if◌then◌else◌,
}
use aurion.Bytes.{Bytes, bytes_eq}
use aurion.Bytes.Laws.{bytes_eq_iff}
use aurion.Primitives.Hash.{Hash256, hash_eq, hash_eq_iff}

-- A type whose `==` decides equality.
pub record Eq (A : Type 0) : Type 0 where
  pub beq : A → A → Bool
  pub beq_iff : (a b : A) → (beq a b ≡ true) ↔ (a ≡ b)

instance abbrev pub hash_key : Eq Hash256
hash_key = record { beq = hash_eq; beq_iff = hash_eq_iff }

instance abbrev pub bytes_key : Eq Bytes
bytes_key = record { beq = bytes_eq; beq_iff = bytes_eq_iff }

instance abbrev pub nat_key : Eq ℕ
nat_key = record { beq = ◌==◌; beq_iff = ==_iff }

abbrev pub Map : Type 0 → Type 0 → Type 0
Map K V = List (K × V)

module _ {K V : Type 0} ⦃e : Eq K⦄ where
  unfoldable pub get : K → Map K V → Option V
  get k [] = none
  get k (entry ∷ m) = if e.beq k entry.0 then some entry.1 else get k m

  unfoldable pub delete : K → Map K V → Map K V
  delete k [] = []
  delete k (entry ∷ m) = if e.beq k entry.0 then delete k m else entry ∷ delete k m

  unfoldable pub put : K → V → Map K V → Map K V
  unfolding delete
  put k v m = (k, v) ∷ delete k m

  unfoldable pub contains_key : K → Map K V → Bool
  unfolding get
  contains_key k m = elim (get k m) [ none ↦ false | some _ ↦ true ]
