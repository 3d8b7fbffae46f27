-- ===== src/Result.antt =====
-- Rust's `Result<A, E>`: the `?` operator, `ok_or` and `map_err`.
use aurion.Prelude.{◌≡◌, ◌⊎◌, inl, inr, refl, Option, none, some, Bool, true, false}

pub data Result {ℓ} (E : Type 0) (A : Type ℓ) : Type ℓ where
  ok : A → Result E A
  err : E → Result E A

module _ {E : Type 0} where
  infixl 5 ◌>>=◌ ◌>>◌
  abbrev pub ◌>>=◌ {ℓ κ} : {A : Type ℓ} {B : Type κ} → Result E A → (A → Result E B) → Result E B
  ok a >>= f = f a
  err e >>= f = err e

  abbrev pub ◌>>◌ {ℓ} : {B : Type ℓ} → Result E (Unit {0}) → Result E B → Result E B
  m >> k = m >>= λ _. k

  -- `if !condition { return Err(e); }`
  abbrev pub guard : Bool → E → Result E (Unit {0})
  guard true e = ok tt
  guard false e = err e

  abbrev pub ok_or {ℓ} : {A : Type ℓ} → Option A → E → Result E A
  ok_or none e = err e
  ok_or (some a) e = ok a

abbrev pub map_err {ℓ} : {E F : Type 0} {A : Type ℓ} → (E → F) → Result E A → Result F A
map_err f (ok a) = ok a
map_err f (err e) = err (f e)

pub result_cases :
    {E A : Type 0} (r : Result E A) → ((a : A) × (r ≡ ok a)) ⊎ ((e : E) × (r ≡ err e))
result_cases (ok a) = inl (a, refl)
result_cases (err e) = inr (e, refl)

pub >>=_assoc {ℓ κ μ} :
    {E : Type 0} {A : Type ℓ} {B : Type κ} {C : Type μ} (m : Result E A) (f : A → Result E B)
    (g : B → Result E C)
    → ((m >>= f) >>= g) ≡ (m >>= λ a. f a >>= g)
>>=_assoc (ok a) f g = refl
>>=_assoc (err e) f g = refl

-- Inversion of a chain that succeeds.
module _ {ℓ κ} {E : Type 0} {A : Type ℓ} {B : Type κ} where
  pub >>=-eq-ok :
      (m : Result E A) (next : A → Result E B) {result : B}
      → (m >>= next) ≡ ok result
      → (value : A) × (m ≡ ok value) × (next value ≡ ok result)
  >>=-eq-ok (err e) next chain = cc
  >>=-eq-ok (ok value) next chain = (value, refl, chain)

-- `P` holds of a value, if there is one.
pub data Ensures {ℓ} {E : Type 0} {A : Type ℓ} (P : A → Type 0) : Result E A → Type ℓ where
  returns : {a : A} → P a → Ensures P (ok a)
  raises : {e : E} → Ensures P (err e)

module _ {ℓ κ} {E : Type 0} {A : Type ℓ} {B : Type κ} where
  pub Ensures-bind :
      {P : A → Type 0} {Q : B → Type 0} {r : Result E A} {f : A → Result E B}
      → Ensures P r
      → ((a : A) → P a → Ensures Q (f a))
      → Ensures Q (r >>= f)
  Ensures-bind (returns h) k = k _ h
  Ensures-bind raises k = raises

pub Ensures-any {ℓ} : {E : Type 0} {A : Type ℓ} (r : Result E A) → Ensures (λ _. Unit) r
Ensures-any (ok a) = returns tt
Ensures-any (err e) = raises

pub Ensures-ok {ℓ} :
    {E : Type 0} {A : Type ℓ} {P : A → Type 0} {a : A} → Ensures {E = E} P (ok a) → P a
Ensures-ok (returns h) = h

-- A value is what was computed.
pub Ensures-self : {E A : Type 0} (r : Result E A) → Ensures (λ a. r ≡ ok a) r
Ensures-self (ok a) = returns refl
Ensures-self (err e) = raises

pub Ensures-guard : {E : Type 0} (b : Bool) (e : E) → Ensures (λ _. b ≡ true) (guard b e)
Ensures-guard true e = returns refl
Ensures-guard false e = raises

pub Ensures-ok_or : {E A : Type 0} (o : Option A) (e : E) → Ensures (λ a. o ≡ some a) (ok_or o e)
Ensures-ok_or none e = raises
Ensures-ok_or (some a) e = returns refl

pub Ensures-map_err :
    {E F A : Type 0} {P : A → Type 0} (f : E → F) (r : Result E A)
    → Ensures P r
    → Ensures P (map_err f r)
Ensures-map_err f _ (returns h) = returns h
Ensures-map_err f _ raises = raises

pub Ensures-value :
    {E A : Type 0} {P : A → Type 0} {a : A} (r : Result E A) → Ensures P r → r ≡ ok a → P a
Ensures-value r h e = Ensures-ok (rw e at h)

pub Ensures-weaken :
    {E A : Type 0} {P Q : A → Type 0} (r : Result E A)
    → Ensures P r
    → ((a : A) → P a → Q a)
    → Ensures Q r
Ensures-weaken _ (returns h) k = returns (k _ h)
Ensures-weaken _ raises k = raises
