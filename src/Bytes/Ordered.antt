-- ===== src/Bytes/Ordered.antt =====
-- Big-endian bytes digit by digit: the order of arrays is that of the numbers that they spell, and
-- a byte that is written over a zero adds its place value.
use mathlib.Core.List.{reverse-cons}
use native.Mathlib.Nat.{pow-suc}
use aurion.Prelude.{
  ℕ, zero, suc, ◌+◌, ◌-◌, ◌*◌, ◌^◌, ◌<◌, ◌≡◌, ◌↔◌, refl, [], ◌∷◌, ◌++◌, length, length-reverse,
  get_elem?, set, length-set, some, true, Bool, Bool-cases, inl, inr, arith, ◌==◌, ==_iff, ltb,
  if◌then◌else◌, replicate,
}
use aurion.Bytes.{Bytes, IsBytes, from_le, from_be, bytes_lt}
use aurion.Bytes.Laws.{from_be_bound}

from_le-append_one :
    (xs : Bytes) (b : ℕ) → from_le (xs ++ b ∷ []) ≡ from_le xs + 256 ^ length xs * b
unfolding from_le
from_le-append_one [] b = omega arith
from_le-append_one (x ∷ xs) b = rw pow-suc (omega (arith, from_le-append_one xs b))

pub from_be-cons : (b : ℕ) (bs : Bytes) → from_be (b ∷ bs) ≡ b * 256 ^ length bs + from_be bs
unfolding from_be
from_be-cons b bs = rw (reverse-cons, from_le-append_one, length-reverse) (omega arith)

-- A greater leading digit outweighs all that follows.
leading_digit : (x y a b p : ℕ) → x < y → a < p → x * p + a < y * p + b
leading_digit x y a b p h k = grind arith

forward :
    (x y : ℕ) (rest : Bool) (a b p : ℕ)
    → a < p
    → (rest ≡ true → a < b)
    → (if x == y then rest else ltb x y) ≡ true
    → x * p + a < y * p + b
forward x y rest a b p ha tail h = elim (Bool-cases (x == y)) [
  | inl same ↦ rw ((==_iff x y).0 same) (ground (arith, tail))
  | inr differ ↦ leading_digit x y a b p (ground arith) ha
]

backward :
    (x y : ℕ) (rest : Bool) (a b p : ℕ)
    → b < p
    → (a < b → rest ≡ true)
    → x * p + a < y * p + b
    → (if x == y then rest else ltb x y) ≡ true
backward x y rest a b p hb tail h = elim (Bool-cases (x == y)) [
  | inl same ↦ rw same (tail (ground arith))
  | inr differ ↦ ground (arith, leading_digit y x b a p)
]

lexicographic :
    (x y : ℕ) (rest : Bool) (a b p : ℕ)
    → a < p
    → b < p
    → (rest ≡ true) ↔ (a < b)
    → ((if x == y then rest else ltb x y) ≡ true) ↔ (x * p + a < y * p + b)
lexicographic x y rest a b p ha hb tail =
    (forward x y rest a b p ha tail.0, backward x y rest a b p hb tail.1)

pub bytes_lt_iff :
    (a b : Bytes)
    → IsBytes a
    → IsBytes b
    → length a ≡ length b
    → (bytes_lt a b ≡ true) ↔ (from_be a < from_be b)
unfolding bytes_lt
bytes_lt_iff [] [] ha hb e = (λ h. cc, λ h. absurd (omega arith))
bytes_lt_iff [] (y ∷ ys) ha hb e = absurd (omega arith)
bytes_lt_iff (x ∷ xs) [] ha hb e = absurd (omega arith)
bytes_lt_iff (x ∷ xs) (y ∷ ys) ha hb e =
    let same : length xs ≡ length ys = omega arith in
    let p = 256 ^ length ys in
    let cx : from_be (x ∷ xs) ≡ x * p + from_be xs = rw (← same) (from_be-cons x xs) in
    let cy : from_be (y ∷ ys) ≡ y * p + from_be ys = from_be-cons y ys in
    let low_x : from_be xs < p = rw (← same) (from_be_bound xs ha.1) in
    let low_y : from_be ys < p = from_be_bound ys hb.1 in
    let ih = bytes_lt_iff xs ys ha.1 hb.1 same in
    rw (cx, cy) (lexicographic x y (bytes_lt xs ys) (from_be xs) (from_be ys) p low_x low_y ih)

pub from_be-set :
    (xs : Bytes) (i v : ℕ)
    → get_elem? xs i ≡ some 0
    → from_be (set xs i v) ≡ from_be xs + v * 256 ^ (length xs - 1 - i)
from_be-set [] i v h = cc
from_be-set (x ∷ xs) zero v h =
    let zero_digit : x ≡ 0 = cc in
    let place : suc (length xs) - 1 - 0 ≡ length xs = omega arith in
    rw (place, from_be-cons v xs, from_be-cons x xs, zero_digit) (omega arith)
from_be-set (x ∷ xs) (suc i) v h =
    let place : suc (length xs) - 1 - suc i ≡ length xs - 1 - i = omega arith in
    rw (place, from_be-cons x (set xs i v), from_be-cons x xs, length-set, from_be-set xs i v h)
      (omega arith)

pub from_be-replicate : (n : ℕ) → from_be (replicate n 0) ≡ 0
from_be-replicate zero = unfold from_be from_le in refl
from_be-replicate (suc n) = rw from_be-cons (omega (arith, from_be-replicate n))
