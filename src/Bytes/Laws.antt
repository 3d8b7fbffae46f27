-- ===== src/Bytes/Laws.antt =====
-- The integer conversions are inverse to one another, and `==` on bytes decides equality.
use mathlib.Core.List.{reverse, reverse-reverse}
use native.Mathlib.Nat.{pow-suc}
use aurion.Prelude.{
  ℕ, zero, suc, ◌+◌, ◌*◌, ◌/◌, ◌%◌, ◌^◌, ◌<◌, ◌≡◌, refl, ap, [], ◌∷◌, length, length-reverse,
  All-reverse, arith, true, ◌↔◌,
}
use aurion.Bytes.{Bytes, IsBytes, to_le, from_le, to_be, from_be, bytes_eq}

length-to_le : (w n : ℕ) → length (to_le w n) ≡ w
unfolding to_le
length-to_le zero n = refl
length-to_le (suc w) n = ap suc (length-to_le w (n / 256))

IsBytes-to_le : (w n : ℕ) → IsBytes (to_le w n)
unfolding to_le
IsBytes-to_le zero n = tt
IsBytes-to_le (suc w) n = (omega arith, IsBytes-to_le w (n / 256))

pub from_le-to_le : (w n : ℕ) → n < 256 ^ w → from_le (to_le w n) ≡ n
unfolding to_le from_le
from_le-to_le zero n h = omega arith
from_le-to_le (suc w) n h =
    let small : n < 256 ^ w * 256 = rw pow-suc at h in
    let ih : from_le (to_le w (n / 256)) ≡ n / 256 = from_le-to_le w (n / 256) (omega arith) in
    omega arith

pub to_le-from_le : (bs : Bytes) → IsBytes bs → to_le (length bs) (from_le bs) ≡ bs
unfolding to_le from_le
to_le-from_le [] h = refl
to_le-from_le (b ∷ bs) h =
    let low : (b + 256 * from_le bs) % 256 ≡ b = omega arith in
    let high : (b + 256 * from_le bs) / 256 ≡ from_le bs = omega arith in
    rw (low, high, to_le-from_le bs h.1)

pub from_le_bound : (bs : Bytes) → IsBytes bs → from_le bs < 256 ^ length bs
unfolding from_le
from_le_bound [] h = omega arith
from_le_bound (b ∷ bs) h = rw pow-suc (omega (arith, from_le_bound bs h.1))

pub length-to_be : (w n : ℕ) → length (to_be w n) ≡ w
unfolding to_be
length-to_be w n = rw (length-reverse, length-to_le)

pub IsBytes-to_be : (w n : ℕ) → IsBytes (to_be w n)
unfolding to_be
IsBytes-to_be w n = All-reverse _ (to_le w n) (IsBytes-to_le w n)

pub from_be-to_be : (w n : ℕ) → n < 256 ^ w → from_be (to_be w n) ≡ n
unfolding to_be from_be
from_be-to_be w n h = rw reverse-reverse (from_le-to_le w n h)

pub to_be-from_be : (bs : Bytes) → IsBytes bs → to_be (length bs) (from_be bs) ≡ bs
unfolding to_be from_be
to_be-from_be bs h =
    rw (← length-reverse bs, to_le-from_le (reverse bs) (All-reverse _ bs h)) (reverse-reverse bs)

pub from_be_bound : (bs : Bytes) → IsBytes bs → from_be bs < 256 ^ length bs
unfolding from_be
from_be_bound bs h = rw (← length-reverse bs) (from_le_bound (reverse bs) (All-reverse _ bs h))

pub to_be-from_be_of_length :
    (w : ℕ) (bs : Bytes)
    → IsBytes bs
    → length bs ≡ w
    → (to_be w (from_be bs) ≡ bs) × (from_be bs < 256 ^ w)
to_be-from_be_of_length w bs h size = rw (← size) (to_be-from_be bs h, from_be_bound bs h)

pub bytes_eq_iff : (a b : Bytes) → (bytes_eq a b ≡ true) ↔ (a ≡ b)
unfolding bytes_eq
bytes_eq_iff [] [] = (λ _. refl, λ _. refl)
bytes_eq_iff [] (b ∷ bs) = (λ h. cc, λ h. cc)
bytes_eq_iff (a ∷ as') [] = (λ h. cc, λ h. cc)
bytes_eq_iff (a ∷ as') (b ∷ bs) =
    (λ h. ground (arith, bytes_eq_iff as' bs), λ h. ground (arith, bytes_eq_iff as' bs))

pub bytes_eq_refl : (a : Bytes) → bytes_eq a a ≡ true
bytes_eq_refl a = (bytes_eq_iff a a).1 refl
