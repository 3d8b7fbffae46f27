-- ===== src/Bytes.antt =====
-- `to_be_bytes`, `to_le_bytes`, `from_be_bytes` and `from_le_bytes` of the unsigned integers of
-- `w` bytes. A byte is a number below 256, a `Vec<u8>` or `[u8; w]` is a list of bytes.
pub mod Laws
pub mod Ordered
use Prim.Native.Char.{code}
use Prim.Native.String.{String}
use mathlib.Core.List.{reverse}
use aurion.Prelude.{
  ℕ, zero, suc, ◌+◌, ◌*◌, ◌/◌, ◌%◌, ◌<◌, List, [], ◌∷◌, All, Bool, true, false, ◌==◌, ◌&&◌, ltb,
  if◌then◌else◌,
}

abbrev pub Bytes : Type 0
Bytes = List ℕ

abbrev pub IsBytes : Bytes → Type 0
IsBytes = All (λ b. b < 256)

unfoldable pub to_le : ℕ → ℕ → Bytes
to_le zero n = []
to_le (suc w) n = (n % 256) ∷ to_le w (n / 256)

unfoldable pub from_le : Bytes → ℕ
from_le [] = 0
from_le (b ∷ bs) = b + 256 * from_le bs

unfoldable pub to_be : ℕ → ℕ → Bytes
unfolding to_le
to_be w n = reverse (to_le w n)

unfoldable pub from_be : Bytes → ℕ
unfolding from_le
from_be bs = from_le (reverse bs)

-- `==` on slices and arrays of bytes
unfoldable pub bytes_eq : Bytes → Bytes → Bool
bytes_eq [] [] = true
bytes_eq (a ∷ as') (b ∷ bs) = a == b && bytes_eq as' bs
bytes_eq _ _ = false

-- `<` on slices and arrays of bytes is lexicographic.
unfoldable pub bytes_lt : Bytes → Bytes → Bool
bytes_lt [] [] = false
bytes_lt [] (_ ∷ _) = true
bytes_lt (_ ∷ _) [] = false
bytes_lt (a ∷ as') (b ∷ bs) = if a == b then bytes_lt as' bs else ltb a b

-- The bytes of an ASCII text.
abbrev pub codes : String → Bytes
codes String.[] = []
codes (String.◌∷◌ c s) = code c ∷ codes s
