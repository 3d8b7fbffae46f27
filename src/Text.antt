-- ===== src/Text.antt =====
-- Rust's `str`: bytes that are well-formed UTF-8, as `std::str::from_utf8` tests them.
use aurion.Prelude.{
  ℕ, zero, suc, [], ◌∷◌, Bool, true, false, ◌&&◌, leb, if◌then◌else◌, Option, none, some,
}
use aurion.Bytes.{Bytes}

abbrev within : ℕ → ℕ → ℕ → Bool
within low high b = leb low b && leb b high

-- Between two characters, or inside one: the bounds of its next byte, and the bytes after that.
pub data Position : Type 0 where
  between : Position
  inside : ℕ → ℕ → ℕ → Position

-- The first byte of a character. The bounds of the second one leave out overlong forms, surrogates and
-- what is above U+10FFFF.
unfoldable pub lead : ℕ → Option Position
lead b =
    if leb b 0x7F
    then some between
    else if within 0xC2 0xDF b
    then some (inside 0x80 0xBF 0)
    else if within 0xE0 0xE0 b
    then some (inside 0xA0 0xBF 1)
    else if within 0xED 0xED b
    then some (inside 0x80 0x9F 1)
    else if within 0xE1 0xEF b
    then some (inside 0x80 0xBF 1)
    else if within 0xF0 0xF0 b
    then some (inside 0x90 0xBF 2)
    else if within 0xF1 0xF3 b
    then some (inside 0x80 0xBF 2)
    else if within 0xF4 0xF4 b
    then some (inside 0x80 0x8F 2)
    else none

unfoldable pub tail_of : ℕ → Position
tail_of zero = between
tail_of (suc more) = inside 0x80 0xBF more

unfoldable pub well_formed : Position → Bytes → Bool
well_formed between [] = true
well_formed (inside low high more) [] = false
well_formed between (b ∷ bs) = elim (lead b) [ none ↦ false | some p ↦ well_formed p bs ]
well_formed (inside low high more) (b ∷ bs) = within low high b && well_formed (tail_of more) bs

unfoldable pub is_utf8 : Bytes → Bool
is_utf8 bytes = well_formed between bytes
