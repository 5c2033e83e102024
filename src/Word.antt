-- ===== src/Word.antt =====
-- The operations of Rust's unsigned integers that the program uses, at a width of `w` bits.
pub mod Zeros
pub mod Masks
use nftblock.Prelude.{
  ℕ, zero, suc, ◌+◌, ◌-◌, ◌/◌, ◌%◌, ◌^◌, ◌≤◌, ◌<◌, ◌≡◌, Option, none, some, arith, ltb, ◌==◌,
  if◌then◌else◌,
}

-- `a + b` and `a - b` as a release build computes them, modulo `2 ^ w`.
abbrev pub wrapping_add : ℕ → ℕ → ℕ → ℕ
wrapping_add w a b = (a + b) % 2 ^ w

abbrev pub wrapping_sub : ℕ → ℕ → ℕ → ℕ
wrapping_sub w a b = (a + 2 ^ w - b) % 2 ^ w

-- `a.checked_add(b)`
abbrev pub checked_add : ℕ → ℕ → ℕ → Option ℕ
checked_add w a b = if ltb (a + b) (2 ^ w) then some (a + b) else none

-- `n.trailing_zeros()`: all `w` bits of 0 are zeros.
unfoldable pub trailing_zeros : ℕ → ℕ → ℕ
trailing_zeros zero n = 0
trailing_zeros (suc w) n = if n % 2 == 0 then suc (trailing_zeros w (n / 2)) else 0

-- `n.leading_zeros()`
unfoldable pub leading_zeros : ℕ → ℕ → ℕ
leading_zeros zero n = 0
leading_zeros (suc w) n = if ltb n (2 ^ w) then suc (leading_zeros w n) else 0
