-- ===== src/Word/Masks.antt =====
-- Setting the low bits of a number that has none of them.
use Prim.Native.Nat.{bit_or, digits, bit_or-bitwise}
use nftblock.Prelude.{ℕ, zero, suc, ◌+◌, ◌-◌, ◌*◌, ◌/◌, ◌%◌, ◌^◌, ◌≤◌, max, ◌≡◌, refl, arith, ap}
use nftblock.Prelude.Powers.{two_pow_suc, two_pow_pos, IsMultiple, IsMultiple-half, IsMultiple-even}

abbrev or_digits : ℕ → ℕ → ℕ → ℕ
or_digits n a b = digits (λ b. b) max n a b

-- The count of digits does not matter once it is large enough.
or_digits_fuel : (n m a b : ℕ) → a ≤ n → a ≤ m → or_digits n a b ≡ or_digits m a b
or_digits_fuel zero zero a b p q = refl
or_digits_fuel zero (suc m) zero b p q = refl
or_digits_fuel zero (suc m) (suc a) b p q = absurd (omega arith)
or_digits_fuel (suc n) zero zero b p q = refl
or_digits_fuel (suc n) zero (suc a) b p q = absurd (omega arith)
or_digits_fuel (suc n) (suc m) zero b p q = refl
or_digits_fuel (suc n) (suc m) (suc a) b p q =
    omega (arith, or_digits_fuel n m (suc a / 2) (b / 2) (omega arith) (omega arith))

zero-bit_or : (b : ℕ) → bit_or 0 b ≡ b
zero-bit_or b = bit_or-bitwise 0 b

bit_or-halves : (a b : ℕ) → bit_or a b ≡ bit_or (a / 2) (b / 2) * 2 + max (a % 2) (b % 2)
bit_or-halves zero b = omega (arith, zero-bit_or b, zero-bit_or (b / 2))
bit_or-halves (suc a) b = omega (
  arith,
  bit_or-bitwise (suc a) b,
  bit_or-bitwise (suc a / 2) (b / 2),
  or_digits_fuel a (suc a / 2) (suc a / 2) (b / 2) (omega arith) (omega arith),
)

bit_or-zero_below : (n a : ℕ) → a ≤ n → bit_or a 0 ≡ a
bit_or-zero_below n zero h = refl
bit_or-zero_below zero (suc a) h = absurd (omega arith)
bit_or-zero_below (suc n) (suc a) h =
    omega (arith, bit_or-halves (suc a) 0, bit_or-zero_below n (suc a / 2) (omega arith))

-- On a multiple of `2 ^ k`, setting the lowest `k` bits is adding them.
pub bit_or_mask : (k n : ℕ) → IsMultiple k n → bit_or n (2 ^ k - 1) ≡ n + (2 ^ k - 1)
bit_or_mask zero n m = omega (arith, bit_or-zero_below n n (omega arith))
bit_or_mask (suc k) n m =
    let half : (2 ^ suc k - 1) / 2 ≡ 2 ^ k - 1 = omega (arith, two_pow_suc k, two_pow_pos k) in
    omega (
      arith,
      bit_or-halves n (2 ^ suc k - 1),
      ap (bit_or (n / 2)) half,
      bit_or_mask k (n / 2) (IsMultiple-half k n m),
      IsMultiple-even k n m,
      two_pow_suc k,
      two_pow_pos k,
    )
