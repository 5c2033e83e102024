-- ===== src/Word/Zeros.antt =====
-- What the two bit counts say of a number.
use nftblock.Prelude.{
  ℕ, zero, suc, ◌-◌, ◌/◌, ◌%◌, ◌^◌, ◌≤◌, ◌<◌, ◌≡◌, inl, inr, arith, ltb, ◌==◌, ltb→lt, ltb→le, ==→≡,
  ==→≢, Bool-cases,
}
use nftblock.Prelude.Powers.{
  two_pow_suc, le_of_two_pow, IsMultiple, IsMultiple-half, IsMultiple-even, IsMultiple-double,
  IsMultiple-zero,
}
use nftblock.Word.{trailing_zeros, leading_zeros}

-- The number is a multiple of the power of its trailing zeros.
pub trailing_zeros-IsMultiple : (w n : ℕ) → IsMultiple (trailing_zeros w n) n
unfolding trailing_zeros
trailing_zeros-IsMultiple zero n = IsMultiple-zero n
trailing_zeros-IsMultiple (suc w) n = elim (Bool-cases (n % 2 == 0)) [
  | inl e ↦ rw e (
      IsMultiple-double (trailing_zeros w (n / 2)) n (==→≡ _ _ e)
        (trailing_zeros-IsMultiple w (n / 2)))
  | inr e ↦ rw e (IsMultiple-zero n)
]

-- No larger power of two divides it.
pub le-trailing_zeros : (w n k : ℕ) → 0 < n → n < 2 ^ w → IsMultiple k n → k ≤ trailing_zeros w n
unfolding trailing_zeros
le-trailing_zeros w n zero p h m = omega arith
le-trailing_zeros zero n (suc k) p h m = absurd (omega arith)
le-trailing_zeros (suc w) n (suc k) p h m = elim (Bool-cases (n % 2 == 0)) [
  | inl e ↦ rw e (
      omega (
        arith,
        le-trailing_zeros w (n / 2) k (omega (arith, ==→≡ _ _ e)) (omega (arith, two_pow_suc w))
            (IsMultiple-half k n m),
      ))
  | inr e ↦ absurd (==→≢ _ _ e (IsMultiple-even k n m))
]

pub leading_zeros-lt : (w n : ℕ) → 0 < n → n < 2 ^ w → leading_zeros w n < w
unfolding leading_zeros
leading_zeros-lt zero n p h = absurd (omega arith)
leading_zeros-lt (suc w) n p h = elim (Bool-cases (ltb n (2 ^ w))) [
  | inl e ↦ rw e (omega (arith, leading_zeros-lt w n p (ltb→lt _ _ e)))
  | inr e ↦ rw e (omega arith)
]

-- `w - 1 - leading_zeros` is the position of the highest bit.
pub highest_bit-le : (w n : ℕ) → 0 < n → n < 2 ^ w → 2 ^ (w - 1 - leading_zeros w n) ≤ n
unfolding leading_zeros
highest_bit-le zero n p h = absurd (omega arith)
highest_bit-le (suc w) n p h = elim (Bool-cases (ltb n (2 ^ w))) [
  | inl e ↦ rw e (
      let same : suc w - 1 - suc (leading_zeros w n) ≡ w - 1 - leading_zeros w n = omega arith in
      rw same (highest_bit-le w n p (ltb→lt _ _ e)))
  | inr e ↦ rw e (let same : suc w - 1 - 0 ≡ w = omega arith in rw same (ltb→le _ _ e))
]

pub le-highest_bit : (w n k : ℕ) → 0 < n → n < 2 ^ w → 2 ^ k ≤ n → k ≤ w - 1 - leading_zeros w n
unfolding leading_zeros
le-highest_bit zero n k p h m = absurd (omega arith)
le-highest_bit (suc w) n k p h m = elim (Bool-cases (ltb n (2 ^ w))) [
  | inl e ↦ rw e (omega (arith, le-highest_bit w n k p (ltb→lt _ _ e) m))
  | inr e ↦ rw e (omega (arith, le_of_two_pow k w (omega arith)))
]
