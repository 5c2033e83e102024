-- ===== src/Prelude/Powers.antt =====
-- Powers of two: monotonicity, and multiples of a power.
use Prim.Native.Nat.{ℕ, zero, suc, ◌+◌, ◌*◌, ◌/◌, ◌%◌, ◌^◌, ◌≤◌, ◌<◌}
use mathlib.Core.Path.{◌≡◌, ap}
use native.Mathlib.Omega.{arith}
use native.Mathlib.Nat.{pow-suc, one-le-pow, pow-le-pow_right}

pub two_pow_suc : (k : ℕ) → 2 ^ suc k ≡ 2 * 2 ^ k
two_pow_suc k = omega (arith, pow-suc 2 k)

pub two_pow_pos : (k : ℕ) → 0 < 2 ^ k
two_pow_pos k = one-le-pow k 2 (omega arith)

pub two_pow_mono : {j k : ℕ} → j ≤ k → 2 ^ j ≤ 2 ^ k
two_pow_mono h = pow-le-pow_right (omega arith) h

-- An order between powers of two is one between the exponents.
pub le_of_two_pow : (k j : ℕ) → 2 ^ k < 2 ^ suc j → k ≤ j
le_of_two_pow zero j h = omega arith
le_of_two_pow (suc k) zero h = absurd (omega (arith, two_pow_suc k, two_pow_pos k))
le_of_two_pow (suc k) (suc j) h =
    omega (arith, le_of_two_pow k j (omega (arith, two_pow_suc k, two_pow_suc (suc j))))

-- `n` is a multiple of `2 ^ k`: the address of a network with `k` host bits.
abbrev pub IsMultiple : ℕ → ℕ → Type 0
IsMultiple k n = (q : ℕ) × (n ≡ q * 2 ^ k)

pub IsMultiple-half : (k n : ℕ) → IsMultiple (suc k) n → IsMultiple k (n / 2)
IsMultiple-half k n (q, e) = (q, omega (arith, e, ap (λ (t : ℕ). q * t) (two_pow_suc k)))

pub IsMultiple-even : (k n : ℕ) → IsMultiple (suc k) n → n % 2 ≡ 0
IsMultiple-even k n (q, e) = omega (arith, e, ap (λ (t : ℕ). q * t) (two_pow_suc k))

pub IsMultiple-double : (k n : ℕ) → n % 2 ≡ 0 → IsMultiple k (n / 2) → IsMultiple (suc k) n
IsMultiple-double k n h (q, e) = (q, omega (arith, e, ap (λ (t : ℕ). q * t) (two_pow_suc k)))

pub IsMultiple-zero : (n : ℕ) → IsMultiple 0 n
IsMultiple-zero n = (n, omega arith)

-- A multiple of a larger power is one of a smaller.
pub IsMultiple-le : (j k n : ℕ) → j ≤ k → IsMultiple k n → IsMultiple j n
IsMultiple-le zero k n h m = IsMultiple-zero n
IsMultiple-le (suc j) zero n h m = absurd (omega arith)
IsMultiple-le (suc j) (suc k) n h m =
    IsMultiple-double j n (IsMultiple-even k n m)
      (IsMultiple-le j k (n / 2) (omega arith) (IsMultiple-half k n m))

-- Two different multiples of a power lie at least that power apart.
pub IsMultiple-gap : (k a b : ℕ) → IsMultiple k a → IsMultiple k b → a < b → a + 2 ^ k ≤ b
IsMultiple-gap zero a b p q h = omega arith
IsMultiple-gap (suc k) a b p q h = omega (
  arith,
  IsMultiple-even k a p,
  IsMultiple-even k b q,
  two_pow_suc k,
  IsMultiple-gap k (a / 2) (b / 2) (IsMultiple-half k a p) (IsMultiple-half k b q)
      (omega (arith, IsMultiple-even k a p, IsMultiple-even k b q)),
)

pub IsMultiple-add : (k n : ℕ) → IsMultiple k n → IsMultiple k (n + 2 ^ k)
IsMultiple-add k n (q, e) = (suc q, omega arith)
