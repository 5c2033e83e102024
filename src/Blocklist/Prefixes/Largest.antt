-- ===== src/Blocklist/Prefixes/Largest.antt =====
-- The largest CIDR that is aligned and fits (src/blocklist.rs: `interval_prefixes`), and the lists
-- that take it in every round.
use nftblock.Prelude.{
  ℕ, ◌+◌, ◌-◌, ◌^◌, ◌≤◌, ◌<◌, ◌≡◌, inl, inr, min, List, [], ◌∷◌, arith, ◌==◌, ==→≡, ==→≢,
  Bool-cases, if◌then◌else◌,
}
use nftblock.Prelude.Powers.{
  two_pow_suc, two_pow_pos, two_pow_mono, le_of_two_pow, IsMultiple, IsMultiple-le,
}
use nftblock.Word.{trailing_zeros, leading_zeros}
use nftblock.Word.Zeros.{
  trailing_zeros-IsMultiple, le-trailing_zeros, highest_bit-le, le-highest_bit,
}
use nftblock.Blocklist.{AddressPrefix}
use nftblock.Blocklist.Prefixes.{width, address, prefix_len, host_bits, size, IsCidr}

-- `2 ^ h` is the size of the largest aligned block at `start` that ends by `stop`.
pub record IsLargest (start stop h : ℕ) : Type 0 where
  pub aligned : IsMultiple h start
  pub fits : start + 2 ^ h ≤ stop
  pub largest : (k : ℕ) → IsMultiple k start → start + 2 ^ k ≤ stop → k ≤ h

-- A list that takes the largest block in each round, from `start` up to `stop`.
abbrev pub IsGreedy : ℕ → ℕ → ℕ → List AddressPrefix → Type 0
IsGreedy w start stop [] = start ≡ stop
IsGreedy w start stop (p ∷ ps) =
    (address p ≡ start)
    × IsCidr w p
    × IsLargest start stop (host_bits p)
    × IsGreedy w (start + size p) stop ps

unfoldable pub alignment : ℕ → ℕ → ℕ
alignment w start = if start == 0 then w else trailing_zeros w start

pub alignment-IsMultiple : (w start : ℕ) → IsMultiple (alignment w start) start
unfolding alignment
alignment-IsMultiple w start = elim (Bool-cases (start == 0)) [
  | inl e ↦ rw e (0, omega (arith, ==→≡ _ _ e))
  | inr e ↦ rw e (trailing_zeros-IsMultiple w start)
]

-- No block inside `2 ^ w` addresses that starts at `start` is larger than the alignment.
pub le-alignment :
    (w start k : ℕ)
    → start < 2 ^ w
    → start + 2 ^ k ≤ 2 ^ w
    → IsMultiple k start
    → k ≤ alignment w start
unfolding alignment
le-alignment w start k h fits m = elim (Bool-cases (start == 0)) [
  | inl e ↦ rw e (le_of_two_pow k w (omega (arith, two_pow_suc w, two_pow_pos w)))
  | inr e ↦ rw e (le-trailing_zeros w start k (let ne = ==→≢ _ _ e in omega arith) h m)
]

-- The smaller of the alignment and the highest bit of what remains is the largest block.
pub IsLargest-min :
    (w v start stop remaining : ℕ)
    → start < stop
    → stop ≤ 2 ^ w
    → start + remaining ≡ stop
    → remaining < 2 ^ v
    → IsLargest start stop (min (alignment w start) (v - 1 - leading_zeros v remaining))
IsLargest-min w v start stop remaining lt bound e small = record {
  aligned = IsMultiple-le _ (alignment w start) start (omega arith) (alignment-IsMultiple w start);
  fits = omega (
    arith,
    highest_bit-le v remaining (omega arith) small,
    two_pow_mono {j = min (alignment w start) (v - 1 - leading_zeros v remaining)}
        {k = v - 1 - leading_zeros v remaining} (omega arith),
  );
  largest = λ k m fits. omega (
    arith,
    le-alignment w start k (omega arith) (omega arith) m,
    le-highest_bit v remaining k (omega arith) small (omega arith),
  );
}

-- A largest block of at most `2 ^ w` addresses makes a CIDR.
pub block_bits :
    (w start stop h : ℕ) → stop ≤ 2 ^ w → IsLargest start stop h → (h ≤ w) × (w - (w - h) ≡ h)
block_bits w start stop h bound l =
    let le : h ≤ w = le_of_two_pow h w (omega (arith, l.fits, two_pow_suc w, two_pow_pos w)) in
    (le, omega arith)

-- A greedy list goes on with the largest block.
pub IsGreedy-cons :
    (w h start stop : ℕ) (p : AddressPrefix) (ps : List AddressPrefix)
    → stop ≤ 2 ^ w
    → IsLargest start stop h
    → width p ≡ w
    → address p ≡ start
    → prefix_len p ≡ w - h
    → IsGreedy w (start + 2 ^ h) stop ps
    → IsGreedy w start stop (p ∷ ps)
IsGreedy-cons w h start stop p ps bound l wide at len rest =
    let (le, back) = block_bits w start stop h bound l in
    let same : host_bits p ≡ h = rw (wide, len) back in
    (
      at,
      record { family = wide; fits = omega arith; aligned = rw (same, at) l.aligned },
      rw same l,
      rw same rest,
    )
