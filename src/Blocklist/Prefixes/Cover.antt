-- ===== src/Blocklist/Prefixes/Cover.antt =====
-- The prefixes of an interval match its addresses, each exactly once, and no others.
use native.Mathlib.Nat.{mul-div_left, le-div_iff_mul-le, div-lt_iff_lt-mul}
use nftblock.Prelude.{
  ℕ, suc, ◌+◌, ◌/◌, ◌^◌, ◌≡◌, ◌&&◌, List, [], ◌∷◌, arith, ltb, leb, ◌==◌, if◌then◌else◌, ap,
}
use nftblock.Prelude.Powers.{two_pow_pos, IsMultiple}
use nftblock.Blocklist.{AddressInterval, AddressPrefix, interval_prefixes}
use nftblock.Blocklist.Prefixes.{
  IsInterval, interval_width, interval_first, interval_stop, in_interval, address, host_bits, size,
  Tiles, count_matches,
}
use nftblock.Blocklist.Prefixes.Greedy.{interval_prefixes-IsGreedy}
use nftblock.Blocklist.Prefixes.Largest.{}
use nftblock.Blocklist.Prefixes.Minimal.{IsGreedy-Tiles, Tiles-le}

-- Agreeing with an aligned address above the low `k` bits is lying in its block.
same_block :
    (k a x : ℕ) → IsMultiple k a → (x / 2 ^ k == a / 2 ^ k) ≡ (leb a x && ltb x (a + 2 ^ k))
same_block k a x (q, e) = ground (
  arith,
  ap (λ t. t / 2 ^ k) e,
  mul-div_left q (two_pow_pos k),
  le-div_iff_mul-le {k = 2 ^ k} {x = q} {y = x} (two_pow_pos k),
  div-lt_iff_lt-mul {k = 2 ^ k} {x = x} {y = suc q} (two_pow_pos k),
)

Tiles-count :
    (w s stop : ℕ) (ps : List AddressPrefix) (x : ℕ)
    → Tiles w s stop ps
    → count_matches x ps ≡ (if leb s x && ltb x stop then 1 else 0)
Tiles-count w s stop [] x e = ground arith
Tiles-count w s stop (p ∷ ps) x (at, cidr, rest) =
    rw (same_block (host_bits p) (address p) x cidr.aligned) (
      rw (Tiles-count w (s + size p) stop ps x rest)
        (ground (arith, at, two_pow_pos (host_bits p), Tiles-le w (s + size p) stop ps rest)))

-- For an interval that holds an address: the prefixes are CIDRs without host bits, in order, each
-- starting right behind the one before it, from the first to the last address of the interval.
pub interval_prefixes-Tiles :
    (i : AddressInterval)
    → IsInterval i
    → Tiles (interval_width i) (interval_first i) (interval_stop i) (interval_prefixes i)
interval_prefixes-Tiles i h = IsGreedy-Tiles _ _ _ _ (interval_prefixes-IsGreedy i h)

-- For an interval that holds an address, the number of prefixes that match an address is one if
-- the interval holds that address, and zero if it does not.
pub interval_prefixes-count :
    (i : AddressInterval) (x : ℕ)
    → IsInterval i
    → count_matches x (interval_prefixes i) ≡ (if in_interval i x then 1 else 0)
interval_prefixes-count i x h = Tiles-count _ _ _ _ x (interval_prefixes-Tiles i h)
