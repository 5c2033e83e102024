-- ===== src/Blocklist/Prefixes/Minimal.antt =====
-- No list of CIDRs for an interval is shorter than the one of `interval_prefixes`.
use nftblock.Prelude.{
  ℕ, ◌+◌, ◌^◌, ◌≤◌, ◌<◌, ◌≡◌, inl, inr, List, [], ◌∷◌, arith, length, ltb, ltb→lt, ltb→le,
  Bool-cases, subst,
}
use nftblock.Prelude.Powers.{
  two_pow_pos, two_pow_mono, IsMultiple, IsMultiple-le, IsMultiple-gap, IsMultiple-add,
}
use nftblock.Blocklist.{AddressInterval, AddressPrefix, interval_prefixes}
use nftblock.Blocklist.Prefixes.{
  IsInterval, interval_width, interval_first, interval_stop, host_bits, size, Tiles,
}
use nftblock.Blocklist.Prefixes.Greedy.{interval_prefixes-IsGreedy}
use nftblock.Blocklist.Prefixes.Largest.{IsLargest, IsGreedy}

pub IsGreedy-Tiles :
    (w s stop : ℕ) (ps : List AddressPrefix) → IsGreedy w s stop ps → Tiles w s stop ps
IsGreedy-Tiles w s stop [] e = e
IsGreedy-Tiles w s stop (p ∷ ps) (at, cidr, l, rest) =
    (at, cidr, IsGreedy-Tiles w (s + size p) stop ps rest)

-- The list ends with a part that starts at `s`, and has `n` blocks more than that part at least.
abbrev Ends : ℕ → ℕ → ℕ → ℕ → List AddressPrefix → Type 0
Ends n w s stop qs = (rs : List AddressPrefix) × Tiles w s stop rs × (n + length rs ≤ length qs)

-- A block that starts inside an aligned block of `2 ^ h` addresses, behind its first, ends in it.
inner_block :
    (h k s t : ℕ) → IsMultiple h s → IsMultiple k t → s < t → t < s + 2 ^ h → t + 2 ^ k ≤ s + 2 ^ h
inner_block h k s t ms mt lo hi = elim (Bool-cases (ltb h k)) [
  | inl e ↦ absurd (
      omega
        (arith, IsMultiple-gap h s t ms (IsMultiple-le h k t (omega (arith, ltb→lt _ _ e)) mt) lo))
  | inr e ↦
      IsMultiple-gap k t (s + 2 ^ h) mt
        (IsMultiple-le k h (s + 2 ^ h) (ltb→le _ _ e) (IsMultiple-add h s ms)) hi
]

-- Going through a tiling from inside an aligned block, a block starts where that one ends.
Tiles-reach :
    (w h s stop t : ℕ) (qs : List AddressPrefix)
    → IsMultiple h s
    → s + 2 ^ h ≤ stop
    → s < t
    → t ≤ s + 2 ^ h
    → Tiles w t stop qs
    → Ends 0 w (s + 2 ^ h) stop qs
Tiles-reach w h s stop t [] ms fits lo hi e = ([], omega arith, omega arith)
Tiles-reach w h s stop t (q ∷ qs) ms fits lo hi (at, cidr, rest) =
    elim (Bool-cases (ltb t (s + 2 ^ h))) [
      | inl e ↦
          (let inner =
              inner_block h (host_bits q) s t ms (subst (IsMultiple _) at cidr.aligned) lo
                (ltb→lt _ _ e) in
            let (rs, tiles, le) =
              Tiles-reach w h s stop (t + size q) qs ms fits (omega arith) inner rest in
            (rs, tiles, omega arith))
      | inr e ↦
          (let same : t ≡ s + 2 ^ h = omega (arith, ltb→le _ _ e) in
            (q ∷ qs, subst (λ x. Tiles w x stop (q ∷ qs)) same (at, cidr, rest), omega arith))
    ]

pub Tiles-le : (w s stop : ℕ) (qs : List AddressPrefix) → Tiles w s stop qs → s ≤ stop
Tiles-le w s stop [] e = omega arith
Tiles-le w s stop (q ∷ qs) (at, cidr, rest) = omega (arith, Tiles-le w (s + size q) stop qs rest)

-- Any tiling spends a block at least on what the largest block covers.
Tiles-skip :
    (w h s stop : ℕ) (qs : List AddressPrefix)
    → IsLargest s stop h
    → Tiles w s stop qs
    → Ends 1 w (s + 2 ^ h) stop qs
Tiles-skip w h s stop [] l e = absurd (omega (arith, l.fits, two_pow_pos h))
Tiles-skip w h s stop (q ∷ qs) l (at, cidr, rest) =
    let k = host_bits q in
    let mk = subst (IsMultiple k) at cidr.aligned in
    let small = l.largest k mk (Tiles-le w (s + size q) stop qs rest) in
    let (rs, tiles, le) =
      Tiles-reach w h s stop (s + size q) qs l.aligned l.fits (omega (arith, two_pow_pos k))
        (omega (arith, two_pow_mono small)) rest in
    (rs, tiles, omega arith)

-- A greedy list is as short as any other.
IsGreedy-minimal :
    (w s stop : ℕ) (ps qs : List AddressPrefix)
    → IsGreedy w s stop ps
    → Tiles w s stop qs
    → length ps ≤ length qs
IsGreedy-minimal w s stop [] qs g t = omega arith
IsGreedy-minimal w s stop (p ∷ ps) qs (at, cidr, l, rest) t =
    let (rs, tiles, le) = Tiles-skip w (host_bits p) s stop qs l t in
    omega (arith, IsGreedy-minimal w (s + size p) stop ps rs rest tiles)

-- For an interval that holds an address, no list of CIDRs that follow one another and cover
-- exactly its addresses is shorter than the list that the code computes.
pub interval_prefixes_minimal :
    (i : AddressInterval) (qs : List AddressPrefix)
    → IsInterval i
    → Tiles (interval_width i) (interval_first i) (interval_stop i) qs
    → length (interval_prefixes i) ≤ length qs
interval_prefixes_minimal i qs h =
    IsGreedy-minimal (interval_width i) (interval_first i) (interval_stop i) _ qs
      (interval_prefixes-IsGreedy i h)
