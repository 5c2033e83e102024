-- ===== src/Xdp/Covered.antt =====
-- Which addresses have a prefix among the keys that a reload (src/xdp.rs) adds: those of the
-- intervals.
use nftblock.Prelude.{
  ℕ, suc, ◌+◌, ◌^◌, ◌≤◌, ◌<◌, ◌≡◌, refl, ap, ◌∙◌, Bool, true, false, Option, none, some, List, [],
  ◌∷◌, ltb, if◌then◌else◌, arith, any,
}
use nftblock.Blocklist.{AddressInterval, AddressPrefix, interval_prefixes}
use nftblock.Blocklist.Prefixes.{
  size, count_matches, Tiles, IsInterval, IsWord, stop_of, in_interval,
}
use nftblock.Blocklist.Prefixes.Cover.{interval_prefixes-Tiles, interval_prefixes-count}
use nftblock.Blocklist.Stream.Order.{position, low, high, within, covers, Chain}
use nftblock.Xdp.Maps.{Key, prefix_of}
use nftblock.Xdp.Staged.{v4_keys, v6_keys, prefixes_of, v4_keys-append, v6_keys-append}

-- The prefixes of one family are keys of its map, and of no other.
v4_keys-count :
    (x s e : ℕ) (ps : List AddressPrefix)
    → Tiles 32 s e ps
    → any (prefix_of 32 x) (v4_keys ps) ≡ ltb 0 (count_matches x ps)
v4_keys-count x s e [] h = refl
v4_keys-count x s e (AddressPrefix.v4 a n ∷ ps) (_, _, rest) =
    ground (arith, v4_keys-count x (s + size (AddressPrefix.v4 a n)) e ps rest)
v4_keys-count x s e (AddressPrefix.v6 a n ∷ ps) (_, cidr, rest) =
    let never : ⊥ = omega (arith, cidr.family) in elim never [ ]

v6_keys-count :
    (x s e : ℕ) (ps : List AddressPrefix)
    → Tiles 128 s e ps
    → any (prefix_of 128 x) (v6_keys ps) ≡ ltb 0 (count_matches x ps)
v6_keys-count x s e [] h = refl
v6_keys-count x s e (AddressPrefix.v6 a n ∷ ps) (_, _, rest) =
    ground (arith, v6_keys-count x (s + size (AddressPrefix.v6 a n)) e ps rest)
v6_keys-count x s e (AddressPrefix.v4 a n ∷ ps) (_, cidr, rest) =
    let never : ⊥ = omega (arith, cidr.family) in elim never [ ]

v4_keys-none :
    (q : Key → Bool) (s e : ℕ) (ps : List AddressPrefix)
    → Tiles 128 s e ps
    → any q (v4_keys ps) ≡ false
v4_keys-none q s e [] h = refl
v4_keys-none q s e (AddressPrefix.v6 a n ∷ ps) (_, _, rest) =
    v4_keys-none q (s + size (AddressPrefix.v6 a n)) e ps rest
v4_keys-none q s e (AddressPrefix.v4 a n ∷ ps) (_, cidr, rest) =
    let never : ⊥ = omega (arith, cidr.family) in elim never [ ]

v6_keys-none :
    (q : Key → Bool) (s e : ℕ) (ps : List AddressPrefix)
    → Tiles 32 s e ps
    → any q (v6_keys ps) ≡ false
v6_keys-none q s e [] h = refl
v6_keys-none q s e (AddressPrefix.v4 a n ∷ ps) (_, _, rest) =
    v6_keys-none q (s + size (AddressPrefix.v4 a n)) e ps rest
v6_keys-none q s e (AddressPrefix.v6 a n ∷ ps) (_, cidr, rest) =
    let never : ⊥ = omega (arith, cidr.family) in elim never [ ]

if_ltb : (b : Bool) → ltb 0 (if b then 1 else 0) ≡ b
if_ltb true = refl
if_ltb false = refl

stop-le : (o : Option ℕ) → IsWord 32 o → stop_of 32 o ≤ 2 ^ 32
stop-le none h = omega arith
stop-le (some a) h = omega (arith, h)

v4_keys-within :
    (x : ℕ) (i : AddressInterval)
    → x < 2 ^ 32
    → IsInterval i
    → any (prefix_of 32 x) (v4_keys (interval_prefixes i))
      ≡ within (low i) (high i) (position false x)
v4_keys-within x (AddressInterval.v4 f a) b h =
    v4_keys-count x f (stop_of 32 a) (interval_prefixes (AddressInterval.v4 f a))
      (interval_prefixes-Tiles _ h)
    ∙ ap (ltb 0) (interval_prefixes-count (AddressInterval.v4 f a) x h)
    ∙ if_ltb (in_interval (AddressInterval.v4 f a) x)
v4_keys-within x (AddressInterval.v6 f a) b h =
    v4_keys-none (prefix_of 32 x) f (stop_of 128 a) (interval_prefixes (AddressInterval.v6 f a))
      (interval_prefixes-Tiles _ h)
    ∙ ground (arith, b)

v6_keys-within :
    (x : ℕ) (i : AddressInterval)
    → IsInterval i
    → any (prefix_of 128 x) (v6_keys (interval_prefixes i))
      ≡ within (low i) (high i) (position true x)
v6_keys-within x (AddressInterval.v6 f a) h =
    v6_keys-count x f (stop_of 128 a) (interval_prefixes (AddressInterval.v6 f a))
      (interval_prefixes-Tiles _ h)
    ∙ ap (ltb 0) (interval_prefixes-count (AddressInterval.v6 f a) x h)
    ∙ if_ltb (in_interval (AddressInterval.v6 f a) x)
    ∙ ground arith
v6_keys-within x (AddressInterval.v4 f a) h =
    v6_keys-none (prefix_of 128 x) f (stop_of 32 a) (interval_prefixes (AddressInterval.v4 f a))
      (interval_prefixes-Tiles _ h)
    ∙ ground (arith, stop-le a h.is_end)

pub v4_keys-covers :
    (x s e : ℕ) (is : List AddressInterval)
    → x < 2 ^ 32
    → Chain s e is
    → any (prefix_of 32 x) (v4_keys (prefixes_of is)) ≡ covers (position false x) is
v4_keys-covers x s e [] b h = refl
v4_keys-covers x s e (i ∷ is) b (_, v, rest) = ground (
  arith,
  v4_keys-append (prefix_of 32 x) (interval_prefixes i) (prefixes_of is),
  v4_keys-within x i b v,
  v4_keys-covers x (suc (high i)) e is b rest,
)

pub v6_keys-covers :
    (x s e : ℕ) (is : List AddressInterval)
    → Chain s e is
    → any (prefix_of 128 x) (v6_keys (prefixes_of is)) ≡ covers (position true x) is
v6_keys-covers x s e [] h = refl
v6_keys-covers x s e (i ∷ is) (_, v, rest) = ground (
  arith,
  v6_keys-append (prefix_of 128 x) (interval_prefixes i) (prefixes_of is),
  v6_keys-within x i v,
  v6_keys-covers x (suc (high i)) e is rest,
)
