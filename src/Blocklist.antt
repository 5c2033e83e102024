-- ===== src/Blocklist.antt =====
-- src/blocklist.rs: the address intervals and prefixes, and the decomposition of an interval.
pub mod Prefixes
pub mod Stream
use nftblock.Prelude.{
  ℕ, zero, suc, ◌+◌, ◌-◌, ◌%◌, ◌^◌, min, Bool, true, false, ◌&&◌, Option, none, some, List, [], ◌∷◌,
  ltb, ◌==◌, if◌then◌else◌,
}
use nftblock.Word.{wrapping_add, wrapping_sub, checked_add, trailing_zeros, leading_zeros}

-- An address is its number, `u32::from(a)` or `u128::from(a)`.
pub data AddressInterval : Type 0 where
  v4 : ℕ → Option ℕ → AddressInterval
  v6 : ℕ → Option ℕ → AddressInterval

abbrev boundaries : Option ℕ → ℕ
boundaries none = 1
boundaries (some a) = 1 + 1

unfoldable pub boundary_elements : AddressInterval → ℕ
boundary_elements (v4 first after_last) = boundaries after_last
boundary_elements (v6 first after_last) = boundaries after_last

pub data AddressPrefix : Type 0 where
  v4 : ℕ → ℕ → AddressPrefix
  v6 : ℕ → ℕ → AddressPrefix

abbrev pub u128_max : ℕ
u128_max = 2 ^ 128 - 1

-- The last address: `after_last.map_or(MAX, |value| value - 1)`.
abbrev pub interval_end : ℕ → Option ℕ → ℕ
interval_end w none = 2 ^ w - 1
interval_end w (some a) = wrapping_sub w a 1

-- `alignment.min(fit)` of the first loop, in 64-bit arithmetic.
v4_host_bits : ℕ → ℕ → ℕ
v4_host_bits start end =
    let alignment : ℕ = if start == 0 then 32 else trailing_zeros 32 start in
    let remaining : ℕ = wrapping_add 64 (wrapping_sub 64 end start) 1 in
    let fit : ℕ = wrapping_sub 32 63 (leading_zeros 64 remaining) in min alignment fit

-- The first `loop`, on fuel; a round that ends by `break` makes no call.
v4_loop : ℕ → ℕ → ℕ → List AddressPrefix
v4_loop zero start end = []
v4_loop (suc fuel) start end =
    let host_bits = v4_host_bits start end in
    let next = wrapping_add 64 start (2 ^ host_bits) in
    let rest = v4_loop fuel (next % 2 ^ 32) end in
    AddressPrefix.v4 start (32 - host_bits) ∷ (if ltb end next then [] else rest)

-- The same of the second loop, in 128-bit arithmetic.
v6_host_bits : ℕ → ℕ → ℕ
v6_host_bits start end =
    let alignment : ℕ = if start == 0 then 128 else trailing_zeros 128 start in
    let remaining : ℕ = wrapping_add 128 (wrapping_sub 128 end start) 1 in
    let fit : ℕ = wrapping_sub 32 127 (leading_zeros 128 remaining) in min alignment fit

-- What follows a prefix: nothing if the next address overflows or lies past the end.
v6_next : ℕ → Option ℕ → (ℕ → List AddressPrefix) → List AddressPrefix
v6_next end none rest = []
v6_next end (some next) rest = if ltb end next then [] else rest next

-- The second `loop`; the whole space is one prefix of length 0.
v6_loop : ℕ → ℕ → ℕ → List AddressPrefix
unfolding v6_next
v6_loop zero start end = []
v6_loop (suc fuel) start end =
    if start == 0 && end == u128_max
    then AddressPrefix.v6 0 0 ∷ []
    else (let host_bits = v6_host_bits start end in
        AddressPrefix.v6 start (128 - host_bits)
        ∷ v6_next end (checked_add 128 start (2 ^ host_bits)) (λ next. v6_loop fuel next end))

-- Each round goes on by one address at least, so `2 ^ w` rounds are enough.
unfoldable pub interval_prefixes : AddressInterval → List AddressPrefix
unfolding v4_loop v4_host_bits v6_loop v6_host_bits trailing_zeros leading_zeros
interval_prefixes (v4 first after_last) = v4_loop (2 ^ 32) first (interval_end 32 after_last)
interval_prefixes (v6 first after_last) = v6_loop (2 ^ 128) first (interval_end 128 after_last)
