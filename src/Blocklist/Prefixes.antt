-- ===== src/Blocklist/Prefixes.antt =====
-- What a prefix and a list of prefixes stand for.
pub mod Largest
pub mod Greedy
pub mod Minimal
pub mod Cover
use nftblock.Prelude.{
  ℕ, suc, ◌+◌, ◌-◌, ◌/◌, ◌^◌, ◌≤◌, ◌<◌, ◌≡◌, Bool, ◌&&◌, Option, none, some, List, [], ◌∷◌, ltb,
  leb, ◌==◌, if◌then◌else◌,
}
use nftblock.Prelude.Powers.{IsMultiple}
use nftblock.Blocklist.{AddressPrefix, AddressInterval}

-- The width of a prefix's addresses.
abbrev pub width : AddressPrefix → ℕ
width (AddressPrefix.v4 address prefix_len) = 32
width (AddressPrefix.v6 address prefix_len) = 128

abbrev pub address : AddressPrefix → ℕ
address (AddressPrefix.v4 a prefix_len) = a
address (AddressPrefix.v6 a prefix_len) = a

abbrev pub prefix_len : AddressPrefix → ℕ
prefix_len (AddressPrefix.v4 address n) = n
prefix_len (AddressPrefix.v6 address n) = n

abbrev pub host_bits : AddressPrefix → ℕ
host_bits p = width p - prefix_len p

abbrev pub size : AddressPrefix → ℕ
size p = 2 ^ host_bits p

-- A CIDR of width `w`: its length fits, and its address has no host bits set.
pub record IsCidr (w : ℕ) (p : AddressPrefix) : Type 0 where
  pub family : width p ≡ w
  pub fits : prefix_len p ≤ w
  pub aligned : IsMultiple (host_bits p) (address p)

-- The prefixes are CIDRs that follow one another from `start`, and `stop` is the first address
-- behind the last of them.
abbrev pub Tiles : ℕ → ℕ → ℕ → List AddressPrefix → Type 0
Tiles w start stop [] = start ≡ stop
Tiles w start stop (p ∷ ps) = (address p ≡ start) × IsCidr w p × Tiles w (start + size p) stop ps

-- What an interval stands for: its width, its first address, and the first address behind it.
abbrev pub interval_width : AddressInterval → ℕ
interval_width (AddressInterval.v4 first after_last) = 32
interval_width (AddressInterval.v6 first after_last) = 128

abbrev pub interval_first : AddressInterval → ℕ
interval_first (AddressInterval.v4 first after_last) = first
interval_first (AddressInterval.v6 first after_last) = first

abbrev pub stop_of : ℕ → Option ℕ → ℕ
stop_of w none = 2 ^ w
stop_of w (some a) = a

abbrev pub interval_stop : AddressInterval → ℕ
interval_stop (AddressInterval.v4 first after_last) = stop_of 32 after_last
interval_stop (AddressInterval.v6 first after_last) = stop_of 128 after_last

abbrev pub IsWord : ℕ → Option ℕ → Type 0
IsWord w none = Unit
IsWord w (some a) = a < 2 ^ w

abbrev pub IsEnd : AddressInterval → Type 0
IsEnd (AddressInterval.v4 first after_last) = IsWord 32 after_last
IsEnd (AddressInterval.v6 first after_last) = IsWord 128 after_last

-- The interval holds an address, and its end is an address of its width, or absent.
pub record IsInterval (i : AddressInterval) : Type 0 where
  pub holds_one : interval_first i < interval_stop i
  pub is_end : IsEnd i

-- `x` is an address of the interval; `x` agrees with the prefix in all its bits.
abbrev pub in_interval : AddressInterval → ℕ → Bool
in_interval i x = leb (interval_first i) x && ltb x (interval_stop i)

abbrev pub matches : AddressPrefix → ℕ → Bool
matches p x = x / size p == address p / size p

abbrev pub count_matches : ℕ → List AddressPrefix → ℕ
count_matches x [] = 0
count_matches x (p ∷ ps) = (if matches p x then 1 else 0) + count_matches x ps
