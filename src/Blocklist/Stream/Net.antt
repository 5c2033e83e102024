-- ===== src/Blocklist/Stream/Net.antt =====
-- The crate `ipnet`, as far as src/blocklist.rs uses it: a parameter of the model.
use nftblock.Prelude.{ℕ, ◌-◌, ◌^◌, ◌≤◌, ◌<◌, Bool, ◌⊎◌}
use nftblock.Prelude.Powers.{IsMultiple}
use nftblock.Text.{Text}

pub data IpNet (N4 N6 : Type 0) : Type 0 where
  v4 : N4 → IpNet N4 N6
  v6 : N6 → IpNet N4 N6

pub record IpNetLib : Type 1 where
  pub Ipv4Net : Type 0
  pub Ipv6Net : Type 0
  pub AddrParseError : Type 0
  -- `text.parse::<IpNet>()`
  pub parse : Text → AddrParseError ⊎ IpNet Ipv4Net Ipv6Net
  -- `net == net.trunc()`
  pub is_trunc : IpNet Ipv4Net Ipv6Net → Bool
  pub ipv4_network : Ipv4Net → ℕ
  pub ipv4_broadcast : Ipv4Net → ℕ
  pub ipv6_network : Ipv6Net → ℕ
  pub ipv6_prefix_len : Ipv6Net → ℕ

-- What the crate documents of its values: a network is a range of addresses of its family, and
-- the network address of an IPv6 network has no host bits.
pub record IpNetLaws (lib : IpNetLib) : Type 0 where
  pub ipv4_order : (n : lib.Ipv4Net) → lib.ipv4_network n ≤ lib.ipv4_broadcast n
  pub ipv4_bound : (n : lib.Ipv4Net) → lib.ipv4_broadcast n < 2 ^ 32
  pub ipv6_bound : (n : lib.Ipv6Net) → lib.ipv6_network n < 2 ^ 128
  pub ipv6_len : (n : lib.Ipv6Net) → lib.ipv6_prefix_len n ≤ 128
  pub ipv6_aligned :
      (n : lib.Ipv6Net) → IsMultiple (128 - lib.ipv6_prefix_len n) (lib.ipv6_network n)
