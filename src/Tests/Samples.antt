-- ===== src/Tests/Samples.antt =====
-- A concrete `ipnet` for the tests. A network is written as a tag, an address, a width and `;`,
-- each one code point: the width is 0 for a single address, 1 for a /25 (IPv4) or a /127 (IPv6).
use nftblock.Prelude.{
  ℕ, ◌+◌, ◌-◌, ◌*◌, ◌/◌, ◌%◌, ◌^◌, Bool, List, [], ◌∷◌, ◌⊎◌, inl, inr, arith, ◌==◌, if◌then◌else◌,
}
use nftblock.Text.{Text}
use nftblock.Prelude.Powers.{IsMultiple}
use nftblock.Blocklist.Stream.Net.{IpNet, IpNetLib, IpNetLaws}

pub record SampleNet : Type 0 where
  pub address : ℕ
  pub wide : Bool

pub data Refused : Type 0 where
  refused : Refused

abbrev toy_parse : Text → Refused ⊎ IpNet SampleNet SampleNet
toy_parse (tag ∷ address ∷ wide ∷ mark ∷ []) =
    let net : SampleNet = record { address = address; wide = wide == 1 } in
    if tag == b'4'
    then inr (IpNet.v4 net)
    else if tag == b'6'
    then inr (IpNet.v6 net)
    else inl refused
toy_parse _ = inl refused

abbrev aligned_to : ℕ → ℕ → ℕ
aligned_to size a = a / size * size

abbrev network4 : SampleNet → ℕ
network4 n = let a = n.address % 2 ^ 32 in if n.wide then aligned_to 128 a else a

abbrev network6 : SampleNet → ℕ
network6 n = let a = n.address % 2 ^ 128 in if n.wide then aligned_to 2 a else a

abbrev truncated : IpNet SampleNet SampleNet → Bool
truncated (IpNet.v4 n) = network4 n == n.address
truncated (IpNet.v6 n) = network6 n == n.address

abbrev pub sample_net : IpNetLib
sample_net = record {
  Ipv4Net = SampleNet;
  Ipv6Net = SampleNet;
  AddrParseError = Refused;
  parse = toy_parse;
  is_trunc = truncated;
  ipv4_network = network4;
  ipv4_broadcast = λ n. network4 n + (if n.wide then 127 else 0);
  ipv6_network = network6;
  ipv6_prefix_len = λ n. if n.wide then 127 else 128;
}

sample_aligned : (n : SampleNet) → IsMultiple (128 - sample_net.ipv6_prefix_len n) (network6 n)
sample_aligned n = (n.address % 2 ^ 128 / (if n.wide then 2 else 1), ground arith)

pub sample_net-IpNetLaws : IpNetLaws sample_net
sample_net-IpNetLaws = record {
  ipv4_order = λ n. ground arith;
  ipv4_bound = λ n. ground arith;
  ipv6_bound = λ n. ground arith;
  ipv6_len = λ n. ground arith;
  ipv6_aligned = sample_aligned;
}

-- The chunks that a callback is given, in order.
abbrev pub Chunks : Type 0 → Type 0
Chunks A = List (List A)
