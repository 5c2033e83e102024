-- ===== src/Tests/Packets.antt =====
-- The packet filter (cidrwall-ebpf/src/main.rs) on packets with and without VLAN tags, and the
-- witness.
use nftblock.Prelude.{
  ℕ, zero, suc, ◌+◌, ◌-◌, ◌≡◌, refl, Option, none, some, List, [], ◌∷◌, ◌++◌, length, ◌==◌,
  if◌then◌else◌,
}
use nftblock.Filter.{
  XdpContext, Maps, XdpAction, xdp_drop, xdp_pass, bytes_from, cidrwall, try_cidrwall, filter_type,
  filter_ipv4, filter_ipv6, skip_tags, read_be_u16, read_array, read_u8, look_up_ipv4, look_up_ipv6,
}
use nftblock.Filter.Frame.{judge, source}
use nftblock.Filter.Decision.{cidrwall_lem}

abbrev item : List ℕ → ℕ → ℕ
item [] n = 0
item (b ∷ bytes) zero = b
item (b ∷ bytes) (suc n) = item bytes n

-- The packet at address 1000.
abbrev pub packet : List ℕ → XdpContext
packet bytes = record {
  data_start = 1000;
  data_end = 1000 + length bytes;
  byte = λ a. item bytes (a - 1000);
}

abbrev pub ethernet : List ℕ
ethernet = 1 ∷ 2 ∷ 3 ∷ 4 ∷ 5 ∷ 6 ∷ 7 ∷ 8 ∷ 9 ∷ 10 ∷ 11 ∷ 12 ∷ []

abbrev tag : List ℕ
tag = 0x81 ∷ 0 ∷ 0 ∷ 5 ∷ []

-- From 10.0.0.1 to 192.0.2.1.
abbrev pub from_ten : List ℕ
from_ten =
    0x08 ∷ 0 ∷ 0x45 ∷ 0 ∷ 0 ∷ 20 ∷ 0 ∷ 0 ∷ 0 ∷ 0 ∷ 64 ∷ 6 ∷ 0 ∷ 0 ∷ 10 ∷ 0 ∷ 0 ∷ 1 ∷ 192 ∷ 0 ∷ 2 ∷ 1
    ∷ []

-- 10.0.0.1 is listed in the second slot, which is active.
abbrev listed : List ℕ → Option ℕ
listed address = if item address 0 == 10 then some 1 else none

abbrev tables : Maps
tables = record {
  control = some (record { layout_version = 1; active_slot = 1 });
  ipv4_a = λ address. none;
  ipv4_b = listed;
  ipv6_a = λ address. none;
  ipv6_b = λ address. none;
}

unfoldable filter : List ℕ → XdpAction
unfolding cidrwall try_cidrwall filter_type filter_ipv4 filter_ipv6 skip_tags read_be_u16 read_array
    read_u8 look_up_ipv4 look_up_ipv6
filter bytes = cidrwall (packet bytes) tables

untagged : filter (ethernet ++ from_ten) ≡ xdp_drop
unfolding filter
untagged = refl

two_tags : filter (ethernet ++ tag ++ tag ++ from_ten) ≡ xdp_drop
unfolding filter
two_tags = refl

three_tags : filter (ethernet ++ tag ++ tag ++ tag ++ from_ten) ≡ xdp_pass
unfolding filter
three_tags = refl

too_short : filter (1 ∷ 2 ∷ 3 ∷ []) ≡ xdp_pass
unfolding filter
too_short = refl

cidrwall_lem_example :
    cidrwall (packet (ethernet ++ tag ++ from_ten)) tables
    ≡ judge tables (
        source (
          bytes_from
            (packet (ethernet ++ tag ++ from_ten)).byte
            1000
            ((packet (ethernet ++ tag ++ from_ten)).data_end - 1000)))
cidrwall_lem_example = cidrwall_lem (packet (ethernet ++ tag ++ from_ten)) tables
